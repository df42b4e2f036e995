-- ===== src/Greeter/Queue/Protocol.antt =====
-- What `processNextWorkItem` does to the work queue, whatever the sync of the item does
-- (greeter/internal/greeter/controller.go).
use Prim.Native.String.{String}
use mathlib.Core.Path.{◌≡◌, refl, ap, ◌∙◌}
use mathlib.Core.Bool.{Bool, true, false}
use mathlib.Core.Option.{Option, none, some}
use mathlib.Core.List.{List, [], ◌∷◌, ◌++◌}
use native.Mathlib.Omega.{arith}
use bad_pen.Base.Exec.{Outcome, value, reply, panics, settle, continue, exit, ◌>>◌}
use bad_pen.Base.Result.{Error}
use bad_pen.Greeter.{text}
use bad_pen.Greeter.Env.{Call, get_item, done, forget, add_rate_limited, add_after, Env}
use bad_pen.Greeter.Sync.{Synced, sync_handler}
use bad_pen.Greeter.Sync.Effects.{queue_calls, queue_calls-sync_handler}
use bad_pen.Greeter.Queue.{
  is_set, settle_key, report, process_got, process_object, process_next_work_item,
}

-- What the queue is told about a key, by how its sync ended.
abbrev pub verdict : String → Outcome Synced ⊥ → List Call
verdict key (value a) = []
verdict key (reply (when, some e)) = add_rate_limited key ∷ []
verdict key (reply (when, none)) = elim (is_set when) [
  | true ↦ add_after key when ∷ []
  | false ↦ forget (text key) ∷ []
]
verdict key panics = []

module _ (env : Env) where
  settled :
      (key : String) (o : Outcome Synced ⊥) (h : List Call)
      → queue_calls (continue {R = Option Error} {B = ⊥} (settle o) (settle_key key) h).1
        ≡ verdict key o ++ queue_calls h
  unfolding settle_key
  settled key (value a) h = absurd a
  settled key (reply (when, some e)) h = refl
  settled key (reply (when, none)) h = ground arith
  settled key panics h = refl

  reported :
      (o : Outcome (Option Error) ⊥) (h : List Call)
      → queue_calls (continue {R = Bool} (settle o) (λ e. report e >> exit {A = ⊥} true) h).1
        ≡ queue_calls h
  unfolding report
  reported (value a) h = absurd a
  reported (reply none) h = refl
  reported (reply (some e)) h = refl
  reported panics h = refl

  pub got_queue :
      (key : String) (h : List Call)
      → queue_calls (process_got env (some (text key)) h).1
        ≡ done (text key) ∷ (verdict key (sync_handler env key h).0 ++ queue_calls h)
  unfolding process_got process_object
  got_queue key h =
      let (o, h') = sync_handler env key h in
      let (o', h'') = continue {R = Option Error} {B = ⊥} (settle o) (settle_key key) h' in
      reported o' (done (text key) ∷ h'')
      ∙ ap (◌∷◌ (done (text key)))
          (settled key o h' ∙ ap (◌++◌ (verdict key o)) (queue_calls-sync_handler env key h))

  module _ (h : List Call) (key : String) (got : env.queue_get h ≡ some (text key)) where
    -- An item with a key is taken, synced, disposed of by how the sync ended - put back at a
    -- limited rate after an error, put back after a delay if the sync asks for one, forgotten
    -- otherwise - and marked as done, also if the sync panics; the queue sees nothing else.
    pub process_next_work_item-queue :
        queue_calls (process_next_work_item env h).1
        ≡ done (text key) ∷ verdict key (sync_handler env key (get_item ∷ h)).0
          ++ get_item ∷ queue_calls h
    unfolding process_next_work_item
    process_next_work_item-queue =
        ap (λ o. queue_calls (process_got env o (get_item ∷ h)).1) got
        ∙ got_queue key (get_item ∷ h)
