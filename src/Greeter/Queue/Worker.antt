-- ===== src/Greeter/Queue/Worker.antt =====
-- When a worker's loop ends (`runWorker` of greeter/internal/greeter/controller.go).
use Prim.Native.Nat.{ℕ, zero, suc, ◌+◌, ◌≤◌}
use Prim.Native.String.{String}
use mathlib.Core.Path.{◌≡◌, refl, sym, ap, ◌∙◌}
use mathlib.Core.Logic.{◌≢◌, inl, inr}
use mathlib.Core.Bool.{Bool, true}
use mathlib.Core.Option.{Option, none, some}
use mathlib.Core.List.{List, [], ◌∷◌, ◌++◌}
use native.Mathlib.Omega.{arith}
use bad_pen.Base.{Option-cases, if◌then◌else◌}
use bad_pen.Base.Exec.{Outcome, value, reply, panics, settle, continue, exit, ◌>>◌}
use bad_pen.Base.Result.{Error}
use bad_pen.Greeter.{Object, greeter_object, pod_object, tombstone, text, other_object}
use bad_pen.Greeter.Env.{Call, get_item, done, Env}
use bad_pen.Greeter.Sync.{Synced, sync_handler}
use bad_pen.Greeter.Sync.Effects.{queue_calls, sync_handler-Returns}
use bad_pen.Greeter.Queue.{
  settle_key, drop_item, report, process_got, process_object, process_next_work_item, run_worker,
}
use bad_pen.Greeter.Queue.Protocol.{verdict, got_queue}
use bad_pen.Lister.Laws.{IsTyped}

-- How many items were asked for in a history.
abbrev pub gets : List Call → ℕ
gets [] = 0
gets (c ∷ h) = let rest = gets h in elim c [ get_item ↦ suc rest | _ ↦ rest ]

gets-queue_calls : (h : List Call) → gets (queue_calls h) ≡ gets h
gets-queue_calls [] = refl
gets-queue_calls (c ∷ h) = ground (arith, gets-queue_calls h)

gets-verdict :
    (key : String) (o : Outcome Synced ⊥) (q : List Call) → gets (verdict key o ++ q) ≡ gets q
gets-verdict key (value a) q = refl
gets-verdict key (reply (when, some e)) q = refl
gets-verdict key (reply (when, none)) q = ground arith
gets-verdict key panics q = refl

settle_key_replies :
    (key : String) (o : Outcome Synced ⊥) (h : List Call)
    → o ≢ panics
    → (e : Option Error) × ((continue {R = Option Error} {B = ⊥} (settle o) (settle_key key) h).0
        ≡ reply e)
unfolding settle_key
settle_key_replies key (value a) h here = absurd a
settle_key_replies key (reply (when, some e)) h here = (_, refl)
settle_key_replies key (reply (when, none)) h here = (none, ground arith)
settle_key_replies key panics h here = absurd (here refl)

reported_true :
    (o : Outcome (Option Error) ⊥) (h : List Call) {e : Option Error}
    → o ≡ reply e
    → (continue {R = Bool} (settle o) (λ e. report e >> exit {A = ⊥} true) h).0 ≡ reply true
unfolding report
reported_true (value a) h p = absurd a
reported_true (reply none) h p = refl
reported_true (reply (some e)) h p = refl
reported_true panics h p = cc p

module _ (env : Env) (typed : (h : List Call) → IsTyped (env.greeter_cache h)) where
  -- Each item that is taken is processed to the end.
  item_taken :
      (object : Object) (h : List Call)
      → ((process_got env (some object) h).0 ≡ reply true)
        × (gets (process_got env (some object) h).1 ≡ gets h)
  unfolding process_got process_object drop_item
  item_taken (text key) h =
      let (o, h') = sync_handler env key h in
      let (o', h'') = continue {R = Option Error} {B = ⊥} (settle o) (settle_key key) h' in
      let (e, replied) = settle_key_replies key o h' (sync_handler-Returns env typed key h) in
      let q = got_queue env key h in
      (
        reported_true o' (done (text key) ∷ h'') replied,
        sym (gets-queue_calls (process_got env (some (text key)) h).1)
            ∙ ap gets q
            ∙ gets-verdict key o (queue_calls h)
            ∙ gets-queue_calls h,
      )
  item_taken (greeter_object g) h = (refl, refl)
  item_taken (pod_object pod) h = (refl, refl)
  item_taken (tombstone object) h = (refl, refl)
  item_taken other_object h = (refl, refl)

  stopped :
      (fuel : ℕ) (h : List Call)
      → env.queue_get h ≡ none
      → run_worker env (suc fuel) h ≡ (reply tt, get_item ∷ h)
  unfolding run_worker process_next_work_item process_got
  stopped fuel h shut = rw shut refl

  abbrev next : List Call → Object → List Call
  next h object = (process_got env (some object) (get_item ∷ h)).1

  went_on :
      (fuel : ℕ) (h : List Call) (object : Object)
      → env.queue_get h ≡ some object
      → run_worker env (suc fuel) h ≡ run_worker env fuel (next h object)
  unfolding run_worker process_next_work_item
  went_on fuel h object got =
      ap
        (λ o.
          let (r, h') = process_got env o (get_item ∷ h) in
          continue {R = Unit {0}} (settle r)
            (λ more. if more then run_worker env fuel else exit {A = Unit {0}} tt) h')
        got
      ∙ ap
          (λ r.
            continue {R = Unit {0}} (settle r)
              (λ more. if more then run_worker env fuel else exit {A = Unit {0}} tt)
              (next h object))
          (item_taken object (get_item ∷ h)).0

  -- If the cache holds Greeters only, a worker returns: should the queue be shut down after at
  -- most `n` items, then its loop ends within `n + 1` rounds, whatever each item's sync does.
  pub run_worker_returns :
      (n fuel : ℕ) (h : List Call)
      → ((h : List Call) → n ≤ gets h → env.queue_get h ≡ none)
      → n ≤ gets h + fuel
      → (run_worker env (suc fuel) h).0 ≡ reply tt
  run_worker_returns n zero h closes enough =
      ap (λ x. x.0) (stopped zero h (closes h (omega arith)))
  run_worker_returns n (suc m) h closes enough = elim (Option-cases (env.queue_get h)) [
    | inl shut ↦ ap (λ x. x.0) (stopped (suc m) h shut)
    | inr (object, got) ↦
        ap (λ x. x.0) (went_on (suc m) h object got)
        ∙ run_worker_returns n m (next h object) closes
            (omega (arith, (item_taken object (get_item ∷ h)).1))
  ]
