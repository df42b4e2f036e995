-- ===== src/Programs/PodPrograms/Shown.antt =====
-- What the programs that show pods do with what a cluster answers, and where they panic
-- (quickstart/cmd/quickstart/main.go and watcher/cmd/watcher/main.go).
use Prim.Native.Nat.{ℕ, zero, suc, ◌<◌}
use Prim.Native.String.{String}
use mathlib.Core.Path.{◌≡◌, refl}
use mathlib.Core.Logic.{◌≢◌}
use mathlib.Core.Option.{none}
use mathlib.Core.List.{List, [], ◌∷◌, ◌++◌, map, Memᴰ}
use native.Mathlib.Omega.{arith}
use bad_pen.Base.{length}
use bad_pen.Base.Exec.{Outcome, value, panics, made, ◌>>=◌, ◌>>◌, call}
use bad_pen.Base.Result.{Result, ok, err}
use bad_pen.Kube.{Pod}
use bad_pen.Greeter.{Object, greeter_object, pod_object, tombstone, text, other_object}
use bad_pen.Programs.PodPrograms.{
  Call, list_pods, get_pod, start_watch, stop_watch, print_count, print_pod, print_event, sleep,
  Event, Env, panic_on, must, at_index, as_pod, watch_each, random_below, show_some, watcher,
}

abbrev pub pod_event : String × Pod → Event
pod_event (t, pod) = record { type = t; object = pod_object pod }

abbrev pub event_line : String × Pod → Call
event_line (t, pod) = print_event t pod

-- How a watch ends: its channel is closed, or an event has an object that is no pod.
pub data WatchEnds : List Event → Outcome (Unit {0}) (Unit {0}) → Type 0 where
  closed : WatchEnds [] (value tt)
  no_pod :
      (e : Event) (rest : List Event)
      → ((pod : Pod) → e.object ≢ pod_object pod)
      → WatchEnds (e ∷ rest) panics

as_pod-panics :
    (object : Object) (h : List Call)
    → ((pod : Pod) → object ≢ pod_object pod)
    → as_pod object h ≡ (panics, h)
unfolding as_pod
as_pod-panics (pod_object pod) h other = absurd (other pod refl)
as_pod-panics (greeter_object g) h other = refl
as_pod-panics (tombstone object) h other = refl
as_pod-panics (text s) h other = refl
as_pod-panics other_object h other = refl

watch_each-ends :
    (rest : List Event) (o : Outcome (Unit {0}) (Unit {0})) (h : List Call)
    → WatchEnds rest o
    → watch_each rest h ≡ (o, h)
unfolding watch_each
watch_each-ends _ _ h closed = refl
watch_each-ends _ _ h (no_pod e rest other) = rw (as_pod-panics e.object h other) refl

watch_each-pods :
    (pods : List (String × Pod)) (rest : List Event) (o : Outcome (Unit {0}) (Unit {0}))
    (h : List Call)
    → WatchEnds rest o
    → watch_each (map pod_event pods ++ rest) h ≡ (o, made (map event_line pods) h)
unfolding watch_each as_pod
watch_each-pods [] rest o h end = watch_each-ends rest o h end
watch_each-pods (p ∷ pods) rest o h end = watch_each-pods pods rest o (event_line p ∷ h) end

-- The watcher prints a line for each event of a pod, in their order, and stops the watch in the
-- end. It returns if the channel was closed, and panics at the first event whose object is no pod.
pub watcher_lem :
    (env : Env) (pods : List (String × Pod)) (rest : List Event) (o : Outcome (Unit {0}) (Unit {0}))
    (h : List Call)
    → env.clientset_error ≡ none
    → env.watch_error h ≡ none
    → env.events ≡ map pod_event pods ++ rest
    → WatchEnds rest o
    → watcher env h ≡ (o, stop_watch ∷ made (map event_line pods) (start_watch ∷ h))
unfolding watcher panic_on
watcher_lem env pods rest o h made_client watching events end =
    rw (made_client, watching, events, watch_each-pods pods rest o (start_watch ∷ h) end) refl

-- In a cluster with no pods quickstart panics in its first round, after it has printed that there
-- are none: it asks for a random number below zero.
pub show_some_panics :
    (env : Env) (h : List Call)
    → env.listed h ≡ ok []
    → show_some env h ≡ (panics, print_count 0 ∷ list_pods ∷ h)
unfolding show_some must random_below
show_some_panics env h listed = rw listed refl

at_index-in_range :
    {A : Type 0} (xs : List A) (i : ℕ)
    → i < length xs
    → (x : A) × Memᴰ x xs × ((h : List Call) → at_index xs i h ≡ (value x, h))
unfolding at_index
at_index-in_range [] i lt = absurd (omega arith)
at_index-in_range (x ∷ xs) zero lt = (x, Memᴰ.head refl, λ h. refl)
at_index-in_range (x ∷ xs) (suc i) lt =
    let (y, found, same) = at_index-in_range xs i (omega arith) in (y, Memᴰ.tail found, same)

-- What a round of quickstart does with the answer to its `Get`.
abbrev pub shown : Result Pod → List Call → Outcome (Unit {0}) (Unit {0}) × List Call
shown (ok pod) h = (value tt, sleep ∷ print_pod pod ∷ h)
shown (err e) h = (panics, h)

show_chosen :
    (r : Result Pod) (h : List Call)
    → (must r >>= λ pod. call (print_pod pod) (λ h. tt) >> call sleep (λ h. tt)) h ≡ shown r h
unfolding must
show_chosen (ok pod) h = refl
show_chosen (err e) h = refl

-- In a cluster with pods a round of quickstart prints how many there are and gets one of them: the
-- index is in range if `rand.Intn` returns a number below its argument. The pod is printed as it
-- was got; only an error of `Get` makes the round panic.
pub show_some_gets :
    (env : Env) (h : List Call) (p : Pod) (ps : List Pod)
    → env.listed h ≡ ok (p ∷ ps)
    → ((h' : List Call) (n : ℕ) → env.intn h' (suc n) < suc n)
    → (chosen : Pod) × Memᴰ chosen (p ∷ ps)
      × (show_some env h
          ≡ shown
              (env.got
                (print_count (suc (length ps)) ∷ list_pods ∷ h)
                chosen.meta.namespace
                chosen.meta.name)
              (get_pod chosen.meta.namespace chosen.meta.name
                ∷ print_count (suc (length ps))
                ∷ list_pods
                ∷ h))
unfolding show_some must random_below
show_some_gets env h p ps listed below =
    let h1 = print_count (suc (length ps)) ∷ list_pods ∷ h in
    let (chosen, found, same) =
      at_index-in_range (p ∷ ps) (env.intn h1 (suc (length ps))) (below h1 (length ps)) in
    (
      chosen,
      found,
      rw (listed, same h1)
          (show_chosen (env.got h1 chosen.meta.namespace chosen.meta.name)
            (get_pod chosen.meta.namespace chosen.meta.name ∷ h1)),
    )
