-- ===== src/Client/Simple.antt =====
-- The fake clientset (greeter/pkg/generated/clientset/versioned/fake/clientset_generated.go; that of
-- sample-controller has the same text but for the group's names). client-go's testing package is a
-- parameter.
use Prim.Native.String.{String}
use mathlib.Core.Path.{◌≡◌, subst}
use mathlib.Core.Logic.{inl, inr}
use mathlib.Core.Bool.{Bool, true, false}
use mathlib.Core.Option.{Option, none, some}
use mathlib.Core.List.{List, [], ◌∷◌}
use native.Mathlib.Omega.{arith}
use bad_pen.Base.Result.{
  Error, Result, Result-cases, ok, err, Checked, Checked-cases, returned, panicked,
}
use bad_pen.Copies.{Interface, holding}
use bad_pen.Client.Fake.{GroupVersionResource, Tracker, FakeGreeters}

-- An object tracker `T` of objects `O`, and how it answers an action `A`.
pub record Tracking (O T A R W : Type 0) : Type 0 where
  pub new_object_tracker : T
  pub add_object : T → O → Result T
  pub object_reaction : T → A → Bool × Option R × Option Error
  pub watch_objects : T → GroupVersionResource → String → Result W
  pub get_resource : A → GroupVersionResource
  pub get_namespace : A → String

-- A reaction to actions of a verb on a resource, and one to watches of a resource, in the tracker's
-- state of the time; it says whether it has handled the action.
pub record Reactor (T A R : Type 0) : Type 0 where
  pub verb : String
  pub resource : String
  pub reaction : T → A → Bool × Option R × Option Error

pub record WatchReactor (T A W : Type 0) : Type 0 where
  pub resource : String
  pub reaction : T → A → Bool × Option W × Option Error

-- The tracker, and the reactions of the embedded testing.Fake. (The fake discovery is a pointer to
-- that testing.Fake.)
pub record FakeClientset (T A R W : Type 0) : Type 0 where
  pub tracker : T
  pub reactors : List (Reactor T A R)
  pub watch_reactors : List (WatchReactor T A W)

watch_answer : {W : Type 0} → Result W → Bool × Option W × Option Error
watch_answer (ok w) = (true, some w, none)
watch_answer (err e) = (false, none, some e)

module _ {O T A R W : Type 0} (testing : Tracking O T A R W) where
  -- The loop of `NewSimpleClientset`.
  unfoldable pub add_each : List O → T → Checked T
  add_each [] tracker = returned tracker
  add_each (o ∷ objects) tracker = elim (testing.add_object tracker o) [
    | ok tracker' ↦ add_each objects tracker'
    | err e ↦ panicked
  ]

  -- The reaction to watches.
  unfoldable pub react_to_watch : T → A → Bool × Option W × Option Error
  unfolding watch_answer
  react_to_watch tracker action =
      watch_answer
        (testing.watch_objects tracker (testing.get_resource action) (testing.get_namespace action))

  with_tracker : Checked T → Checked (FakeClientset T A R W)
  unfolding react_to_watch
  with_tracker panicked = panicked
  with_tracker (returned tracker) = returned (record {
    tracker = tracker;
    reactors = record { verb = "*"; resource = "*"; reaction = testing.object_reaction } ∷ [];
    watch_reactors = record { resource = "*"; reaction = react_to_watch } ∷ [];
  })

  -- `NewSimpleClientset`
  unfoldable pub new_simple_clientset : List O → Checked (FakeClientset T A R W)
  unfolding with_tracker add_each
  new_simple_clientset objects = with_tracker (add_each objects testing.new_object_tracker)

  -- Objects added to a tracker one after the other.
  pub data Added : List O → T → T → Type 0 where
    none_added : (tracker : T) → Added [] tracker tracker
    one_added :
        (o : O) (objects : List O) (t1 t2 t3 : T)
        → testing.add_object t1 o ≡ ok t2
        → Added objects t2 t3
        → Added (o ∷ objects) t1 t3

  add_each-Added :
      (objects : List O) (tracker tracker' : T)
      → add_each objects tracker ≡ returned tracker'
      → Added objects tracker tracker'
  unfolding add_each
  add_each-Added [] tracker tracker' e = subst (Added [] tracker) (cc e) (none_added tracker)
  add_each-Added (o ∷ objects) tracker tracker' e =
      elim (Result-cases (testing.add_object tracker o)) [
        | inl (t2, same) ↦
            one_added o objects tracker t2 tracker' same
              (add_each-Added objects t2 tracker' (ground arith))
        | inr (x, failing) ↦ absurd (ground arith)
      ]

  -- A clientset that is returned holds a tracker to which all given objects were added, in their
  -- order.
  pub new_simple_clientset-Added :
      (objects : List O) (c : FakeClientset T A R W)
      → new_simple_clientset objects ≡ returned c
      → Added objects testing.new_object_tracker c.tracker
  unfolding new_simple_clientset with_tracker
  new_simple_clientset-Added objects c e =
      elim (Checked-cases (add_each objects testing.new_object_tracker)) [
        | inl (tracker, same) ↦
            add_each-Added objects testing.new_object_tracker c.tracker (ground arith)
        | inr failing ↦ absurd (ground arith)
      ]

-- `Tracker` of a fake clientset
abbrev pub tracker_of : {T A R W : Type 0} → FakeClientset T A R W → T
tracker_of c = c.tracker

-- `GreeterV1alpha1`, then `Greeters`: they hold the clientset's testing.Fake.
abbrev pub fake_greeters : {Watch : Type 0} → Tracker Watch → String → FakeGreeters Watch
fake_greeters fake namespace = record { fake = fake; ns = namespace }

-- `RESTClient` of the fake group client: an interface that is not nil, with a nil pointer in it.
abbrev pub fake_rest_client : Interface
fake_rest_client = holding none
