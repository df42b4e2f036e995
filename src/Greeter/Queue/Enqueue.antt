-- ===== src/Greeter/Queue/Enqueue.antt =====
-- Which Greeter a pod's event puts on the work queue (`enqueuePod` of
-- greeter/internal/greeter/controller.go).
use Prim.Native.String.{String}
use mathlib.Core.Path.{◌≡◌, refl, ap, ◌∙◌, sym}
use mathlib.Core.Logic.{◌⊎◌, inl, inr}
use mathlib.Core.Bool.{true}
use mathlib.Core.Option.{Option, none, some, some-injective}
use mathlib.Core.List.{List, ◌∷◌}
use native.Mathlib.Omega.{arith}
use package.text.Mathlib.Text.{◌==◌}
use package.text.Mathlib.TextEquality.{eq_iff}
use bad_pen.Base.{Bool-cases}
use bad_pen.Base.Exec.{reply}
use bad_pen.Base.Result.{Result, Result-cases, ok, err, Checked, returned, panicked}
use bad_pen.Kube.{Pod, OwnerReference, Ownership, OwnershipLaws}
use bad_pen.Greeter.{Greeter, Object, greeter_object, pod_object, tombstone, text, other_object}
use bad_pen.Greeter.Env.{Call, add, read_greeter, Env}
use bad_pen.Greeter.Sync.{greeter_kind}
use bad_pen.Greeter.Sync.Effects.{queue_calls}
use bad_pen.Greeter.Queue.{
  enqueue_greeter, enqueue_controlling, enqueue_owner, enqueue_found, enqueue_pod,
}
use bad_pen.Lister

-- The pod that an event tells of, also one whose deletion was missed.
abbrev pub pod_of : Object → Option Pod
pod_of (pod_object pod) = some pod
pod_of (tombstone (pod_object pod)) = some pod
pod_of other = none

module _ (env : Env) where
  abbrev pub cached : List Call → String → String → Checked (Result Greeter)
  cached h namespace name =
      Lister.get (Lister.greeters (Lister.new_greeter_lister (env.greeter_cache h)) namespace) name

  -- One key, that of the Greeter, is put on the queue, and nothing else is done to the queue.
  abbrev pub Adds : Greeter → List Call → List Call → Type 0
  Adds g h after =
      (key : String) × (env.key_of (greeter_object g) ≡ ok key)
      × (queue_calls after ≡ add key ∷ queue_calls h)

  enqueue_greeter-queue :
      (g : Greeter) (h : List Call)
      → (queue_calls (enqueue_greeter env (greeter_object g) h).1 ≡ queue_calls h)
        ⊎ Adds g h (enqueue_greeter env (greeter_object g) h).1
  unfolding enqueue_greeter
  enqueue_greeter-queue g h = elim (Result-cases (env.key_of (greeter_object g))) [
    | inl (key, keyed) ↦ inr (key, keyed, rw keyed refl)
    | inr (x, failed) ↦ inl (rw failed refl)
  ]

  enqueue_controlling-queue :
      (pod : Pod) (got : Checked (Result Greeter)) (h : List Call)
      → (queue_calls (enqueue_controlling env pod got h).1 ≡ queue_calls h)
        ⊎ ((g : Greeter) × (got ≡ returned (ok g))
            × (Ownership.is_controlled_by env.ownership pod.meta g.meta ≡ true)
            × Adds g h (enqueue_controlling env pod got h).1)
  unfolding enqueue_controlling
  enqueue_controlling-queue pod panicked h = inl refl
  enqueue_controlling-queue pod (returned (err x)) h = inl refl
  enqueue_controlling-queue pod (returned (ok g)) h =
      elim (Bool-cases (Ownership.is_controlled_by env.ownership pod.meta g.meta)) [
        | inl own ↦ elim (enqueue_greeter-queue g h) [
          | inl same ↦ inl (rw own same)
          | inr adds ↦ inr (g, refl, own, rw own adds)
        ]
        | inr foreign ↦ inl (rw foreign refl)
      ]

  -- The pod's controller is the Greeter, by kind, name and UID, and the cache has the Greeter.
  abbrev pub IsOwnerOf : Greeter → Pod → List Call → Type 0
  IsOwnerOf g pod h =
      (owner : OwnerReference) × (Ownership.get_controller_of env.ownership pod.meta ≡ some owner)
      × (owner.kind ≡ greeter_kind)
      × (cached h pod.meta.namespace owner.name ≡ returned (ok g))
      × (owner.uid ≡ g.meta.uid)

  enqueue_owner-queue :
      OwnershipLaws env.ownership
      → (pod : Pod) (controller : Option OwnerReference) (h : List Call)
      → Ownership.get_controller_of env.ownership pod.meta ≡ controller
      → (queue_calls (enqueue_owner env pod controller h).1 ≡ queue_calls h)
        ⊎ ((g : Greeter) × IsOwnerOf g pod h × Adds g h (enqueue_owner env pod controller h).1)
  unfolding enqueue_owner
  enqueue_owner-queue laws pod none h e = inl refl
  enqueue_owner-queue laws pod (some owner) h e = elim (Bool-cases (owner.kind == greeter_kind)) [
    | inr other ↦ inl (rw other refl)
    | inl kind ↦
        elim (enqueue_controlling-queue pod (cached h pod.meta.namespace owner.name)
          (read_greeter pod.meta.namespace owner.name ∷ h)) [
            | inl same ↦ inl (rw kind same)
            | inr (g, found, own, adds) ↦
                let (ref, controller, uid) =
                  (OwnershipLaws.controlled_iff laws pod.meta g.meta).0 own in
                inr (
                  g,
                  (
                    owner,
                    e,
                    (eq_iff owner.kind greeter_kind).0 kind,
                    found,
                    ap OwnerReference.uid (some-injective owner ref (sym e ∙ controller)) ∙ uid,
                  ),
                  rw kind adds,
                )
          ]
  ]

  enqueue_found-queue :
      OwnershipLaws env.ownership
      → (pod : Pod) (object : Object) (h : List Call) → pod_of object ≡ some pod
      → (queue_calls (enqueue_found env pod h).1 ≡ queue_calls h)
        ⊎ ((pod' : Pod) × (g : Greeter) × (pod_of object ≡ some pod')
            × IsOwnerOf g pod' h
            × Adds g h (enqueue_found env pod h).1)
  unfolding enqueue_found
  enqueue_found-queue laws pod object h told =
      elim (enqueue_owner-queue laws pod (Ownership.get_controller_of env.ownership pod.meta) h
        refl) [ inl same ↦ inl same | inr (g, owner, adds) ↦ inr (pod, g, told, owner, adds) ]

  module _ (laws : OwnershipLaws env.ownership) (pod : Pod) (h : List Call) where
    -- A pod whose controller is a Greeter in the cache, by kind, name and UID, puts that Greeter's
    -- key on the queue.
    pub enqueue_pod_adds :
        (owner : OwnerReference) (g : Greeter) (key : String)
        → Ownership.get_controller_of env.ownership pod.meta ≡ some owner
        → owner.kind ≡ greeter_kind
        → cached h pod.meta.namespace owner.name ≡ returned (ok g)
        → owner.uid ≡ g.meta.uid
        → env.key_of (greeter_object g) ≡ ok key
        → enqueue_pod env (pod_object pod) h
          ≡ (reply tt, add key ∷ read_greeter pod.meta.namespace owner.name ∷ h)
    unfolding enqueue_pod enqueue_greeter
    enqueue_pod_adds owner g key controller kind found same_uid keyed = ground (
      arith,
      eq_iff owner.kind greeter_kind,
      (OwnershipLaws.controlled_iff laws pod.meta g.meta).1 (owner, controller, same_uid),
    )

  -- Whatever `enqueuePod` is given, it leaves the queue alone, or it puts exactly one key there, and
  -- that is the key of a Greeter in the cache which is the controller, by kind, name and UID, of the
  -- pod that it was given, or of the pod in the tombstone that it was given. No other call of the
  -- queue is made.
  pub enqueue_pod_only :
      OwnershipLaws env.ownership
      → (object : Object) (h : List Call)
      → (queue_calls (enqueue_pod env object h).1 ≡ queue_calls h)
        ⊎ ((pod : Pod) × (g : Greeter) × (pod_of object ≡ some pod)
            × IsOwnerOf g pod h
            × Adds g h (enqueue_pod env object h).1)
  unfolding enqueue_pod enqueue_found
  enqueue_pod_only laws (pod_object pod) h = enqueue_found-queue laws pod (pod_object pod) h refl
  enqueue_pod_only laws (tombstone (pod_object pod)) h =
      enqueue_found-queue laws pod (tombstone (pod_object pod)) h refl
  enqueue_pod_only laws (tombstone (greeter_object g)) h = inl refl
  enqueue_pod_only laws (tombstone (tombstone o)) h = inl refl
  enqueue_pod_only laws (tombstone (text s)) h = inl refl
  enqueue_pod_only laws (tombstone other_object) h = inl refl
  enqueue_pod_only laws (greeter_object g) h = inl refl
  enqueue_pod_only laws (text s) h = inl refl
  enqueue_pod_only laws other_object h = inl refl
