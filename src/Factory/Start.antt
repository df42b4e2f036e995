-- ===== src/Factory/Start.antt =====
-- `Start` and `Shutdown` of the informer factory, alone and in any sequence of the factory's steps
-- (greeter/pkg/generated/informers/externalversions/factory.go).
use Prim.Native.Nat.{ℕ, suc}
use Prim.Native.String.{String}
use mathlib.Core.Path.{◌≡◌, refl, ap, ◌∙◌, subst}
use mathlib.Core.Logic.{inl, inr}
use mathlib.Core.Bool.{Bool, true, false}
use mathlib.Core.Option.{Option, some}
use mathlib.Core.List.{List, [], ◌∷◌}
use native.Mathlib.Omega.{arith}
use text.Mathlib.Text.{◌==◌}
use text.Mathlib.TextEquality.{eq_iff}
use bad_pen.Base.{Bool-cases, if◌then◌else◌, lookup, lookup-insert, All}
use bad_pen.Time.{Duration}
use bad_pen.Factory.{
  Factory, marked, launch, start_each, start, shutdown, finish, informer_for, found_or_new,
  new_filtered_shared_informer_factory, new_shared_informer_factory_with_options, apply_options,
  with_namespace, with_tweak_list_options,
}

-- How many times the informer of a type was launched.
abbrev pub launches {ℓ} : {I : Type ℓ} → String → List (String × I) → ℕ
launches t [] = 0
launches t ((s, informer) ∷ rest) = let n = launches t rest in if s == t then suc n else n

abbrev pub once : Bool → ℕ
once true = 1
once false = 0

module _ {C I T : Type 0} where
  abbrev IsMarked : Factory C I T → String → Type 0
  IsMarked f t = marked t f.started_informers ≡ true

  -- Each informer was launched once if its type is marked as started, and else not at all.
  abbrev IsOnce : Factory C I T → Type 0
  IsOnce f = (t : String) → launches t f.launched ≡ once (marked t f.started_informers)

  -- A launch marks its type, and no other.
  marked-launch :
      (t s : String) (informer : I) (f : Factory C I T)
      → marked s (Factory.started_informers (launch t informer f))
        ≡ (if t == s then true else marked s f.started_informers)
  unfolding launch marked
  marked-launch t s informer f = ground (arith, lookup-insert t s true f.started_informers)

  abbrev one : String → I → Factory C I T → Factory C I T
  one t informer f = if marked t f.started_informers then f else launch t informer f

  one-IsMarked : (t : String) (informer : I) (f : Factory C I T) → IsMarked (one t informer f) t
  one-IsMarked t informer f = ground (arith, marked-launch t t informer f, eq_iff t t)

  one-keeps :
      (t s : String) (informer : I) (f : Factory C I T)
      → IsMarked f s
      → IsMarked (one t informer f) s
  one-keeps t s informer f m = ground (arith, marked-launch t s informer f)

  start_each-keeps :
      (s : String) (xs : List (String × I)) (f : Factory C I T)
      → IsMarked f s
      → IsMarked (start_each xs f) s
  unfolding start_each
  start_each-keeps s [] f m = m
  start_each-keeps s ((t, informer) ∷ rest) f m =
      start_each-keeps s rest (one t informer f) (one-keeps t s informer f m)

  start_each-IsMarked :
      (s : String) (xs : List (String × I)) (f : Factory C I T) (i : I)
      → lookup s xs ≡ some i
      → IsMarked (start_each xs f) s
  unfolding start_each lookup
  start_each-IsMarked s [] f i e = cc e
  start_each-IsMarked s ((t, informer) ∷ rest) f i e = elim (Bool-cases (t == s)) [
    | inl same ↦ start_each-keeps s rest (one t informer f) (
        subst (λ x. IsMarked (one t informer f) x) ((eq_iff t s).0 same)
          (one-IsMarked t informer f))
    | inr other ↦ start_each-IsMarked s rest (one t informer f) i (ground arith)
  ]

  one-IsOnce :
      (t : String) (informer : I) (f : Factory C I T) → IsOnce f → IsOnce (one t informer f)
  unfolding launch
  one-IsOnce t informer f h s = ground (arith, eq_iff t s, h s, h t, marked-launch t s informer f)

  start_each-IsOnce :
      (xs : List (String × I)) (f : Factory C I T) → IsOnce f → IsOnce (start_each xs f)
  unfolding start_each
  start_each-IsOnce [] f h = h
  start_each-IsOnce ((t, informer) ∷ rest) f h =
      start_each-IsOnce rest (one t informer f) (one-IsOnce t informer f h)

  pub start_each-informers :
      (xs : List (String × I)) (f : Factory C I T)
      → (Factory.informers (start_each xs f) ≡ f.informers)
        × (Factory.shutting_down (start_each xs f) ≡ f.shutting_down)
  unfolding start_each launch
  start_each-informers [] f = (refl, refl)
  start_each-informers ((t, informer) ∷ rest) f =
      ground (arith, start_each-informers rest (one t informer f))

  All-IsMarked :
      (xs : List (String × I)) (f : Factory C I T) → All (λ x. IsMarked (start_each xs f) x.0) xs
  unfolding start_each
  All-IsMarked [] f = tt
  All-IsMarked ((t, informer) ∷ rest) f = (
    start_each-keeps t rest (one t informer f) (one-IsMarked t informer f),
    All-IsMarked rest (one t informer f),
  )

  start_each-idle :
      (xs : List (String × I)) (f : Factory C I T)
      → All (λ x. IsMarked f x.0) xs
      → start_each xs f ≡ f
  unfolding start_each
  start_each-idle [] f m = refl
  start_each-idle ((t, informer) ∷ rest) f (here, later) =
      ap (λ b. start_each rest (if b then f else launch t informer f)) here
      ∙ start_each-idle rest f later

  starts_again :
      (f : Factory C I T)
      → f.shutting_down ≡ false
      → start (start_each f.informers f) ≡ start_each f.informers f
  unfolding start
  starts_again f up =
      let (registered, down) = start_each-informers f.informers f in
      ap (λ b. let g = start_each f.informers f in if b then g else start_each g.informers g)
        (down ∙ up)
      ∙ ap (λ xs. start_each xs (start_each f.informers f)) registered
      ∙ start_each-idle f.informers (start_each f.informers f) (All-IsMarked f.informers f)

  -- `Start` can be called again: with no informer requested in between, the second call does
  -- nothing.
  pub start_idempotent : (f : Factory C I T) → start (start f) ≡ start f
  unfolding start
  start_idempotent f = elim (Bool-cases f.shutting_down) [
    | inl down ↦ ground arith
    | inr up ↦ ground (arith, starts_again f up)
  ]

  -- Unless the factory is shutting down, `Start` leaves no requested informer unstarted.
  pub start-marked :
      (f : Factory C I T) (t : String) (informer : I)
      → f.shutting_down ≡ false
      → lookup t f.informers ≡ some informer
      → marked t (Factory.started_informers (start f)) ≡ true
  unfolding start
  start-marked f t informer up requested =
      ground (arith, start_each-IsMarked t f.informers f informer requested)

  -- The steps of a factory.
  pub data Step : Factory C I T → Factory C I T → Type 0 where
    starting : (f : Factory C I T) → Step f (start f)
    shutting : (f : Factory C I T) → Step f (shutdown f)
    finishing : (f : Factory C I T) → Step f (finish f)
    requesting :
        (f : Factory C I T) (t : String) (new_func : C → Duration → I)
        → Step f (informer_for t new_func f).1

  pub data Steps : Factory C I T → Factory C I T → Type 0 where
    nil : (f : Factory C I T) → Steps f f
    cons : (f g k : Factory C I T) → Step f g → Steps g k → Steps f k

  informer_for-rest :
      (t : String) (new_func : C → Duration → I) (f : Factory C I T)
      → (Factory.launched (informer_for t new_func f).1 ≡ f.launched)
        × (Factory.started_informers (informer_for t new_func f).1 ≡ f.started_informers)
        × (Factory.shutting_down (informer_for t new_func f).1 ≡ f.shutting_down)
  unfolding informer_for found_or_new
  informer_for-rest t new_func f = ground arith

  Step-IsOnce : (f g : Factory C I T) → Step f g → IsOnce f → IsOnce g
  unfolding start shutdown finish
  Step-IsOnce _ _ (starting f) h t = ground (arith, start_each-IsOnce f.informers f h t, h t)
  Step-IsOnce _ _ (shutting f) h t = h t
  Step-IsOnce _ _ (finishing f) h t = h t
  Step-IsOnce _ _ (requesting f s new_func) h t =
      let (launched, started, _) = informer_for-rest s new_func f in rw (launched, started) (h t)

  Steps-IsOnce : (f g : Factory C I T) → Steps f g → IsOnce f → IsOnce g
  Steps-IsOnce _ _ (nil f) h = h
  Steps-IsOnce _ _ (cons f g k s rest) h = Steps-IsOnce g k rest (Step-IsOnce f g s h)

  -- Whatever steps a new factory takes, the informer of each type is launched at most once, and
  -- exactly if the factory has marked the type as started.
  pub launched_once :
      (client : C) (default_resync : Duration) (namespace : String) (tweak : Option T)
      (g : Factory C I T) (t : String)
      → Steps (new_filtered_shared_informer_factory client default_resync namespace tweak) g
      → launches t g.launched ≡ once (marked t g.started_informers)
  unfolding new_filtered_shared_informer_factory new_shared_informer_factory_with_options
      apply_options with_namespace with_tweak_list_options marked lookup
  launched_once client default_resync namespace tweak g t steps =
      Steps-IsOnce _ g steps (λ s. refl) t

  Step-launched :
      (f g : Factory C I T)
      → Step f g
      → f.shutting_down ≡ true
      → (g.launched ≡ f.launched) × (g.shutting_down ≡ true)
  unfolding start shutdown finish
  Step-launched _ _ (starting f) down = ground arith
  Step-launched _ _ (shutting f) down = (refl, refl)
  Step-launched _ _ (finishing f) down = (refl, down)
  Step-launched _ _ (requesting f s new_func) down =
      let (launched, _, same) = informer_for-rest s new_func f in (launched, same ∙ down)

  Steps-launched :
      (f g : Factory C I T) → Steps f g → f.shutting_down ≡ true → g.launched ≡ f.launched
  Steps-launched _ _ (nil f) down = refl
  Steps-launched _ _ (cons f g k s rest) down =
      let (launched, still) = Step-launched f g s down in Steps-launched g k rest still ∙ launched

  -- Once `Shutdown` was called no step launches an informer.
  pub shutdown_final : (f g : Factory C I T) → Steps (shutdown f) g → g.launched ≡ f.launched
  unfolding shutdown
  shutdown_final f g steps = Steps-launched (shutdown f) g steps refl
