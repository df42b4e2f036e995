-- ===== src/Programs/Attempts.antt =====
-- A list of calls that are made one after the other until one fails: what a main function comes down
-- to that ends with a status (greeter/main.go and circle/cmd/main.go).
use Prim.Native.Nat.{ℕ, suc, ◌≤◌}
use mathlib.Core.Path.{◌≡◌, refl, ap, ◌∙◌, sym}
use mathlib.Core.Logic.{◌≢◌, ◌⊎◌, inl, inr}
use mathlib.Core.Option.{Option, none, some}
use mathlib.Core.List.{List, [], ◌∷◌, ◌++◌, append_assoc}
use native.Mathlib.Omega.{arith}
use bad_pen.Base.{length, take}
use bad_pen.Base.Exec.{Outcome, reply, panics, made, call, ◌>>=◌, ◌>>◌, pure, exit, bind_assoc}
use bad_pen.Base.Result.{Error}
use bad_pen.Programs.{Run, exit_on_error, must}

-- How the program ends with a call, if an error ends it.
abbrev pub ends : Outcome ℕ ⊥ → Option Error → Option (Outcome ℕ ⊥)
ends o none = none
ends o (some e) = some o

pub ends-fails : (o : Outcome ℕ ⊥) (r : Option Error) → o ≢ reply 0 → ends o r ≢ some (reply 0)
ends-fails o none other e = cc e
ends-fails o (some e) other same = other (cc same)

-- The first calls of a list are made, and no more; if the program ends well, all of them.
abbrev pub InOrder : {E : Type 0} → List E → List E → Outcome ℕ ⊥ × List E → Type 0
InOrder cs h r =
    (n : ℕ) × (n ≤ length cs) × (r.1 ≡ made (take n cs) h) × ((r.0 ≢ reply 0) ⊎ (n ≡ length cs))

module _ {E : Type 0} where
  abbrev pub attempted : Option (Outcome ℕ ⊥) → Run E ⊥ → Run E ⊥
  attempted none rest h = rest h
  attempted (some o) rest h = (o, h)

  pub attempted-same :
      (o : Option (Outcome ℕ ⊥)) (m n : Run E ⊥) (h : List E)
      → m h ≡ n h
      → attempted o m h ≡ attempted o n h
  attempted-same none m n h e = e
  attempted-same (some o) m n h e = refl

  pub exit_on_error-attempted :
      (r : Option Error) (k : Unit → Run E ⊥) (h : List E)
      → (exit_on_error r >>= k) h ≡ attempted (ends (reply 1) r) (k tt) h
  unfolding exit_on_error
  exit_on_error-attempted none k h = refl
  exit_on_error-attempted (some e) k h = refl

  pub must-attempted :
      (r : Option Error) (k : Unit → Run E ⊥) (h : List E)
      → (must r >>= k) h ≡ attempted (ends panics r) (k tt) h
  unfolding must
  must-attempted none k h = refl
  must-attempted (some e) k h = refl

module _ {E : Type 0} (ended_by : List E → E → Option (Outcome ℕ ⊥)) where
  abbrev pub attempt_each : List E → Run E ⊥
  attempt_each [] h = (reply 0, h)
  attempt_each (c ∷ cs) h = attempted (ended_by h c) (attempt_each cs) (c ∷ h)

  -- A part of the program that makes these calls, and then has that value.
  pub record Follows {A : Type 0} (m : Run E A) (cs : List E) (a : A) : Type 0 where
    pub and_then :
        (k : A → Run E ⊥) (ks : List E)
        → ((h : List E) → k a h ≡ attempt_each ks h)
        → (h : List E) → (m >>= k) h ≡ attempt_each (cs ++ ks) h

  pub step-Follows :
      (m : Run E (Unit {0})) (c : E)
      → ((k : Unit → Run E ⊥) (h : List E) → (m >>= k) h ≡ attempted (ended_by h c) (k tt) (c ∷ h))
      → Follows m (c ∷ []) tt
  step-Follows m c step = record {
    and_then = λ k ks rest h.
        step k h ∙ attempted-same (ended_by h c) (k tt) (attempt_each ks) (c ∷ h) (rest (c ∷ h));
  }

  -- A call that cannot fail.
  pub call-Follows :
      (c : E) → ((h : List E) → ended_by h c ≡ none) → Follows (call c (λ h. tt)) (c ∷ []) tt
  call-Follows c safe =
      step-Follows (call c (λ h. tt)) c (λ k h. ap (λ o. attempted o (k tt) (c ∷ h)) (sym (safe h)))

  pub pure-Follows : {A : Type 0} (a : A) → Follows (pure a) [] a
  pure-Follows a = record { and_then = λ k ks rest h. rest h }

  pub bind-Follows :
      {A B : Type 0} (m : Run E A) (n : A → Run E B) (cs ds : List E) (a : A) (b : B)
      → Follows m cs a
      → Follows (n a) ds b
      → Follows (m >>= n) (cs ++ ds) b
  bind-Follows m n cs ds a b first second = record {
    and_then = λ k ks rest h.
        bind_assoc m n k h
        ∙ first.and_then (λ x. n x >>= k) (ds ++ ks) (second.and_then k ks rest) h
        ∙ ap (λ l. attempt_each l h) (sym (append_assoc cs ds ks));
  }

  pub then-Follows :
      {A B : Type 0} {m : Run E A} {n : Run E B} {cs ds : List E} {a : A} {b : B}
      → Follows m cs a
      → Follows n ds b
      → Follows (m >> n) (cs ++ ds) b
  then-Follows {m = m} {n = n} {cs = cs} {ds = ds} {a = a} {b = b} first second =
      bind-Follows m (λ x. n) cs ds a b first second

  -- A whole program that attempts these calls.
  pub record Attempts (m : Run E ⊥) (cs : List E) : Type 0 where
    pub same : (h : List E) → m h ≡ attempt_each cs h

  pub bind-Attempts :
      {A : Type 0} {m : Run E A} (k : A → Run E ⊥) {cs ks : List E} {a : A}
      → Follows m cs a
      → Attempts (k a) ks
      → Attempts (m >>= k) (cs ++ ks)
  bind-Attempts k {ks = ks} first rest = record { same = first.and_then k ks rest.same }

  pub then-Attempts :
      {A : Type 0} {m : Run E A} {n : Run E ⊥} {cs ks : List E} {a : A}
      → Follows m cs a
      → Attempts n ks
      → Attempts (m >> n) (cs ++ ks)
  then-Attempts {n = n} {ks = ks} first rest = record {
    same = first.and_then (λ x. n) ks rest.same;
  }

  pub exit-Attempts : Attempts (exit 0) []
  exit-Attempts = record { same = λ h. refl }

  attempted-InOrder :
      (c : E) (cs h : List E) (o : Option (Outcome ℕ ⊥)) (rest : Run E ⊥)
      → o ≢ some (reply 0)
      → InOrder cs (c ∷ h) (rest (c ∷ h))
      → InOrder (c ∷ cs) h (attempted o rest (c ∷ h))
  attempted-InOrder c cs h none rest fails (n, le, e, end) =
      (suc n, omega arith, e, elim end [ inl ill ↦ inl ill | inr all ↦ inr (ap suc all) ])
  attempted-InOrder c cs h (some o) rest fails later =
      (1, omega arith, refl, inl (λ well. fails (ap some well)))

  pub attempt_each-InOrder :
      ((h : List E) (c : E) → ended_by h c ≢ some (reply 0))
      → (cs h : List E) → InOrder cs h (attempt_each cs h)
  attempt_each-InOrder fails [] h = (0, omega arith, refl, inr refl)
  attempt_each-InOrder fails (c ∷ cs) h =
      attempted-InOrder c cs h (ended_by h c) (attempt_each cs) (fails h c)
        (attempt_each-InOrder fails cs (c ∷ h))

  -- A run of a list of calls: it goes on after a call that does not end the program, and at the
  -- first call that does, it ends with what that call ends with, and no later call is made.
  pub data Runs : List E → List E → Outcome ℕ ⊥ × List E → Type 0 where
    done : (h : List E) → Runs [] h (reply 0, h)
    goes_on :
        (c : E) (cs h : List E) (r : Outcome ℕ ⊥ × List E)
        → ended_by h c ≡ none
        → Runs cs (c ∷ h) r
        → Runs (c ∷ cs) h r
    ends_at :
        (c : E) (cs h : List E) (o : Outcome ℕ ⊥)
        → ended_by h c ≡ some o
        → Runs (c ∷ cs) h (o, c ∷ h)

  attempted-Runs :
      (c : E) (cs h : List E) (o : Option (Outcome ℕ ⊥)) (rest : Run E ⊥)
      → ended_by h c ≡ o
      → Runs cs (c ∷ h) (rest (c ∷ h))
      → Runs (c ∷ cs) h (attempted o rest (c ∷ h))
  attempted-Runs c cs h none rest safe later = goes_on c cs h (rest (c ∷ h)) safe later
  attempted-Runs c cs h (some o) rest ended later = ends_at c cs h o ended

  pub attempt_each-Runs : (cs h : List E) → Runs cs h (attempt_each cs h)
  attempt_each-Runs [] h = done h
  attempt_each-Runs (c ∷ cs) h =
      attempted-Runs c cs h (ended_by h c) (attempt_each cs) refl (attempt_each-Runs cs (c ∷ h))
