-- ===== src/Base/Exec.antt =====
-- Handlers that talk to an environment. A handler is run after a history of calls, the latest
-- first. It appends its own calls, and ends with a value for the rest of the handler, with the
-- handler's reply (an early return), or with a panic.
use Prim.Native.Nat.{ℕ}
use mathlib.Core.Path.{◌≡◌, refl, ap, ◌∙◌}
use mathlib.Core.Logic.{◌≢◌}
use mathlib.Core.List.{List, [], ◌∷◌}

pub data Outcome (R A : Type 0) : Type 0 where
  value : A → Outcome R A
  reply : R → Outcome R A
  panics : Outcome R A

abbrev pub Exec : Type 0 → Type 0 → Type 0 → Type 0
Exec E R A = List E → Outcome R A × List E

module _ {E R A : Type 0} where
  abbrev pub pure : A → Exec E R A
  pure a h = (value a, h)

  -- An early return.
  abbrev pub exit : R → Exec E R A
  exit r h = (reply r, h)

  abbrev pub panic : Exec E R A
  panic h = (panics, h)

  -- Make a call; the environment answers by what was called before.
  abbrev pub call : E → (List E → A) → Exec E R A
  call e answer h = (value (answer h), e ∷ h)

module _ {E R A B : Type 0} where
  abbrev pub continue : Outcome R A → (A → Exec E R B) → Exec E R B
  continue (value a) k h = k a h
  continue (reply r) k h = (reply r, h)
  continue panics k h = (panics, h)

  infixl 5 ◌>>=◌ ◌>>◌
  abbrev pub ◌>>=◌ : Exec E R A → (A → Exec E R B) → Exec E R B
  ◌>>=◌ m k h = let (o, h') = m h in continue o k h'

  abbrev pub ◌>>◌ : Exec E R A → Exec E R B → Exec E R B
  m >> n = m >>= λ _. n

-- Calls put on a history in the order in which they are made.
abbrev pub made {ℓ} : {A : Type ℓ} → List A → List A → List A
made [] h = h
made (c ∷ cs) h = made cs (c ∷ h)

-- Whatever a handler does after a history that satisfies `P`, the new history satisfies `P`.
abbrev pub Keeps {ℓ} : {E R A : Type 0} → (List E → Type ℓ) → Exec E R A → Type ℓ
Keeps P m = (h : _) → P h → P (m h).1

module _ {ℓ} {E R A B : Type 0} (P : List E → Type ℓ) where
  keeps_continue :
      (o : Outcome R A) (k : A → Exec E R B) (h : List E)
      → ((a : A) → Keeps P (k a))
      → P h
      → P (continue o k h).1
  keeps_continue (value a) k h keep p = keep a h p
  keeps_continue (reply r) k h keep p = p
  keeps_continue panics k h keep p = p

  pub Keeps-bind :
      (m : Exec E R A) (k : A → Exec E R B)
      → Keeps P m
      → ((a : A) → Keeps P (k a))
      → Keeps P (m >>= k)
  Keeps-bind m k km kk h p = keeps_continue (m h).0 k (m h).1 kk (km h p)

-- If the calls of the second part of a handler are what changes a measure of the history, then the
-- first part ended with a value.
module _ {E R A B : Type 0} (measure : List E → ℕ) where
  reached :
      (o : Outcome R A) (k : A → Exec E R B) (h : List E) {n : ℕ}
      → measure h ≡ n
      → measure (continue o k h).1 ≢ n
      → (a : A) × (o ≡ value a) × (measure (k a h).1 ≢ measure h)
  reached (value a) k h same changed = (a, refl, λ e. changed (e ∙ same))
  reached (reply r) k h same changed = absurd (changed same)
  reached panics k h same changed = absurd (changed same)

  pub bind_reached :
      (m : Exec E R A) (k : A → Exec E R B) (h : List E)
      → measure (m h).1 ≡ measure h
      → measure ((m >>= k) h).1 ≢ measure h
      → (a : A) × ((m h).0 ≡ value a)
        × (((m >>= k) h) ≡ k a (m h).1)
        × (measure (k a (m h).1).1 ≢ measure (m h).1)
  bind_reached m k h same changed =
      let (a, e, c) = reached (m h).0 k (m h).1 same changed in
      (a, e, ap (λ o. continue o k (m h).1) e, c)

-- A handler in two parts that ends with a value has run its second part to a value.
module _ {E R A B : Type 0} where
  value_from :
      (o : Outcome R A) (k : A → Exec E R B) (h : List E) {b : B}
      → (continue o k h).0 ≡ value b
      → (a : A) × (o ≡ value a) × ((k a h).0 ≡ value b)
  value_from (value a) k h e = (a, refl, e)
  value_from (reply r) k h e = cc e
  value_from panics k h e = cc e

  pub bind_value :
      (m : Exec E R A) (k : A → Exec E R B) (h : List E) {b : B}
      → ((m >>= k) h).0 ≡ value b
      → (a : A) × ((m h).0 ≡ value a) × ((k a (m h).1).0 ≡ value b)
  bind_value m k h e = value_from (m h).0 k (m h).1 e

abbrev pub Returns : {E R A : Type 0} → Exec E R A → Type 0
Returns m = (h : _) → (m h).0 ≢ panics

module _ {E R A B : Type 0} where
  Returns-continue :
      (o : Outcome R A) (k : A → Exec E R B) (h : List E)
      → o ≢ panics
      → ((a : A) → Returns (k a))
      → (continue o k h).0 ≢ panics
  Returns-continue (value a) k h here later = later a h
  Returns-continue (reply r) k h here later = λ e. cc e
  Returns-continue panics k h here later = absurd (here refl)

  pub Returns-bind :
      (m : Exec E R A) (k : A → Exec E R B)
      → Returns m
      → ((a : A) → Returns (k a))
      → Returns (m >>= k)
  Returns-bind m k here later h = Returns-continue (m h).0 k (m h).1 (here h) later

module _ {E R A B C : Type 0} where
  continue_assoc :
      (o : Outcome R A) (n : A → Exec E R B) (k : B → Exec E R C) (h : List E)
      → continue (continue o n h).0 k (continue o n h).1 ≡ continue o (λ a. n a >>= k) h
  continue_assoc (value a) n k h = refl
  continue_assoc (reply r) n k h = refl
  continue_assoc panics n k h = refl

  pub bind_assoc :
      (m : Exec E R A) (n : A → Exec E R B) (k : B → Exec E R C) (h : List E)
      → ((m >>= n) >>= k) h ≡ (m >>= λ a. n a >>= k) h
  bind_assoc m n k h = continue_assoc (m h).0 n k (m h).1

-- A final early return makes no call.
exit_history :
    {E R A : Type 0} (B : Type 0) (r : R) (o : Outcome R A) (h : List E)
    → (continue {B = B} o (λ _. exit r) h).1 ≡ h
exit_history B r (value a) h = refl
exit_history B r (reply s) h = refl
exit_history B r panics h = refl

pub then_exit :
    {E R A : Type 0} (B : Type 0) (r : R) (m : Exec E R A) (h : List E)
    → (◌>>◌ {B = B} m (exit r) h).1 ≡ (m h).1
then_exit B r m h = exit_history B r (m h).0 (m h).1

-- A function whose every path ends in a return, called by another handler: its reply is a value
-- there, and its panic goes on.
abbrev pub settle : {R S : Type 0} → Outcome R ⊥ → Outcome S R
settle (value a) = absurd a
settle (reply r) = value r
settle panics = panics

abbrev pub attempt : {E R S : Type 0} → Exec E R ⊥ → Exec E S R
attempt m h = let (o, h') = m h in (settle o, h')

-- `defer f()`: the call is made after the rest of the function, also after a panic.
abbrev pub deferred : {E R A : Type 0} → E → Exec E R A → Exec E R A
deferred e m h = let (o, h') = m h in (o, e ∷ h')
