-- ===== src/Whoami/Race/Served.antt =====
-- What the health count of http-whoami guarantees when requests are handled at the same time
-- (kubernetes/k8s-practise/pod/http-whoami/main.go).
use Prim.Native.Nat.{ℕ, zero, suc, ◌+◌, ◌≤◌}
use mathlib.Core.Path.{◌≡◌, refl}
use mathlib.Core.Bool.{false}
use mathlib.Core.List.{List, [], ◌∷◌}
use native.Mathlib.Omega.{arith}
use bad_pen.Base.{All, length}
use bad_pen.Base.Int.{ℤ, pos, negsuc, pos_part, neg_part, ltb_ℤ}
use bad_pen.Whoami.Race.{
  decremented, Pc, begun, tested, holding, rejected, answers, refuses, Move, if_positive,
  if_not_positive, read, write, if_zero, if_not_zero, Step, first, later, Steps, start, next,
  all_at,
}

abbrev counted : Pc → ℕ
counted begun = 0
counted tested = 0
counted (holding v) = 0
counted rejected = 0
counted answers = 1
counted refuses = 0

-- The handlers that go on to answer.
abbrev answering : List Pc → ℕ
answering [] = 0
answering (p ∷ ps) = counted p + answering ps

-- Of a count of `n`, no more than `a` were taken.
abbrev IsLeft : ℕ → ℕ → ℤ → Type 0
IsLeft n a c = n + neg_part c ≤ pos_part c + a

abbrev IsServed : ℕ → ℕ → Pc → Type 0
IsServed n a begun = Unit
IsServed n a tested = Unit
IsServed n a (holding v) = IsLeft n a v
IsServed n a rejected = ⊥
IsServed n a answers = Unit
IsServed n a refuses = ⊥

IsServed-mono : (n a b : ℕ) (p : Pc) → a ≤ b → IsServed n a p → IsServed n b p
IsServed-mono n a b begun h s = tt
IsServed-mono n a b tested h s = tt
IsServed-mono n a b (holding v) h s = omega arith
IsServed-mono n a b rejected h s = s
IsServed-mono n a b answers h s = tt
IsServed-mono n a b refuses h s = s

All-IsServed-mono :
    (n a b : ℕ) (ps : List Pc) → a ≤ b → All (IsServed n a) ps → All (IsServed n b) ps
All-IsServed-mono n a b [] h s = tt
All-IsServed-mono n a b (p ∷ ps) h s =
    (IsServed-mono n a b p h s.0, All-IsServed-mono n a b ps h s.1)

counted-le : (p : Pc) → counted p ≤ 1
counted-le begun = omega arith
counted-le tested = omega arith
counted-le (holding v) = omega arith
counted-le rejected = omega arith
counted-le answers = omega arith
counted-le refuses = omega arith

answering-le : (ps : List Pc) → answering ps ≤ length ps
answering-le [] = omega arith
answering-le (p ∷ ps) = omega (arith, counted-le p, answering-le ps)

IsLeft-decremented : (n a : ℕ) (v : ℤ) → IsLeft n a v → IsLeft n (suc a) (decremented v)
unfolding decremented
IsLeft-decremented n a (pos zero) h = omega arith
IsLeft-decremented n a (pos (suc k)) h = omega arith
IsLeft-decremented n a (negsuc k) h = omega arith

not_positive : (c : ℤ) → ltb_ℤ (pos 0) c ≡ false → pos_part c ≡ 0
not_positive c h = ground arith

-- The state of some handlers, when `b` others answer.
pub record IsFair (n b : ℕ) (c : ℤ) (ps : List Pc) : Type 0 where
  few : b + length ps ≤ n
  left : IsLeft n (b + answering ps) c
  served : All (IsServed n (b + answering ps)) ps

Move-counted : {c c' : ℤ} {p p' : Pc} → Move c p c' p' → counted p ≤ counted p'
Move-counted (if_positive h) = omega arith
Move-counted (if_not_positive h) = omega arith
Move-counted read = omega arith
Move-counted write = omega arith
Move-counted (if_zero h) = omega arith
Move-counted (if_not_zero h) = omega arith

Step-answering-le : {c c' : ℤ} {ps ps' : List Pc} → Step c ps c' ps' → answering ps ≤ answering ps'
Step-answering-le (first ps mv) = omega (arith, Move-counted mv)
Step-answering-le (later p st) = omega (arith, Step-answering-le st)

Step-length : {c c' : ℤ} {ps ps' : List Pc} → Step c ps c' ps' → length ps' ≡ length ps
Step-length (first ps mv) = refl
Step-length (later p st) = omega (arith, Step-length st)

Move-IsFair :
    (n b : ℕ) {c c' : ℤ} {p p' : Pc} (ps : List Pc)
    → Move c p c' p'
    → IsFair n b c (p ∷ ps)
    → IsFair n b c' (p' ∷ ps)
Move-IsFair n b ps (if_positive h) fair = record {
  few = fair.few;
  left = fair.left;
  served = (tt, fair.served.1);
}
Move-IsFair n b ps (if_not_positive {c} h) fair =
    absurd (omega (arith, not_positive c h, answering-le ps, fair.few, fair.left))
Move-IsFair n b ps (read {c}) fair = record {
  few = fair.few;
  left = fair.left;
  served = (fair.left, fair.served.1);
}
Move-IsFair n b ps (write {c} {v}) fair = record {
  few = fair.few;
  left = omega (arith, IsLeft-decremented n (b + answering ps) v (omega (arith, fair.served.0)));
  served = (tt, All-IsServed-mono n _ _ ps (omega arith) fair.served.1);
}
Move-IsFair n b ps (if_zero h) fair = absurd fair.served.0
Move-IsFair n b ps (if_not_zero h) fair = absurd fair.served.0

rest_of :
    (n b : ℕ) {c : ℤ} (p : Pc) (ps : List Pc)
    → IsFair n b c (p ∷ ps)
    → IsFair n (b + counted p) c ps
rest_of n b p ps fair = record {
  few = omega (arith, fair.few, counted-le p);
  left = omega (arith, fair.left);
  served = All-IsServed-mono n _ _ ps (omega arith) fair.served.1;
}

-- Another handler moves on: one more may answer, which only helps those that do not move.
Step-IsFair :
    (n b : ℕ) {c c' : ℤ} {ps ps' : List Pc} → Step c ps c' ps' → IsFair n b c ps → IsFair n b c' ps'
Step-IsFair n b (first ps mv) fair = Move-IsFair n b ps mv fair
Step-IsFair n b (later {ps} {ps'} p st) fair =
    let rest = Step-IsFair n (b + counted p) st (rest_of n b p ps fair) in
    record {
      few = omega (arith, fair.few, Step-length st);
      left = omega (arith, rest.left);
      served = (
        IsServed-mono n (b + answering (p ∷ ps)) (b + answering (p ∷ ps')) p
            (omega (arith, Step-answering-le st)) fair.served.0,
        All-IsServed-mono n _ _ ps' (omega arith) rest.served,
      );
    }

Steps-IsFair :
    (n : ℕ) {c : ℤ} {ps : List Pc} {c' : ℤ} {ps' : List Pc}
    → IsFair n 0 c ps
    → Steps c ps c' ps'
    → IsFair n 0 c' ps'
Steps-IsFair n fair start = fair
Steps-IsFair n fair (next steps st) = Step-IsFair n 0 st (Steps-IsFair n fair steps)

Steps-length :
    {c : ℤ} {ps : List Pc} {c' : ℤ} {ps' : List Pc} → Steps c ps c' ps' → length ps' ≡ length ps
Steps-length start = refl
Steps-length (next steps st) = omega (arith, Steps-length steps, Step-length st)

all_begun :
    (n k : ℕ)
    → (length (all_at begun k) ≡ k)
      × (answering (all_at begun k) ≡ 0)
      × All (IsServed n 0) (all_at begun k)
all_begun n zero = (refl, refl, tt)
all_begun n (suc k) = let (a, b, c) = all_begun n k in (omega (arith, a), omega (arith, b), (tt, c))

-- A handler has not found the count used up.
abbrev pub IsAccepted : Pc → Type 0
IsAccepted begun = Unit
IsAccepted tested = Unit
IsAccepted (holding v) = Unit
IsAccepted rejected = ⊥
IsAccepted answers = Unit
IsAccepted refuses = ⊥

IsServed-IsAccepted : (n a : ℕ) (p : Pc) → IsServed n a p → IsAccepted p
IsServed-IsAccepted n a begun s = tt
IsServed-IsAccepted n a tested s = tt
IsServed-IsAccepted n a (holding v) s = tt
IsServed-IsAccepted n a rejected s = s
IsServed-IsAccepted n a answers s = tt
IsServed-IsAccepted n a refuses s = s

All-IsAccepted : (n a : ℕ) (ps : List Pc) → All (IsServed n a) ps → All IsAccepted ps
All-IsAccepted n a [] s = tt
All-IsAccepted n a (p ∷ ps) s = (IsServed-IsAccepted n a p s.0, All-IsAccepted n a ps s.1)

-- With a health count of `n` none of `n` or fewer requests is refused, in whatever order their
-- handlers take their steps, and no more is taken from the count than there are requests.
pub Steps-IsAccepted :
    (n k : ℕ) {c : ℤ} {ps : List Pc}
    → k ≤ n
    → Steps (pos n) (all_at begun k) c ps
    → All IsAccepted ps × (n + neg_part c ≤ pos_part c + k)
Steps-IsAccepted n k {c} {ps} few steps =
    let (long, none_yet, served) = all_begun n k in
    let fair = Steps-IsFair n (begun_fair long none_yet served) steps in
    (
      All-IsAccepted n (0 + answering ps) ps fair.served,
      omega (arith, fair.left, answering-le ps, Steps-length steps, long),
    )
  where
    begun_fair :
        length (all_at begun k) ≡ k
        → answering (all_at begun k) ≡ 0
        → All (IsServed n 0) (all_at begun k)
        → IsFair n 0 (pos n) (all_at begun k)
    begun_fair long none_yet served = record {
      few = omega arith;
      left = omega arith;
      served = All-IsServed-mono n 0 _ (all_at begun k) (omega arith) served;
    }
