-- ===== src/Whoami/Race.antt =====
-- The health count of http-whoami (kubernetes/k8s-practise/pod/http-whoami/main.go) under requests
-- that are handled at the same time: net/http runs the handler in a goroutine for each request, and
-- the handler reads and writes the count `healthy` without a lock. A handler takes its steps one at
-- a time, and those of different handlers come in any order.
pub mod Served
pub mod Lost
use Prim.Native.Nat.{ℕ, zero, suc}
use mathlib.Core.Path.{◌≡◌}
use mathlib.Core.Logic.{◌≢◌}
use mathlib.Core.Bool.{true, false}
use mathlib.Core.List.{List, [], ◌∷◌}
use bad_pen.Base.Int.{ℤ, pos, negsuc, ltb_ℤ}

-- `healthy--`
unfoldable pub decremented : ℤ → ℤ
decremented (pos zero) = negsuc 0
decremented (pos (suc n)) = pos n
decremented (negsuc n) = negsuc (suc n)

-- How far a handler is: before the first test, after it was true, with the value that `healthy--`
-- has read, after the first test was false, and going on to answer or refusing.
pub data Pc : Type 0 where
  begun tested : Pc
  holding : ℤ → Pc
  rejected answers refuses : Pc

-- A step of one handler, with the count before and after.
pub data Move : ℤ → Pc → ℤ → Pc → Type 0 where
  if_positive : {c : ℤ} → ltb_ℤ (pos 0) c ≡ true → Move c begun c tested
  if_not_positive : {c : ℤ} → ltb_ℤ (pos 0) c ≡ false → Move c begun c rejected
  read : {c : ℤ} → Move c tested c (holding c)
  write : {c v : ℤ} → Move c (holding v) (decremented v) answers
  if_zero : {c : ℤ} → c ≡ pos 0 → Move c rejected c refuses
  if_not_zero : {c : ℤ} → c ≢ pos 0 → Move c rejected c answers

-- A step of one of the handlers.
pub data Step : ℤ → List Pc → ℤ → List Pc → Type 0 where
  first : {c c' : ℤ} {p p' : Pc} (ps : List Pc) → Move c p c' p' → Step c (p ∷ ps) c' (p' ∷ ps)
  later : {c c' : ℤ} {ps ps' : List Pc} (p : Pc) → Step c ps c' ps' → Step c (p ∷ ps) c' (p ∷ ps')

pub data Steps (c : ℤ) (ps : List Pc) : ℤ → List Pc → Type 0 where
  start : Steps c ps c ps
  next :
      {c' c'' : ℤ} {ps' ps'' : List Pc}
      → Steps c ps c' ps'
      → Step c' ps' c'' ps''
      → Steps c ps c'' ps''

-- The handlers of that many requests, before their first step, or when all of them answer.
abbrev pub all_at : Pc → ℕ → List Pc
all_at p zero = []
all_at p (suc k) = p ∷ all_at p k
