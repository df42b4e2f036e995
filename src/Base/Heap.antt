-- ===== src/Base/Heap.antt =====
-- A memory whose cells are addressed by number, for code that copies what its pointers point to.
use Prim.Native.Nat.{ℕ, zero, suc, ◌+◌, ◌<◌, ◌≤◌}
use mathlib.Core.Path.{◌≡◌, refl, ap, ◌∙◌}
use mathlib.Core.Option.{Option, none, some}
use mathlib.Core.List.{List, [], ◌∷◌, ◌++◌, append_assoc, map}
use native.Mathlib.Omega.{arith}
use bad_pen.Base.Lists.{length, All}

abbrev pub Memory : Type 0 → Type 0
Memory Cell = List Cell

-- Nil, or an address.
abbrev pub Pointer : Type 0
Pointer = Option ℕ

-- Nil, or an address from `n` on.
abbrev pub IsFresh : ℕ → Pointer → Type 0
IsFresh n none = Unit
IsFresh n (some a) = n ≤ a

pub IsFresh-le : (n m : ℕ) (ps : List Pointer) → n ≤ m → All (IsFresh m) ps → All (IsFresh n) ps
IsFresh-le n m [] le f = tt
IsFresh-le n m (none ∷ ps) le f = (tt, IsFresh-le n m ps le f.1)
IsFresh-le n m (some a ∷ ps) le f = (omega (arith, f.0), IsFresh-le n m ps le f.1)

module _ {Cell : Type 0} where
  abbrev pub fetch : ℕ → Memory Cell → Option Cell
  fetch a [] = none
  fetch zero (c ∷ h) = some c
  fetch (suc a) (c ∷ h) = fetch a h

  abbrev pub read : Memory Cell → Pointer → Option Cell
  read h none = none
  read h (some a) = fetch a h

  -- `*p = value`
  abbrev pub write : ℕ → Cell → Memory Cell → Memory Cell
  write a value [] = []
  write zero value (c ∷ h) = value ∷ h
  write (suc a) value (c ∷ h) = c ∷ write a value h

  -- Nil, or an address in the heap.
  abbrev pub IsValid : Memory Cell → Pointer → Type 0
  IsValid h none = Unit
  IsValid h (some a) = a < length h

  abbrev pub Grows : Memory Cell → Memory Cell → Type 0
  Grows h h' = (cells : Memory Cell) × (h' ≡ h ++ cells)

  pub Grows-trans : (h h1 h2 : Memory Cell) → Grows h h1 → Grows h1 h2 → Grows h h2
  Grows-trans h h1 h2 (xs, e) (ys, d) = (xs ++ ys, d ∙ ap (λ k. k ++ ys) e ∙ append_assoc h xs ys)

  pub length-append : (h cells : Memory Cell) → length (h ++ cells) ≡ length h + length cells
  length-append [] cells = omega arith
  length-append (c ∷ h) cells = omega (arith, length-append h cells)

  pub fetch-append :
      (a : ℕ) (h cells : Memory Cell) → a < length h → fetch a (h ++ cells) ≡ fetch a h
  fetch-append a [] cells lt = absurd (omega arith)
  fetch-append zero (c ∷ h) cells lt = refl
  fetch-append (suc a) (c ∷ h) cells lt = fetch-append a h cells (omega arith)

  pub fetch-new : (h : Memory Cell) (c : Cell) → fetch (length h) (h ++ c ∷ []) ≡ some c
  fetch-new [] c = refl
  fetch-new (d ∷ h) c = fetch-new h c

  pub fetch_valid : (a : ℕ) (h : Memory Cell) → a < length h → (c : Cell) × (fetch a h ≡ some c)
  fetch_valid a [] lt = absurd (omega arith)
  fetch_valid zero (c ∷ h) lt = (c, refl)
  fetch_valid (suc a) (c ∷ h) lt = fetch_valid a h (omega arith)

  pub read-Grows :
      (p : Pointer) (h h' : Memory Cell) → Grows h h' → IsValid h p → read h' p ≡ read h p
  read-Grows none h h' g v = refl
  read-Grows (some a) h h' (cells, e) v = ap (fetch a) e ∙ fetch-append a h cells v

  pub IsValid-Grows : (p : Pointer) (h h' : Memory Cell) → Grows h h' → IsValid h p → IsValid h' p
  IsValid-Grows none h h' g v = tt
  IsValid-Grows (some a) h h' (cells, e) v = omega (arith, ap length e, length-append h cells)

  pub All-IsValid-Grows :
      (ps : List Pointer) (h h' : Memory Cell)
      → Grows h h'
      → All (IsValid h) ps
      → All (IsValid h') ps
  All-IsValid-Grows [] h h' g v = tt
  All-IsValid-Grows (p ∷ ps) h h' g (v, vs) =
      (IsValid-Grows p h h' g v, All-IsValid-Grows ps h h' g vs)

  pub map-read-Grows :
      (ps : List Pointer) (h h' : Memory Cell)
      → Grows h h'
      → All (IsValid h) ps
      → map (read h') ps ≡ map (read h) ps
  map-read-Grows [] h h' g v = refl
  map-read-Grows (p ∷ ps) h h' g (v, vs) =
      rw (read-Grows p h h' g v, map-read-Grows ps h h' g vs) refl

  pub fetch-write :
      (a b : ℕ) (value : Cell) (h : Memory Cell) → a < b → fetch a (write b value h) ≡ fetch a h
  fetch-write a b value [] lt = refl
  fetch-write a zero value (c ∷ h) lt = absurd (omega arith)
  fetch-write zero (suc b) value (c ∷ h) lt = refl
  fetch-write (suc a) (suc b) value (c ∷ h) lt = fetch-write a b value h (omega arith)

  -- A cell that lies behind a memory is not one that its valid pointers point to.
  pub read-write :
      (p : Pointer) (h h' : Memory Cell) (a : ℕ) (value : Cell)
      → Grows h h'
      → IsValid h p
      → length h ≤ a
      → read (write a value h') p ≡ read h p
  read-write none h h' a value g v le = refl
  read-write (some b) h h' a value g v le =
      fetch-write b a value h' (omega arith) ∙ read-Grows (some b) h h' g v

  pub map-read-write :
      (ps : List Pointer) (h h' : Memory Cell) (a : ℕ) (value : Cell)
      → Grows h h'
      → All (IsValid h) ps
      → length h ≤ a
      → map (read (write a value h')) ps ≡ map (read h) ps
  map-read-write [] h h' a value g v le = refl
  map-read-write (p ∷ ps) h h' a value g (v, vs) le =
      rw (read-write p h h' a value g v le, map-read-write ps h h' a value g vs le) refl

  -- `new`: one more cell, at the end.
  abbrev pub allocate : Cell → Memory Cell → ℕ × Memory Cell
  allocate c h = (length h, h ++ c ∷ [])

  -- What is written to a cell behind a memory leaves the memory as it is.
  pub write-append :
      (value c : Cell) (h cells : Memory Cell)
      → write (length h) value (h ++ c ∷ cells) ≡ h ++ value ∷ cells
  write-append value c [] cells = refl
  write-append value c (d ∷ h) cells = ap (◌∷◌ d) (write-append value c h cells)

  pub fetch-last : (c : Cell) (h cells : Memory Cell) → fetch (length h) (h ++ c ∷ cells) ≡ some c
  fetch-last c [] cells = refl
  fetch-last c (d ∷ h) cells = fetch-last c h cells

  pub fetch-second :
      (c d e : Cell) (h cells : Memory Cell)
      → fetch (length (h ++ d ∷ [])) (h ++ c ∷ e ∷ cells) ≡ some e
  fetch-second c d e [] cells = refl
  fetch-second c d e (x ∷ h) cells = fetch-second c d e h cells

  pub fetch-lt : (a : ℕ) (h : Memory Cell) (c : Cell) → fetch a h ≡ some c → a < length h
  fetch-lt a [] c e = cc e
  fetch-lt zero (d ∷ h) c e = omega arith
  fetch-lt (suc a) (d ∷ h) c e = omega (arith, fetch-lt a h c e)
