-- ===== src/CronJob/DeepCopy/Cells.antt =====
-- The cells that a CronJob points to, and copies of what a pointer points to.
use Prim.Native.Nat.{ℕ}
use mathlib.Core.Path.{◌≡◌, refl, sym, ◌∙◌, ap, subst}
use mathlib.Core.Bool.{Bool}
use mathlib.Core.Option.{Option, none, some}
use mathlib.Core.List.{List, [], ◌∷◌, ◌++◌, append-nil, map}
use native.Mathlib.Omega.{arith}
use bad_pen.Base.{length, All}
use bad_pen.Base.Int.{ℤ}
use bad_pen.Base.Heap.{
  Memory, Pointer, fetch, read, IsValid, IsFresh, Grows, Grows-trans, length-append, fetch-new,
  fetch_valid, read-Grows, All-IsValid-Grows, IsFresh-le, map-read-Grows,
}
use bad_pen.Time.{Instant}
use bad_pen.CronJob.{ObjectReference}

pub data Cell : Type 0 where
  int_cell : ℤ → Cell
  bool_cell : Bool → Cell
  references_cell : List ObjectReference → Cell
  time_cell : Instant → Cell

abbrev pub Heap : Type 0
Heap = Memory Cell

-- A new cell with the content of an old one. No address dangles, so that there is a content.
new_cell : Option Cell → ℕ → Heap → Pointer × Heap
new_cell none a h = (some a, h)
new_cell (some c) a h = (some (length h), h ++ c ∷ [])

-- `if in != nil { out = new(T); *out = *in }`
unfoldable pub copy_pointer : Pointer → Heap → Pointer × Heap
unfolding new_cell
copy_pointer none h = (none, h)
copy_pointer (some a) h = new_cell (fetch a h) a h

-- Pointers copied one after another.
abbrev pub copy_all : List Pointer → Heap → List Pointer × Heap
copy_all [] h = ([], h)
copy_all (p ∷ ps) h =
    let (q, h1) = copy_pointer p h in let (qs, h2) = copy_all ps h1 in (q ∷ qs, h2)

-- A pointer and its copy.
pub record IsCopy (p : Pointer) (h : Heap) (q : Pointer) (h' : Heap) : Type 0 where
  pub grows : Grows h h'
  pub same : read h' q ≡ read h p
  pub fresh : IsFresh (length h) q
  pub valid : IsValid h' q

new_cell-IsCopy :
    (a : ℕ) (h : Heap) (c : Cell)
    → fetch a h ≡ some c
    → IsCopy (some a) h (new_cell (some c) a h).0 (new_cell (some c) a h).1
unfolding new_cell
new_cell-IsCopy a h c e = record {
  grows = (c ∷ [], refl);
  same = fetch-new h c ∙ sym e;
  fresh = omega arith;
  valid = omega (arith, length-append h (c ∷ []));
}

copy_pointer-IsCopy :
    (p : Pointer) (h : Heap) → IsValid h p → IsCopy p h (copy_pointer p h).0 (copy_pointer p h).1
unfolding copy_pointer
copy_pointer-IsCopy none h v = record {
  grows = ([], sym (append-nil h));
  same = refl;
  fresh = tt;
  valid = tt;
}
copy_pointer-IsCopy (some a) h v =
    let (c, e) = fetch_valid a h v in
    subst (λ o. IsCopy (some a) h (new_cell o a h).0 (new_cell o a h).1) (sym e)
      (new_cell-IsCopy a h c e)

-- What `copy_all` has done.
pub record AreCopies (ps : List Pointer) (h : Heap) (qs : List Pointer) (h' : Heap) : Type 0 where
  pub grows : Grows h h'
  pub same : map (read h') qs ≡ map (read h) ps
  pub fresh : All (IsFresh (length h)) qs

pub copy_all-AreCopies :
    (ps : List Pointer) (h : Heap)
    → All (IsValid h) ps
    → AreCopies ps h (copy_all ps h).0 (copy_all ps h).1
copy_all-AreCopies [] h v = record { grows = ([], sym (append-nil h)); same = refl; fresh = tt }
copy_all-AreCopies (p ∷ ps) h (v, vs) =
    let (q, h1) = copy_pointer p h in
    let one = copy_pointer-IsCopy p h v in
    let rest = copy_all-AreCopies ps h1 (All-IsValid-Grows ps h h1 one.grows vs) in
    let h2 = (copy_all ps h1).1 in
    record {
      grows = Grows-trans h h1 h2 one.grows rest.grows;
      same =
          rw
            (
              read-Grows q h1 h2 rest.grows one.valid ∙ one.same,
              rest.same ∙ map-read-Grows ps h h1 one.grows vs,
            )
            refl;
      fresh = (
        one.fresh,
        IsFresh-le (length h) (length h1) _
            (omega (arith, ap length (one.grows).1, length-append h (one.grows).0)) rest.fresh,
      );
    }

pub copy_all-append :
    (ps qs : List Pointer) (h : Heap)
    → copy_all (ps ++ qs) h
      ≡ ((copy_all ps h).0 ++ (copy_all qs (copy_all ps h).1).0, (copy_all qs (copy_all ps h).1).1)
copy_all-append [] qs h = refl
copy_all-append (p ∷ ps) qs h = let (q, h1) = copy_pointer p h in rw (copy_all-append ps qs h1) refl
