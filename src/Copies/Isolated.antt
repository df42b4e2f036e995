-- ===== src/Copies/Isolated.antt =====
-- A deep copy of a resource or of a list says the same and shares nothing.
use Prim.Native.Nat.{ℕ, ◌≤◌}
use mathlib.Core.Path.{◌≡◌, refl, ap, sym, subst, ◌∙◌}
use mathlib.Core.Logic.{◌≢◌, ◌⊎◌, inl, inr}
use mathlib.Core.Option.{Option, none, some, some-injective}
use mathlib.Core.List.{List, [], ◌∷◌, ◌++◌, append_assoc, append-nil}
use native.Mathlib.Omega.{arith}
use bad_pen.Base.{length}
use bad_pen.Base.Heap.{
  Memory, Pointer, fetch, read, write, IsValid, IsFresh, Grows, length-append, fetch-lt,
  fetch-append, fetch-last, fetch-second, write-append, read-write,
}
use bad_pen.Kube.{TypeMeta}
use bad_pen.Copies.{
  ListInMemory, Cell, blank, object, listed, array, nil_interface, holding, as_object,
  deep_copy_into, deep_copy, deep_copy_object, copy_each, copy_items, deep_copy_list_into,
  deep_copy_list, deep_copy_list_object, copy_object, copy_array, copy_list,
}

module _ {R M : Type 0} where
  abbrev pub items_at : Option (Cell R M) → Option (List R)
  items_at (some (array rs)) = some rs
  items_at other = none

  -- What a program sees of a list: its metadata, and its items, or that they are nil.
  abbrev pub list_at :
      Memory (Cell R M) → Option (Cell R M) → Option (TypeMeta × M × Option (List R))
  list_at h (some (listed l)) = some (l.type_meta, l.list_meta, items_at (read h l.items))
  list_at h other = none

  abbrev pub seen : Memory (Cell R M) → Pointer → Option (TypeMeta × M × Option (List R))
  seen h p = list_at h (read h p)

  -- An address that a list's pointer leads to: that of the list, or of the array of its items.
  abbrev pub Reaches : Memory (Cell R M) → Pointer → ℕ → Type 0
  Reaches h p b =
      (p ≡ some b) ⊎ ((l : ListInMemory M) × (read h p ≡ some (listed l)) × (l.items ≡ some b))

  -- A slice that is nil, or has an array behind it.
  pub data IsSlice (h : Memory (Cell R M)) : Pointer → Type 0 where
    nil_slice : IsSlice h none
    slice : (a : ℕ) (rs : List R) → fetch a h ≡ some (array rs) → IsSlice h (some a)

module _ {R M : Type 0} (copy : R → R) (copy_meta : M → M) (copies : (r : R) → copy r ≡ r)
    (copies_meta : (m : M) → copy_meta m ≡ m) (h : Memory (Cell R M)) where
  copy_each-same : (rs : List R) → copy_each copy rs ≡ rs
  copy_each-same [] = refl
  copy_each-same (r ∷ rs) = rw (copies r, copy_each-same rs) refl

  -- The cell that a list is copied to, and its items.
  abbrev copy_of : ListInMemory M → Pointer → ListInMemory M
  copy_of l items = record l { list_meta = copy_meta l.list_meta; items = items }

  abbrev behind : Cell R M → Memory (Cell R M)
  behind c = h ++ c ∷ []

  list_shape :
      (a : ℕ) (l : ListInMemory M) (items : Pointer) (cells : Memory (Cell R M))
      → fetch a h ≡ some (listed l)
      → copy_items copy l.items (behind (listed l)) ≡ (items, behind (listed l) ++ cells)
      → deep_copy_list copy copy_meta (some a) h
        ≡ (some (length h), h ++ listed (copy_of l items) ∷ cells)
  unfolding deep_copy_list deep_copy_list_into copy_list
  list_shape a l items cells at copied =
      rw
        (
          fetch-append a h (blank ∷ []) (fetch-lt a h (listed l) at) ∙ at,
          write-append (listed l) blank h [],
          copied,
          append_assoc h (listed l ∷ []) cells,
          write-append (listed (copy_of l items)) (listed l) h cells,
        )
        refl

  IsSlice-IsValid : (p : Pointer) → IsSlice h p → IsValid h p
  IsSlice-IsValid _ nil_slice = tt
  IsSlice-IsValid _ (slice b rs at) = fetch-lt b h (array rs) at

  -- What becomes of a slice, once the cell of its list is there: whatever that cell is in the end,
  -- the copied slice has the same items, and no array that was there before.
  record SliceCopy (p : Pointer) (c : Cell R M) : Type 0 where
    pub copied : Pointer
    pub cells : Memory (Cell R M)
    pub made : copy_items copy p (behind c) ≡ (copied, behind c ++ cells)
    pub same : (d : Cell R M) → items_at (read (h ++ d ∷ cells) copied) ≡ items_at (read h p)
    pub fresh : IsFresh (length h) copied

  slice_copy : (p : Pointer) (c : Cell R M) → IsSlice h p → SliceCopy p c
  unfolding copy_items copy_array
  slice_copy _ c nil_slice = record {
    copied = none;
    cells = [];
    made = rw (append-nil (behind c)) refl;
    same = λ d. refl;
    fresh = tt;
  }
  slice_copy _ c (slice b rs at) =
      let new = array (copy_each copy rs) in
      record {
        copied = some (length (behind c));
        cells = new ∷ [];
        made = rw (fetch-append b h (c ∷ []) (fetch-lt b h (array rs) at) ∙ at) refl;
        same = λ d. rw (fetch-second d c new h [], at, copy_each-same rs) refl;
        fresh = omega (arith, length-append h (c ∷ []));
      }

  module _ (a : ℕ) (l : ListInMemory M) (at : fetch a h ≡ some (listed l))
      (valid : IsSlice h l.items) where
    abbrev sc : SliceCopy l.items (listed l)
    sc = slice_copy l.items (listed l) valid

    list_made :
        deep_copy_list copy copy_meta (some a) h
        ≡ (some (length h), h ++ listed (copy_of l sc.copied) ∷ sc.cells)
    list_made = list_shape a l sc.copied sc.cells at sc.made

    last :
        fetch (length h) (h ++ listed (copy_of l sc.copied) ∷ sc.cells)
        ≡ some (listed (copy_of l sc.copied))
    last = fetch-last (listed (copy_of l sc.copied)) h sc.cells

    -- A deep copy of a list is a new list that shows the same: the same items, or that they are nil.
    -- Its slice is nil or new.
    pub deep_copy_list_same :
        (copied : ListInMemory M) × ((deep_copy_list copy copy_meta (some a) h).0 ≡ some (length h))
        × (fetch (length h) (deep_copy_list copy copy_meta (some a) h).1 ≡ some (listed copied))
        × IsFresh (length h) copied.items
        × (seen (deep_copy_list copy copy_meta (some a) h).1 (some (length h)) ≡ seen h (some a))
    deep_copy_list_same = (
      copy_of l sc.copied,
      rw list_made refl,
      rw (list_made, last) refl,
      sc.fresh,
      rw (list_made, last, at, sc.same (listed (copy_of l sc.copied)), copies_meta l.list_meta)
          refl,
    )

    reached_new :
        (b : ℕ)
        → Reaches (h ++ listed (copy_of l sc.copied) ∷ sc.cells) (some (length h)) b
        → length h ≤ b
    reached_new b (inl own) = omega (arith, some-injective (length h) b own)
    reached_new b (inr (l', found, slice_at)) =
        let same : l' ≡ copy_of l sc.copied = cc (found, last) in
        subst (IsFresh (length h)) (sym (ap (λ x. x.items) same) ∙ slice_at) sc.fresh

    write_new :
        (b : ℕ) (value : Cell R M)
        → length h ≤ b
        → seen (write b value (h ++ listed (copy_of l sc.copied) ∷ sc.cells)) (some a)
          ≡ seen h (some a)
    write_new b value new =
        let cells = listed (copy_of l sc.copied) ∷ sc.cells in
        let grown : Grows h (h ++ cells) = (cells, refl) in
        rw
          (
            read-write (some a) h (h ++ cells) b value grown (fetch-lt a h (listed l) at) new,
            at,
            read-write l.items h (h ++ cells) b value grown (IsSlice-IsValid l.items valid) new,
          )
          refl

    -- Writing through a deep copy of a list, to the copied list itself or to the array of its items,
    -- changes neither the list nor what its slice holds.
    pub deep_copy_list_isolated :
        (b : ℕ) (value : Cell R M)
        → Reaches
            (deep_copy_list copy copy_meta (some a) h).1
            (deep_copy_list copy copy_meta (some a) h).0
            b
        → seen (write b value (deep_copy_list copy copy_meta (some a) h).1) (some a)
          ≡ seen h (some a)
    deep_copy_list_isolated b value reached =
        ap (λ r. seen (write b value r.1) (some a)) list_made
        ∙ write_new b value (reached_new b (subst (λ r. Reaches r.1 r.0 b) list_made reached))

  -- A deep copy of a resource is a new resource that says the same, and nothing else is written.
  pub deep_copy_resource :
      (a : ℕ) (r : R)
      → fetch a h ≡ some (object r)
      → deep_copy copy (some a) h ≡ (some (length h), h ++ object r ∷ [])
  unfolding deep_copy deep_copy_into copy_object
  deep_copy_resource a r at =
      rw
        (
          fetch-append a h (blank ∷ []) (fetch-lt a h (object r) at) ∙ at,
          copies r,
          write-append (object r) blank h [],
        )
        refl

module _ {R M : Type 0} (copy : R → R) (copy_meta : M → M) (h : Memory (Cell R M)) where
  as_object-holding : (p : Pointer) → as_object p ≢ holding none
  as_object-holding none = λ e. cc e
  as_object-holding (some a) = λ e. cc e

  -- `DeepCopyObject` of a resource or a list gives nil for nil, and never an interface that is not
  -- nil but holds a nil pointer.
  pub deep_copy_object-holding :
      (p : Pointer)
      → ((deep_copy_object copy p h).0 ≢ holding none)
        × ((deep_copy_list_object copy copy_meta p h).0 ≢ holding none)
        × ((deep_copy_object copy none h).0 ≡ nil_interface)
        × ((deep_copy_list_object copy copy_meta none h).0 ≡ nil_interface)
  unfolding deep_copy_object deep_copy_list_object deep_copy deep_copy_list
  deep_copy_object-holding p = (
    as_object-holding (deep_copy copy p h).0,
    as_object-holding (deep_copy_list copy copy_meta p h).0,
    refl,
    refl,
  )
