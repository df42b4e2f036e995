-- ===== src/Copies/Tests.antt =====
-- The theorems on deep copies, for a list of two names in memory.
use Prim.Native.String.{String}
use mathlib.Core.Path.{◌≡◌, refl}
use mathlib.Core.Logic.{inr}
use mathlib.Core.Option.{none, some}
use mathlib.Core.List.{[], ◌∷◌}
use bad_pen.Base.Heap.{Memory, fetch, write, IsFresh}
use bad_pen.Copies.{
  ListInMemory, Cell, listed, array, deep_copy_list, deep_copy_list_into, copy_list, copy_items,
  copy_array,
}
use bad_pen.Copies.Isolated.{seen, slice, deep_copy_list_same, deep_copy_list_isolated}

abbrev names : ListInMemory String
names = record {
  type_meta = record { kind = "NameList"; api_version = "v1" };
  list_meta = "7";
  items = some 1;
}

abbrev memory : Memory (Cell String String)
memory = listed names ∷ array ("a" ∷ "b" ∷ []) ∷ []

-- The copy of the list and that of its items lie behind the two cells that were there.
runs : deep_copy_list (λ s. s) (λ s. s) (some 0) memory ≡ (
  some 2,
  listed names
      ∷ array ("a" ∷ "b" ∷ [])
      ∷ listed (record names { items = some 3 })
      ∷ array ("a" ∷ "b" ∷ [])
      ∷ [],
)
unfolding deep_copy_list deep_copy_list_into copy_list copy_items copy_array
runs = refl

-- A nil slice stays nil.
nil_stays_nil :
    deep_copy_list {R = String}
      (λ s. s)
      (λ s. s)
      (some 0)
      (listed (record names { items = none }) ∷ [])
    ≡ (some 1, listed (record names { items = none }) ∷ listed (record names { items = none }) ∷ [])
unfolding deep_copy_list deep_copy_list_into copy_list copy_items
nil_stays_nil = refl

deep_copy_list_same_example :
    (copied : ListInMemory String) × ((deep_copy_list (λ s. s) (λ s. s) (some 0) memory).0 ≡ some 2)
    × (fetch 2 (deep_copy_list (λ s. s) (λ s. s) (some 0) memory).1 ≡ some (listed copied))
    × IsFresh 2 copied.items
    × (seen (deep_copy_list (λ s. s) (λ s. s) (some 0) memory).1 (some 2) ≡ seen memory (some 0))
deep_copy_list_same_example =
    deep_copy_list_same (λ s. s) (λ s. s) (λ r. refl) (λ m. refl) memory 0 names refl
      (slice 1 ("a" ∷ "b" ∷ []) refl)

-- The array of the copied items is written to.
deep_copy_list_isolated_example :
    seen (write 3 (array []) (deep_copy_list (λ s. s) (λ s. s) (some 0) memory).1) (some 0)
    ≡ seen memory (some 0)
unfolding deep_copy_list deep_copy_list_into copy_list copy_items copy_array
deep_copy_list_isolated_example =
    deep_copy_list_isolated (λ s. s) (λ s. s) (λ r. refl) (λ m. refl) memory 0 names refl
      (slice 1 ("a" ∷ "b" ∷ []) refl) 3 (array [])
      (inr (record names { items = some 3 }, refl, refl))
