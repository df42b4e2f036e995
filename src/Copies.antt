-- ===== src/Copies.antt =====
-- The deep copies that deepcopy-gen generates for a type of resources and the type of its lists, in
-- a memory of objects, lists and the arrays behind the lists' slices. The Greeter's
-- (greeter/pkg/apis/greeter/v1alpha1/zz_generated.deepcopy.go) and those of the sample resources
-- (sample-controller/pkg/apis/sample, in either version) differ in the names of the types only. The
-- metadata is a value here: its deep copies are the library's.
pub mod Isolated
mod Tests
use Prim.Native.Nat.{ℕ}
use Prim.Native.String.{String}
use mathlib.Core.Path.{◌≡◌}
use mathlib.Core.Option.{Option, none, some}
use mathlib.Core.List.{List, [], ◌∷◌, ◌++◌}
use bad_pen.Base.{length}
use bad_pen.Base.Heap.{Memory, Pointer, fetch, write, allocate}
use bad_pen.Kube.{TypeMeta, ObjectMeta}

-- A list of resources, with its metadata and the slice of its items: nil, or an array's address.
pub record ListInMemory (M : Type 0) : Type 0 where
  pub type_meta : TypeMeta
  pub list_meta : M
  pub items : Pointer

-- What an address holds; `blank` is what `new` gives, before anything is written to it.
pub data Cell (R M : Type 0) : Type 0 where
  blank : Cell R M
  object : R → Cell R M
  listed : ListInMemory M → Cell R M
  array : List R → Cell R M

-- `DeepCopyInto` of the library's ObjectMeta and ListMeta; of the latter it is the resource version
-- that the program names.
pub record MetaCopies : Type 0 where
  pub copy_object_meta : ObjectMeta → ObjectMeta
  pub copy_list_meta : String → String

-- What is documented of them: a copy has the same fields.
pub record MetaCopiesLaws (c : MetaCopies) : Type 0 where
  pub object_meta_same : (m : ObjectMeta) → MetaCopies.copy_object_meta c m ≡ m
  pub list_meta_same : (m : String) → MetaCopies.copy_list_meta c m ≡ m

-- A value of type `runtime.Object`: nil, or a pointer with its type, and that pointer may be nil.
pub data Interface : Type 0 where
  nil_interface : Interface
  holding : Pointer → Interface

-- `if c := in.DeepCopy(); c != nil { return c }; return nil`
abbrev pub as_object : Pointer → Interface
as_object none = nil_interface
as_object (some a) = holding (some a)

-- The loop of a list's `DeepCopyInto`.
abbrev pub copy_each : {R : Type 0} → (R → R) → List R → List R
copy_each copy [] = []
copy_each copy (r ∷ rs) = copy r ∷ copy_each copy rs

module _ {R M : Type 0} (copy : R → R) where
  -- `DeepCopyInto` of a resource, from the first address into the second.
  copy_object : Option (Cell R M) → ℕ → Memory (Cell R M) → Memory (Cell R M)
  copy_object (some (object r)) out h = write out (object (copy r)) h
  copy_object other out h = h

  unfoldable pub deep_copy_into : ℕ → ℕ → Memory (Cell R M) → Memory (Cell R M)
  unfolding copy_object
  deep_copy_into a out h = copy_object (fetch a h) out h

  -- `DeepCopy` of a resource: what it is given is nil, or points to a resource.
  unfoldable pub deep_copy : Pointer → Memory (Cell R M) → Pointer × Memory (Cell R M)
  unfolding deep_copy_into
  deep_copy none h = (none, h)
  deep_copy (some a) h = let (out, h1) = allocate blank h in (some out, deep_copy_into a out h1)

  unfoldable pub deep_copy_object : Pointer → Memory (Cell R M) → Interface × Memory (Cell R M)
  unfolding deep_copy
  deep_copy_object p h = let (c, h') = deep_copy p h in (as_object c, h')

  copy_array : Option (Cell R M) → Memory (Cell R M) → Pointer × Memory (Cell R M)
  copy_array (some (array rs)) h =
      let (out, h') = allocate (array (copy_each copy rs)) h in (some out, h')
  copy_array other h = (none, h)

  -- `if in.Items != nil { ... }`: a nil slice stays nil.
  unfoldable pub copy_items : Pointer → Memory (Cell R M) → Pointer × Memory (Cell R M)
  unfolding copy_array
  copy_items none h = (none, h)
  copy_items (some a) h = copy_array (fetch a h) h

module _ {R M : Type 0} (copy : R → R) (copy_meta : M → M) where
  -- `*out = *in`, the list's metadata, and its items.
  copy_list : Option (Cell R M) → ℕ → Memory (Cell R M) → Memory (Cell R M)
  unfolding copy_items
  copy_list (some (listed l)) out h =
      let (items, h1) = copy_items copy l.items (write out (listed l) h) in
      write out (listed (record l { list_meta = copy_meta l.list_meta; items = items })) h1
  copy_list other out h = h

  unfoldable pub deep_copy_list_into : ℕ → ℕ → Memory (Cell R M) → Memory (Cell R M)
  unfolding copy_list
  deep_copy_list_into a out h = copy_list (fetch a h) out h

  -- `DeepCopy` of a list: what it is given is nil, or points to a list.
  unfoldable pub deep_copy_list : Pointer → Memory (Cell R M) → Pointer × Memory (Cell R M)
  unfolding deep_copy_list_into
  deep_copy_list none h = (none, h)
  deep_copy_list (some a) h =
      let (out, h1) = allocate blank h in (some out, deep_copy_list_into a out h1)

  unfoldable pub deep_copy_list_object : Pointer → Memory (Cell R M) → Interface × Memory (Cell R M)
  unfolding deep_copy_list
  deep_copy_list_object p h = let (c, h') = deep_copy_list p h in (as_object c, h')

-- `DeepCopyInto` of a struct with no pointers, which is `*out = *in`, and its `DeepCopy`.
abbrev pub Plain : Type 0 → Type 0
Plain S = Memory (Cell S Unit)

module _ {S : Type 0} where
  abbrev pub plain_copy_into : ℕ → ℕ → Plain S → Plain S
  plain_copy_into a out h = deep_copy_into (λ s. s) a out h

  abbrev pub plain_copy : Pointer → Plain S → Pointer × Plain S
  plain_copy p h = deep_copy (λ s. s) p h
