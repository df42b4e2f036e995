-- ===== src/Sample/Copies.antt =====
-- The deep copies of the resources and of their lists (sample-controller/pkg/apis/sample:
-- zz_generated.deepcopy.go of each version).
use Prim.Native.Nat.{ℕ}
use Prim.Native.String.{String}
use mathlib.Core.Path.{◌≡◌, ap}
use bad_pen.Base.Heap
use bad_pen.Base.Heap.{Pointer}
use bad_pen.Copies
use bad_pen.Copies.{Cell, Interface, MetaCopies, MetaCopiesLaws}
use bad_pen.Sample.{Version, Scope, Resource}

-- A memory of resources of one type and lists of them.
abbrev pub Memory : Version → Scope → Type 0
Memory v s = Heap.Memory (Cell (Resource v s) String)

module _ {v : Version} {s : Scope} (c : MetaCopies) where
  -- What `DeepCopyInto` writes for a resource.
  abbrev pub copied : Resource v s → Resource v s
  copied r = record r { meta = c.copy_object_meta r.meta }

  pub copied-same : MetaCopiesLaws c → (r : Resource v s) → copied r ≡ r
  copied-same laws r = ap (λ m. record r { meta = m }) (laws.object_meta_same r.meta)

  abbrev pub resource_copy_into : ℕ → ℕ → Memory v s → Memory v s
  resource_copy_into a out h = Copies.deep_copy_into copied a out h

  abbrev pub resource_copy : Pointer → Memory v s → Pointer × Memory v s
  resource_copy p h = Copies.deep_copy copied p h

  abbrev pub resource_copy_object : Pointer → Memory v s → Interface × Memory v s
  resource_copy_object p h = Copies.deep_copy_object copied p h

  abbrev pub list_copy_into : ℕ → ℕ → Memory v s → Memory v s
  list_copy_into a out h = Copies.deep_copy_list_into copied c.copy_list_meta a out h

  abbrev pub list_copy : Pointer → Memory v s → Pointer × Memory v s
  list_copy p h = Copies.deep_copy_list copied c.copy_list_meta p h

  abbrev pub list_copy_object : Pointer → Memory v s → Interface × Memory v s
  list_copy_object p h = Copies.deep_copy_list_object copied c.copy_list_meta p h
