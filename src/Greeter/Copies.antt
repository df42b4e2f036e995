-- ===== src/Greeter/Copies.antt =====
-- The deep copies of Greeters in memory, of their lists and of their parts
-- (greeter/pkg/apis/greeter/v1alpha1/zz_generated.deepcopy.go).
use Prim.Native.Nat.{ℕ}
use Prim.Native.String.{String}
use mathlib.Core.Path.{◌≡◌, ap}
use bad_pen.Base.Heap
use bad_pen.Base.Heap.{Pointer}
use bad_pen.Copies
use bad_pen.Copies.{Cell, Interface, MetaCopies, MetaCopiesLaws, Plain, plain_copy_into, plain_copy}
use bad_pen.Greeter.{Greeter, GreeterSpec, GreeterStatus}

-- A memory of Greeters and lists of them.
abbrev pub Memory : Type 0
Memory = Heap.Memory (Cell Greeter String)

module _ (c : MetaCopies) where
  -- What `DeepCopyInto` writes for a Greeter.
  abbrev pub copied_greeter : Greeter → Greeter
  copied_greeter g = record g { meta = c.copy_object_meta g.meta }

  pub copied_greeter-same : MetaCopiesLaws c → (g : Greeter) → copied_greeter g ≡ g
  copied_greeter-same laws g = ap (λ m. record g { meta = m }) (laws.object_meta_same g.meta)

  abbrev pub greeter_deep_copy_into : ℕ → ℕ → Memory → Memory
  greeter_deep_copy_into a out h = Copies.deep_copy_into copied_greeter a out h

  abbrev pub greeter_deep_copy : Pointer → Memory → Pointer × Memory
  greeter_deep_copy p h = Copies.deep_copy copied_greeter p h

  abbrev pub greeter_deep_copy_object : Pointer → Memory → Interface × Memory
  greeter_deep_copy_object p h = Copies.deep_copy_object copied_greeter p h

  abbrev pub list_deep_copy_into : ℕ → ℕ → Memory → Memory
  list_deep_copy_into a out h = Copies.deep_copy_list_into copied_greeter c.copy_list_meta a out h

  abbrev pub list_deep_copy : Pointer → Memory → Pointer × Memory
  list_deep_copy p h = Copies.deep_copy_list copied_greeter c.copy_list_meta p h

  abbrev pub list_deep_copy_object : Pointer → Memory → Interface × Memory
  list_deep_copy_object p h = Copies.deep_copy_list_object copied_greeter c.copy_list_meta p h

abbrev pub spec_deep_copy_into : ℕ → ℕ → Plain GreeterSpec → Plain GreeterSpec
spec_deep_copy_into a out h = plain_copy_into a out h

abbrev pub spec_deep_copy : Pointer → Plain GreeterSpec → Pointer × Plain GreeterSpec
spec_deep_copy p h = plain_copy p h

abbrev pub status_deep_copy_into : ℕ → ℕ → Plain GreeterStatus → Plain GreeterStatus
status_deep_copy_into a out h = plain_copy_into a out h

abbrev pub status_deep_copy : Pointer → Plain GreeterStatus → Pointer × Plain GreeterStatus
status_deep_copy p h = plain_copy p h
