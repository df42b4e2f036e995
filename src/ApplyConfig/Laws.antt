-- ===== src/ApplyConfig/Laws.antt =====
-- What the builders of apply configurations build
-- (greeter/pkg/generated/applyconfiguration/greeter/v1alpha1/greeter.go).
use Prim.Native.String.{String}
use mathlib.Core.Path.{◌≡◌, refl, ap, ◌∙◌, sym}
use mathlib.Core.Option.{Option, none, some}
use mathlib.Core.List.{List, [], ◌∷◌, ◌++◌, append-nil, append_assoc}
use native.Mathlib.Omega.{arith}
use text.Mathlib.TextEquality.{eq_iff}
use bad_pen.Base.{lookup, insert, insert_all, lookup-insert}
use bad_pen.Base.Result.{Checked, returned, panicked}
use bad_pen.Kube.{OwnerReference}
use bad_pen.ApplyConfig.{
  ObjectMetaApply, GreeterApply, ensure_meta, put_entries, with_labels, append_references,
  with_owner_references, set_references,
}

abbrev Entries : Type 0
Entries = List (String × String)

-- No key stands twice: the entries of a Go map, in the order that a loop meets them.
abbrev pub IsMap : Entries → Type 0
IsMap [] = Unit
IsMap ((k, v) ∷ entries) = (lookup k entries ≡ none) × IsMap entries

-- The value of a key, from the first map that has one.
abbrev pub or_else : Option String → Option String → Option String
or_else none o = o
or_else (some v) o = some v

lookup-insert_all :
    (j : String) (entries m : Entries)
    → IsMap entries
    → lookup j (insert_all entries m) ≡ or_else (lookup j entries) (lookup j m)
unfolding lookup insert_all
lookup-insert_all j [] m h = refl
lookup-insert_all j ((k, v) ∷ entries) m h =
    ground
      (arith, lookup-insert_all j entries (insert k v m) h.1, lookup-insert k j v m, eq_iff k j)

abbrev pub of_map : Option Entries → String → Option String
of_map none j = none
of_map (some m) j = lookup j m

put_entries-lookup :
    (entries : Entries) (old : Option Entries) (j : String)
    → IsMap entries
    → of_map (put_entries entries old) j ≡ or_else (lookup j entries) (of_map old j)
unfolding put_entries lookup
put_entries-lookup [] none j h = refl
put_entries-lookup (entry ∷ entries) none j h = lookup-insert_all j (entry ∷ entries) [] h
put_entries-lookup [] (some m) j h = refl
put_entries-lookup (entry ∷ entries) (some m) j h = lookup-insert_all j (entry ∷ entries) m h

-- After `WithLabels` a key has the value that the given map has for it, or else its old one,
-- whatever the order in which the loop meets the entries; no annotation is changed.
pub with_labels-lookup :
    (entries : Entries) (b : GreeterApply) (j : String)
    → IsMap entries
    → (of_map (ObjectMetaApply.labels (ensure_meta (with_labels entries b))) j
        ≡ or_else (lookup j entries) (of_map (ObjectMetaApply.labels (ensure_meta b)) j))
      × (ObjectMetaApply.annotations (ensure_meta (with_labels entries b))
          ≡ ObjectMetaApply.annotations (ensure_meta b))
unfolding with_labels ensure_meta
with_labels-lookup entries b j h = (put_entries-lookup entries _ j h, refl)

-- The values, if none of them is nil.
abbrev pub gather : List (Option OwnerReference) → Option (List OwnerReference)
gather [] = some []
gather (none ∷ values) = none
gather (some value ∷ values) = elim (gather values) [
  | none ↦ none
  | some refs ↦ some (value ∷ refs)
]

abbrev pub appended :
    List OwnerReference → Option (List OwnerReference) → Checked (List OwnerReference)
appended refs none = panicked
appended refs (some values) = returned (refs ++ values)

appended-cons :
    (refs : List OwnerReference) (value : OwnerReference) (o : Option (List OwnerReference))
    → appended (refs ++ value ∷ []) o
      ≡ appended refs (elim o [ none ↦ none | some values ↦ some (value ∷ values) ])
appended-cons refs value none = refl
appended-cons refs value (some values) = ap returned (append_assoc refs (value ∷ []) values)

append_references_lem :
    (values : List (Option OwnerReference)) (refs : List OwnerReference)
    → append_references values refs ≡ appended refs (gather values)
unfolding append_references
append_references_lem [] refs = ap returned (sym (append-nil refs))
append_references_lem (none ∷ values) refs = refl
append_references_lem (some value ∷ values) refs =
    append_references_lem values (refs ++ value ∷ []) ∙ appended-cons refs value (gather values)

-- `WithOwnerReferences` appends all the values, in their order, to the references that there are,
-- and panics exactly if one of them is nil.
pub with_owner_references_lem :
    (values : List (Option OwnerReference)) (b : GreeterApply)
    → with_owner_references values b
      ≡ set_references b
          (appended (ObjectMetaApply.owner_references (ensure_meta b)) (gather values))
unfolding with_owner_references
with_owner_references_lem values b = ap (set_references b) (append_references_lem values _)
