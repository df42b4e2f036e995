-- ===== src/ApplyConfig/Tests.antt =====
-- The theorems on the builders, for small configurations.
use Prim.Native.String.{String}
use mathlib.Core.Path.{◌≡◌, refl}
use mathlib.Core.List.{List, [], ◌∷◌}
use bad_pen.Base.{lookup}
use bad_pen.ApplyConfig.{ObjectMetaApply, ensure_meta, empty, with_labels}
use bad_pen.ApplyConfig.Laws.{of_map, or_else, with_labels-lookup}

abbrev entries : List (String × String)
entries = ("app", "hello") ∷ ("tier", "front") ∷ []

with_labels-lookup_example :
    (of_map (ObjectMetaApply.labels (ensure_meta (with_labels entries empty))) "tier"
      ≡ or_else
          (lookup "tier" entries)
          (of_map (ObjectMetaApply.labels (ensure_meta empty)) "tier"))
    × (ObjectMetaApply.annotations (ensure_meta (with_labels entries empty))
        ≡ ObjectMetaApply.annotations (ensure_meta empty))
unfolding lookup
with_labels-lookup_example = with_labels-lookup entries empty "tier" (refl, (refl, tt))
