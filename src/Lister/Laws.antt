-- ===== src/Lister/Laws.antt =====
-- What the lister of Greeters answers (greeter/pkg/generated/listers/greeter/v1alpha1/greeter.go).
use Prim.Native.String
use Prim.Native.String.{String}
use mathlib.Core.Path.{◌≡◌, refl, subst}
use mathlib.Core.Logic.{◌≢◌}
use mathlib.Core.Option.{Option, none, some}
use bad_pen.Base.Result.{Result, ok, err, panicked}
use bad_pen.Greeter.{Greeter, Object, greeter_object}
use bad_pen.Lister.{Indexer, as_greeter, GreeterNamespaceLister, get, found_greeter}

-- The cache holds Greeters only.
abbrev pub IsTyped : Indexer → Type 0
IsTyped indexer =
    (key : String) (object : Object)
    → Indexer.get_by_key indexer key ≡ ok (some object)
    → (g : Greeter) × (object ≡ greeter_object g)

found_greeter_returns :
    (name : String) (found : Result (Option Object))
    → ((object : Object) → found ≡ ok (some object) → (g : Greeter) × (object ≡ greeter_object g))
    → found_greeter name found ≢ panicked
unfolding found_greeter as_greeter
found_greeter_returns name (err e) typed p = cc p
found_greeter_returns name (ok none) typed p = cc p
found_greeter_returns name (ok (some object)) typed p =
    let (g, e) = typed object refl in
    cc (subst (λ o. found_greeter name (ok (some o)) ≡ panicked) e p)

-- On such a cache the lister does not panic.
pub get_returns :
    (lister : GreeterNamespaceLister) (name : String)
    → IsTyped lister.indexer
    → get lister name ≢ panicked
unfolding get
get_returns lister name typed =
    found_greeter_returns name _ (typed (String.◌++◌ lister.namespace (String.◌++◌ "/" name)))
