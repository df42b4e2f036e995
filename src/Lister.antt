-- ===== src/Lister.antt =====
-- The generated lister of Greeters (greeter/pkg/generated/listers/greeter/v1alpha1/greeter.go) over
-- the cache's indexer, which is client-go's and a parameter here.
pub mod Laws
use Prim.Native.String
use Prim.Native.String.{String}
use mathlib.Core.Bool.{Bool}
use mathlib.Core.Option.{Option, none, some}
use mathlib.Core.List.{List, [], ◌∷◌}
use bad_pen.Base.Result.{Error, Result, ok, err, Checked, returned, panicked}
use bad_pen.Kube.{new_not_found}
use bad_pen.Greeter.{Greeter, Object, greeter_object, pod_object, tombstone, text, other_object}

-- labels.Selector, by its method `Matches`.
abbrev pub Selector : Type 0
Selector = List (String × String) → Bool

-- cache.Indexer: the object under a key, if there is one, and the objects that `ListAll` and
-- `ListAllByNamespace` hand to their callback, with the error that they return.
pub record Indexer : Type 0 where
  pub get_by_key : String → Result (Option Object)
  pub list_all : Selector → List Object × Option Error
  pub list_all_by_namespace : String → Selector → List Object × Option Error

-- The type assertion `obj.(*v1alpha1.Greeter)`.
unfoldable pub as_greeter : Object → Checked Greeter
as_greeter (greeter_object g) = returned g
as_greeter (pod_object pod) = panicked
as_greeter (tombstone object) = panicked
as_greeter (text s) = panicked
as_greeter other_object = panicked

-- The callback of `List`, for each object: `ret = append(ret, m.(*v1alpha1.Greeter))`.
add_greeter : Checked Greeter → Checked (List Greeter) → Checked (List Greeter)
add_greeter (returned g) (returned gs) = returned (g ∷ gs)
add_greeter (returned g) panicked = panicked
add_greeter panicked rest = panicked

unfoldable pub append_greeters : List Object → Checked (List Greeter)
unfolding add_greeter as_greeter
append_greeters [] = returned []
append_greeters (object ∷ objects) = add_greeter (as_greeter object) (append_greeters objects)

with_error : Option Error → Checked (List Greeter) → Checked (List Greeter × Option Error)
with_error e (returned gs) = returned (gs, e)
with_error e panicked = panicked

pub record GreeterLister : Type 0 where
  pub indexer : Indexer

unfoldable pub new_greeter_lister : Indexer → GreeterLister
new_greeter_lister indexer = record { indexer = indexer }

-- `greeterLister.List`
unfoldable pub list : GreeterLister → Selector → Checked (List Greeter × Option Error)
unfolding append_greeters with_error
list s selector =
    let (objects, e) = s.indexer.list_all selector in with_error e (append_greeters objects)

pub record GreeterNamespaceLister : Type 0 where
  pub indexer : Indexer
  pub namespace : String

unfoldable pub greeters : GreeterLister → String → GreeterNamespaceLister
greeters s namespace = record { indexer = s.indexer; namespace = namespace }

-- `greeterNamespaceLister.List`
unfoldable pub list_in_namespace :
    GreeterNamespaceLister → Selector → Checked (List Greeter × Option Error)
unfolding append_greeters with_error
list_in_namespace s selector =
    let (objects, e) = s.indexer.list_all_by_namespace s.namespace selector in
    with_error e (append_greeters objects)

found_greeter : String → Result (Option Object) → Checked (Result Greeter)
unfolding as_greeter
found_greeter name (err e) = returned (err e)
found_greeter name (ok none) = returned (err (new_not_found "greeter.example.org" name))
found_greeter name (ok (some object)) = elim (as_greeter object) [
  | returned g ↦ returned (ok g)
  | panicked ↦ panicked
]

-- `greeterNamespaceLister.Get`
unfoldable pub get : GreeterNamespaceLister → String → Checked (Result Greeter)
unfolding found_greeter
get s name =
    found_greeter name (s.indexer.get_by_key (String.◌++◌ s.namespace (String.◌++◌ "/" name)))
