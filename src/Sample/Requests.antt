-- ===== src/Sample/Requests.antt =====
-- What the typed clients ask of the server (sample-controller/pkg/clientset/versioned/typed/sample).
use Prim.Native.String.{String}
use mathlib.Core.Path.{◌≡◌, refl, ap}
use mathlib.Core.Option.{Option}
use mathlib.Core.List.{List, [], ◌∷◌}
use bad_pen.Base.Result.{Error, Result, ok, err, Checked, returned, panicked}
use bad_pen.Client.{
  GetOptions, ListOptions, CreateOptions, UpdateOptions, DeleteOptions, PatchOptions, ApplyOptions,
  apply_patch_type,
}
use bad_pen.Client.Rest.{Verb, Pointed, filled}
use bad_pen.Sample.{
  Version, Scope, namespaced, cluster_wide, Resource, ResourceList, Within, resource_name,
}
use bad_pen.Sample.Apply.{ResourceApply}
use bad_pen.Sample.Typed.{
  verb, namespace, resource, name, sub_resource, versioned_params, timeout, body, Request, Server,
  Encoding, Resources, addressed, get_request, list_request, watch_request, create_request,
  update_request, update_status_request, delete_request, delete_collection_request, patch_request,
  apply_request, apply_status_request, get_resource, list_resources, watch_resources,
  create_resource, update_resource, update_resource_status, delete_resource, delete_resources,
  patch_resource, apply_resource, apply_resource_status, to_apply, sent,
}

-- A call of a client, with the arguments of its method.
pub data Call (v : Version) (s : Scope) : Type 0 where
  get : String → GetOptions → Call v s
  list watch : ListOptions → Call v s
  create : Resource v s → CreateOptions → Call v s
  update update_status : Resource v s → UpdateOptions → Call v s
  delete : String → DeleteOptions → Call v s
  delete_collection : DeleteOptions → ListOptions → Call v s
  patch : String → String → String → PatchOptions → List String → Call v s
  apply apply_status : Option (ResourceApply v s) → ApplyOptions → Call v s

pub data Outcome (Watch : Type 0) (v : Version) (s : Scope) : Type 0 where
  of_resource : Checked (Pointed (Resource v s)) → Outcome Watch v s
  of_list : Pointed (ResourceList v s) → Outcome Watch v s
  of_watch : Watch × Option Error → Outcome Watch v s
  of_error : Option Error → Outcome Watch v s

-- ClusterResourceInterface and NamespacedResourceInterface, as one function.
unfoldable pub operate :
    {Watch : Type 0} {v : Version} {s : Scope}
    → Encoding v s
    → Resources Watch v s
    → Call v s
    → Outcome Watch v s
operate encoding c (Call.get n opts) = of_resource (returned (get_resource c n opts))
operate encoding c (Call.list opts) = of_list (list_resources c opts)
operate encoding c (Call.watch opts) = of_watch (watch_resources c opts)
operate encoding c (Call.create r opts) = of_resource (returned (create_resource c r opts))
operate encoding c (Call.update r opts) = of_resource (returned (update_resource c r opts))
operate encoding c (Call.update_status r opts) =
    of_resource (returned (update_resource_status c r opts))
operate encoding c (Call.delete n opts) = of_error (delete_resource c n opts)
operate encoding c (Call.delete_collection opts list_opts) =
    of_error (delete_resources c opts list_opts)
operate encoding c (Call.patch n pt content opts subresources) =
    of_resource (returned (patch_resource c n pt content opts subresources))
operate encoding c (Call.apply b opts) = of_resource (apply_resource encoding c b opts)
operate encoding c (Call.apply_status b opts) =
    of_resource (apply_resource_status encoding c b opts)

-- The namespaces and the resources that a request names.
abbrev pub namespaces : {v : Version} {s : Scope} → Request v s → List String
namespaces [] = []
namespaces (verb how ∷ r) = namespaces r
namespaces (namespace ns ∷ r) = ns ∷ namespaces r
namespaces (resource n ∷ r) = namespaces r
namespaces (name n ∷ r) = namespaces r
namespaces (sub_resource subs ∷ r) = namespaces r
namespaces (versioned_params params ∷ r) = namespaces r
namespaces (timeout d ∷ r) = namespaces r
namespaces (body b ∷ r) = namespaces r

abbrev pub resources : {v : Version} {s : Scope} → Request v s → List String
resources [] = []
resources (verb how ∷ r) = resources r
resources (namespace ns ∷ r) = resources r
resources (resource n ∷ r) = n ∷ resources r
resources (name n ∷ r) = resources r
resources (sub_resource subs ∷ r) = resources r
resources (versioned_params params ∷ r) = resources r
resources (timeout d ∷ r) = resources r
resources (body b ∷ r) = resources r

-- The namespaces that a client is for.
abbrev pub places : (s : Scope) → Within s → List String
places namespaced ns = ns ∷ []
places cluster_wide place = []

-- A request names the client's namespace, if it has one, and its resource, and no others.
abbrev pub IsWithin : {v : Version} (s : Scope) → Within s → Request v s → Type 0
IsWithin s place r = (namespaces r ≡ places s place) × (resources r ≡ resource_name s ∷ [])

-- Two servers answer the requests of a place in the same way.
pub record Agrees {Watch : Type 0} {v : Version} {s : Scope} (place : Within s)
    (a b : Server Watch v s) : Type 0 where
  pub on_resource : (r : Request v s) → IsWithin s place r → a.into_resource r ≡ b.into_resource r
  pub on_list : (r : Request v s) → IsWithin s place r → a.into_list r ≡ b.into_list r
  pub on_watch : (r : Request v s) → IsWithin s place r → a.watching r ≡ b.watching r
  pub on_error : (r : Request v s) → IsWithin s place r → a.error r ≡ b.error r

pub addressed-IsWithin :
    {v : Version} (s : Scope) (how : Verb) (place : Within s) (rest : Request v s)
    → namespaces rest ≡ []
    → resources rest ≡ []
    → IsWithin s place (addressed s how place rest)
unfolding addressed
addressed-IsWithin namespaced how ns rest none_named none_else =
    (ap (λ more. ns ∷ more) none_named, ap (λ more. "namespacedresources" ∷ more) none_else)
addressed-IsWithin cluster_wide how place rest none_named none_else =
    (none_named, ap (λ more. "clusterresources" ∷ more) none_else)

module _ {Watch : Type 0} {v : Version} {s : Scope} (encoding : Encoding v s) (place : Within s)
    (a b : Server Watch v s) (agrees : Agrees place a b) where
  abbrev client_a : Resources Watch v s
  client_a = record { client = a; place = place }

  abbrev client_b : Resources Watch v s
  client_b = record { client = b; place = place }

  abbrev answered : Checked (Pointed (Resource v s)) → Outcome Watch v s
  answered = of_resource

  resource_same :
      (r : Request v s)
      → IsWithin s place r
      → answered (returned (filled (a.into_resource r)))
        ≡ answered (returned (filled (b.into_resource r)))
  resource_same r within =
      ap (λ answer. of_resource (returned (filled answer))) (agrees.on_resource r within)

  sent_same :
      (request : String × String → Request v s)
      → ((checked : String × String) → IsWithin s place (request checked))
      → (checked : Checked (Result (String × String)))
      → answered (sent encoding client_a request checked)
        ≡ answered (sent encoding client_b request checked)
  unfolding sent
  sent_same request within panicked = refl
  sent_same request within (returned (err e)) = refl
  sent_same request within (returned (ok checked)) =
      resource_same (request checked) (within checked)

  -- A client depends on what the server answers to requests of its own place only: whatever the
  -- version, the method and the arguments, a call gets the same answer from two servers that
  -- answer alike the requests that name the client's resource and its namespace, if it has one,
  -- and no others.
  pub operate_scoped :
      (call : Call v s)
      → operate encoding (record { client = a; place = place }) call
        ≡ operate encoding (record { client = b; place = place }) call
  unfolding operate get_request list_request watch_request create_request update_request
      update_status_request delete_request delete_collection_request patch_request apply_request
      apply_status_request get_resource list_resources watch_resources create_resource
      update_resource update_resource_status delete_resource delete_resources patch_resource
      apply_resource apply_resource_status filled
  operate_scoped (Call.get n opts) =
      resource_same (get_request client_a n opts) (addressed-IsWithin s Verb.get place _ refl refl)
  operate_scoped (Call.list opts) =
      ap (λ answer. of_list (filled answer))
        (agrees.on_list (list_request client_a opts)
          (addressed-IsWithin s Verb.get place _ refl refl))
  operate_scoped (Call.watch opts) = ap of_watch (
      agrees.on_watch (watch_request client_a opts)
        (addressed-IsWithin s Verb.get place _ refl refl))
  operate_scoped (Call.create r opts) =
      resource_same (create_request client_a r opts)
        (addressed-IsWithin s Verb.post place _ refl refl)
  operate_scoped (Call.update r opts) =
      resource_same (update_request client_a r opts)
        (addressed-IsWithin s Verb.put place _ refl refl)
  operate_scoped (Call.update_status r opts) =
      resource_same (update_status_request client_a r opts)
        (addressed-IsWithin s Verb.put place _ refl refl)
  operate_scoped (Call.delete n opts) = ap of_error (
      agrees.on_error (delete_request client_a n opts)
        (addressed-IsWithin s Verb.delete place _ refl refl))
  operate_scoped (Call.delete_collection opts list_opts) = ap of_error (
      agrees.on_error (delete_collection_request client_a opts list_opts)
        (addressed-IsWithin s Verb.delete place _ refl refl))
  operate_scoped (Call.patch n pt content opts subresources) =
      resource_same (patch_request client_a n pt content opts subresources)
        (addressed-IsWithin s (Verb.patch pt) place _ refl refl)
  operate_scoped (Call.apply config opts) =
      sent_same (apply_request encoding client_a opts)
        (λ checked. addressed-IsWithin s (Verb.patch apply_patch_type) place _ refl refl)
        (to_apply encoding config)
  operate_scoped (Call.apply_status config opts) =
      sent_same (apply_status_request encoding client_a opts)
        (λ checked. addressed-IsWithin s (Verb.patch apply_patch_type) place _ refl refl)
        (to_apply encoding config)
