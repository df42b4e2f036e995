-- ===== src/Client/Results.antt =====
-- What `Apply` does with a configuration, and what the fake `List` returns
-- (greeter/pkg/generated/clientset/versioned/typed/greeter/v1alpha1).
use Prim.Native.String.{String}
use mathlib.Core.Path.{◌≡◌, ap, sym, ◌∙◌}
use mathlib.Core.Option.{Option, none, some}
use mathlib.Core.List.{List, [], ◌∷◌, ◌++◌, append-nil, append_assoc}
use native.Mathlib.Omega.{arith}
use bad_pen.Base.{keep}
use bad_pen.Base.Result.{Error, ok, returned, panicked}
use bad_pen.Greeter.{Greeter}
use bad_pen.ApplyConfig.{GreeterApply, with_name}
use bad_pen.Client.{ListOptions, ApplyOptions, GreeterList, Encoding}
use bad_pen.Client.Rest.{
  Server, Greeters, filled, to_apply, applied_name, sent, apply_request, apply_greeter,
}
use bad_pen.Client.Fake.{
  Tracker, FakeGreeters, a_list, list_action, empty_list, greeters_resource, greeters_kind,
  append_matching, label_or_everything, matching_list, fake_list,
}
use bad_pen.Lister.{Selector}

module _ {Watch : Type 0} (encoding : Encoding) (c : Greeters Watch) (opts : ApplyOptions)
    (b : GreeterApply) (content : String) where
  -- `Apply` on a configuration without metadata panics; its error for a missing name is returned
  -- only if there is metadata.
  pub apply_greeter_panics :
      b.meta ≡ none
      → encoding.marshal b ≡ ok content
      → apply_greeter encoding c (some b) opts ≡ panicked
  unfolding apply_greeter to_apply applied_name sent
  apply_greeter_panics bare marshalled = ground arith

  -- Once the builder has given a configuration its name, `Apply` sends it under that name, and
  -- returns what the server answers.
  pub apply_greeter-with_name :
      (name : String)
      → encoding.marshal (with_name name b) ≡ ok content
      → apply_greeter encoding c (some (with_name name b)) opts
        ≡ returned
            (filled (Server.into_greeter c.client (apply_request encoding c opts (name, content))))
  unfolding apply_greeter to_apply applied_name sent with_name
  apply_greeter-with_name name marshalled = ground arith

append_matching_lem :
    (label : Selector) (gs items : List Greeter)
    → append_matching label gs items ≡ items ++ keep (λ g. label g.meta.labels) gs
unfolding append_matching keep
append_matching_lem label [] items = sym (append-nil items)
append_matching_lem label (g ∷ gs) items = ground (
  arith,
  append_matching_lem label gs items,
  append_matching_lem label gs (items ++ g ∷ []),
  append_assoc items (g ∷ []) (keep (λ g. label g.meta.labels) gs),
)

-- The fake `List` returns, of the list that the tracker answers with, the Greeters whose labels
-- match the selector, in their order.
pub fake_list-keep :
    {Watch : Type 0} (c : FakeGreeters Watch) (opts : ListOptions) (gs : GreeterList)
    (e : Option Error)
    → Tracker.invokes c.fake (list_action greeters_resource greeters_kind c.ns opts) empty_list
      ≡ (some (a_list gs), e)
    → fake_list c opts
      ≡ returned (
        some (record gs {
          items =
              keep
                (λ g. label_or_everything (Tracker.extract_label c.fake opts) g.meta.labels)
                gs.items;
        }),
        e,
      )
unfolding fake_list matching_list
fake_list-keep c opts gs e answered =
    ap (matching_list (label_or_everything (Tracker.extract_label c.fake opts))) answered
    ∙ ap (λ items. returned (some (record gs { items = items }), e))
        (append_matching_lem (label_or_everything (Tracker.extract_label c.fake opts)) gs.items [])
