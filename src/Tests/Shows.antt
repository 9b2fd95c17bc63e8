-- ===== src/Tests/Shows.antt =====
-- What the API shows of the group of the tests.
use dae_wing.Base.{◌≡◌, refl, some, List, [], ◌∷◌, map, codes, text_eq, ok}
use dae_wing.Dae.{Param}
use dae_wing.Nodes.Names.{matched_nodes}
use dae_wing.Resolvers.Groups.{Binding, group_subscriptions_of, policy_params_of}
use dae_wing.Resolvers.Groups.Shown.{shown_nodes, group_subscriptions_of-load_groups}
use dae_wing.Running.Groups.{LoadedGroup, node_ref, bound_nodes, marshal_param}
use dae_wing.Running.Run.{load_groups}
use dae_wing.Store.Memory.{memory}
use dae_wing.Store.Models.{Db}
use dae_wing.Tests.Data.{outside, database, proxy, node_2}

-- the group with the nodes of one subscription, by their names
abbrev bound : Db memory
bound = record database {
  group_subscriptions =
      record { group_id = 1; subscription_id = 3; name_filter_regex = some (codes "hk") } ∷ [];
  policy_params = record { id = 1; key = codes "k"; value = codes "v"; group_id = 1 } ∷ [];
}

abbrev bindings : List Binding
bindings =
    (
      record { group_id = 1; subscription_id = 3; name_filter_regex = some (codes "hk") },
      node_2 ∷ [],
    )
    ∷ []

abbrev with_bindings : LoadedGroup
with_bindings = record {
  group = proxy;
  params = record { id = 1; key = codes "k"; value = codes "v"; group_id = 1 } ∷ [];
  bindings = bindings;
}

loads : load_groups ⦃E = memory⦄ (codes "proxy" ∷ []) bound ≡ (ok (with_bindings ∷ []), bound)
unfolding load_groups text_eq
loads = refl

binds : bound_nodes (outside.regexp) 0 bindings ≡ ok (node_ref 0 node_2 ∷ [])
unfolding bound_nodes matched_nodes text_eq
binds = refl

shows : group_subscriptions_of ⦃E = memory⦄ proxy bound ≡ (ok bindings, bound)
unfolding group_subscriptions_of
shows = refl

tells :
    policy_params_of ⦃E = memory⦄ proxy bound
    ≡ (ok (record { key = codes "k"; val = codes "v" } ∷ []), bound)
unfolding policy_params_of
tells = refl

group_subscriptions_of-load_groups_example :
    (bindings ≡ bindings)
    × (shown_nodes (outside.regexp) bindings ≡ ok (node_2 ∷ []))
    × (◌≡◌ {A = List Param}
        (record { key = codes "k"; val = codes "v" } ∷ [])
        (map marshal_param with_bindings.params))
group_subscriptions_of-load_groups_example =
    group_subscriptions_of-load_groups ⦃E = memory⦄ (outside.regexp) (codes "proxy" ∷ []) bound
      bound bound bound (with_bindings ∷ []) 0 with_bindings bindings
      (record { key = codes "k"; val = codes "v" } ∷ []) (node_ref 0 node_2 ∷ []) loads refl binds
      shows tells
