-- ===== src/Resolvers/Groups.antt =====
-- graphql/service/group/resolver.go: what the API shows of a group. A resolver of a binding is the
-- binding with the nodes of its subscription.
pub mod Loaded
pub mod Shown
use dae_wing.Base.{
  ℕ, Bool, Option, none, some, List, [], ◌∷◌, map, Text, length, any, filter_by, text_eq, ◌==◌,
  if◌then◌else◌, int32, Result, ok, err,
}
use dae_wing.Cursor.{encode_cursor}
use dae_wing.Dae.{Param}
use dae_wing.Nodes.Names.{Regexp}
use dae_wing.Running.Groups.{marshal_param}
use dae_wing.Services.Nodes.{sql_eq}
use dae_wing.Store.Engine.{Engine}
use dae_wing.Store.Models.{Node, Group, GroupSubscription, GroupPolicyParam}
use dae_wing.Store.Exec.{
  Exec, pure, ◌>>=◌, nodes, subscriptions, group_nodes, group_subscriptions, policy_params, find,
}

-- SubscriptionBindingResolver
abbrev pub Binding : Type 0
Binding = GroupSubscription × List Node

-- the loop over the nodes
unfoldable pub matching : (Text → Bool) → List Node → List Node
matching matches [] = []
matching matches (n ∷ ns) = if matches n.name then n ∷ matching matches ns else matching matches ns

-- matchedNodesForBinding
unfoldable pub matched_nodes_for_binding : Regexp → Binding → Result (List Node)
matched_nodes_for_binding re (b, ns) = elim b.name_filter_regex [
  | none ↦ ok ns
  | some filter ↦
      if text_eq filter []
      then ok ns
      else elim (re.compile filter) [ err e ↦ err e | ok matches ↦ ok (matching matches ns) ]
]

-- MatchedNodes
unfoldable pub matched_nodes_of : Regexp → Binding → Result (List Node)
matched_nodes_of re b = matched_nodes_for_binding re b

-- MatchedCount
unfoldable pub matched_count : Regexp → Binding → Result ℕ
matched_count re b = elim (matched_nodes_for_binding re b) [
  | err e ↦ err e
  | ok matched ↦ ok (int32 (length matched))
]

-- ID
unfoldable pub group_id : Group → Text
group_id g = encode_cursor g.id

abbrev pub with_nodes : List Node → GroupSubscription → Binding
with_nodes ns b = (b, filter_by (λ n. sql_eq n.subscription_id (some b.subscription_id)) ns)

module _ ⦃E : Engine⦄ where
  -- Nodes
  unfoldable pub group_nodes_of : Group → Exec (List Node)
  group_nodes_of g = do
    joins ← find group_nodes (λ j. j.group_id == g.id)
    find nodes (λ n. any (λ j. j.node_id == n.id) joins)

  -- Subscriptions, with the rows that `Preload` reads
  unfoldable pub group_subscriptions_of : Group → Exec (List Binding)
  group_subscriptions_of g = do
    bindings ← find group_subscriptions (λ b. b.group_id == g.id)
    subs ← find subscriptions (λ r. any (λ b. b.subscription_id == r.id) bindings)
    ns ← find nodes (λ n. any (λ r. sql_eq n.subscription_id (some r.id)) subs)
    pure (map (with_nodes ns) bindings)

  -- PolicyParams
  unfoldable pub policy_params_of : Group → Exec (List Param)
  policy_params_of g = do
    params ← find policy_params (λ p. p.group_id == g.id)
    pure (map marshal_param params)
