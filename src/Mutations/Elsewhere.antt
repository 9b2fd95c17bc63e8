-- ===== src/Mutations/Elsewhere.antt =====
-- The operations that write neither configs nor dns sections nor routings keep whatever is said of
-- those three tables.
use dae_wing.Store.Engine.{Engine}
use dae_wing.Store.Models.{Config, Dns, Routing, Db}
use dae_wing.Store.Exec.{
  nodes, subscriptions, groups, group_nodes, group_subscriptions, policy_params, systems,
}
use dae_wing.Store.Kept.{IsElsewhere, kept}

module _ ⦃E : Engine⦄ (Q : E.Table Config → E.Table Dns → E.Table Routing → Type 0) where
  abbrev pub Holds : Db E → Type 0
  Holds s = Q s.configs s.dnss s.routings

  pub nodes-IsElsewhere : IsElsewhere Holds nodes
  unfolding IsElsewhere
  nodes-IsElsewhere s t h = h

  pub subscriptions-IsElsewhere : IsElsewhere Holds subscriptions
  unfolding IsElsewhere
  subscriptions-IsElsewhere s t h = h

  pub groups-IsElsewhere : IsElsewhere Holds groups
  unfolding IsElsewhere
  groups-IsElsewhere s t h = h

  pub group_nodes-IsElsewhere : IsElsewhere Holds group_nodes
  unfolding IsElsewhere
  group_nodes-IsElsewhere s t h = h

  pub group_subscriptions-IsElsewhere : IsElsewhere Holds group_subscriptions
  unfolding IsElsewhere
  group_subscriptions-IsElsewhere s t h = h

  pub policy_params-IsElsewhere : IsElsewhere Holds policy_params
  unfolding IsElsewhere
  policy_params-IsElsewhere s t h = h

  pub systems-IsElsewhere : IsElsewhere Holds systems
  unfolding IsElsewhere
  systems-IsElsewhere s t h = h

  pub ruleset elsewhere = (
    kept, nodes-IsElsewhere, subscriptions-IsElsewhere, groups-IsElsewhere, group_nodes-IsElsewhere,
    group_subscriptions-IsElsewhere, policy_params-IsElsewhere, systems-IsElsewhere,
  )
