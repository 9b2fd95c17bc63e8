-- ===== src/Running/Run.antt =====
-- `Run` of graphql/service/config/mutation_utils.go.
use dae_wing.Base.{
  ℕ, Bool, false, Option, none, some, List, [], ◌∷◌, ◌++◌, map, Text, codes, member, elem, any,
  filter_by, ◌==◌, if◌then◌else◌, Result, ok, err, Error,
}
use dae_wing.Dae.{Dae, Conf, parse_config, necessary_outbounds, join}
use dae_wing.Nodes.Names.{MapOrder, Regexp, NodeRef, deduplicate_nodes, uniquefy_nodes_name}
use dae_wing.Running.Groups.{
  LoadedGroup, not_found_names, bound_nodes, node_ref, positions, group_sections, node_line,
}
use dae_wing.Running.Save.{save_running}
use dae_wing.Services.Nodes.{sql_eq, first_system, is_not_found}
use dae_wing.Store.Engine.{Engine}
use dae_wing.Store.Models.{Config, Dns, Routing, Node, Group, GroupSubscription, GroupPolicyParam}
use dae_wing.Store.Exec.{
  Exec, pure, fail, lift, ◌>>=◌, ◌>>◌, TableOf, configs, dnss, routings, nodes, subscriptions,
  groups, group_nodes, group_subscriptions, policy_params, systems, find, first, update_by_id,
}

-- The outside of `Run`: map order and regular expressions of Go, and the running dae, which
-- answers a configuration with nil or an error.
pub record Outside ⦃D : Dae⦄ : Type 1 where
  pub maps : MapOrder
  pub regexp : Regexp
  pub empty_config : Conf
  pub reload : Conf → Option Error

module _ ⦃E : Engine⦄ where
  abbrev or_missing : {R : Type 0} → Error → Result R → Result R
  or_missing e (ok r) = ok r
  or_missing e (err e') = if is_not_found e' then err e else err e'

  -- the selected row, or the request to select one
  abbrev pub selected_row : {R : Type 0} → TableOf R → (R → Bool) → Error → Exec R
  selected_row T selected e s = (or_missing e (first T selected s).0, s)

  abbrev pub loaded :
      List GroupPolicyParam → List GroupSubscription → List Node → Group → LoadedGroup
  loaded params bindings ns g = record {
    group = g;
    params = filter_by (λ p. p.group_id == g.id) params;
    bindings =
        map (λ b. (b, filter_by (λ n. sql_eq n.subscription_id (some b.subscription_id)) ns))
          (filter_by (λ b. b.group_id == g.id) bindings);
  }

  -- the groups with the rows that `Preload` reads
  unfoldable pub load_groups : List Text → Exec (List LoadedGroup)
  load_groups outbounds = do
    gs ← find groups (λ g. member g.name outbounds)
    let ids = map (λ g. g.id) gs
    params ← find policy_params (λ p. elem p.group_id ids)
    bindings ← find group_subscriptions (λ b. elem b.group_id ids)
    subs ← find subscriptions (λ r. any (λ b. b.subscription_id == r.id) bindings)
    ns ← find nodes (λ n. any (λ r. sql_eq n.subscription_id (some r.id)) subs)
    pure (map (loaded params bindings ns) gs)

  -- `Association("Node").Find`
  unfoldable pub solitary_nodes : ℕ → Exec (List Node)
  solitary_nodes group_id = do
    joins ← find group_nodes (λ j. j.group_id == group_id)
    find nodes (λ n. any (λ j. j.node_id == n.id) joins)

  -- the loop over the groups
  unfoldable pub collect_nodes : Regexp → List (ℕ × LoadedGroup) → Exec (List NodeRef)
  collect_nodes re [] = pure []
  collect_nodes re ((i, g) ∷ rest) = do
    bound ← lift (bound_nodes re i g.bindings)
    alone ← solitary_nodes g.group.id
    more ← collect_nodes re rest
    pure ((bound ++ map (node_ref i) alone) ++ more)

  module _ ⦃D : Dae⦄ (o : Outside) where
    abbrev pub missing_groups : List Text → Result (Unit {0})
    missing_groups [] = ok tt
    missing_groups (n ∷ names) = err (Error.groups_not_defined (join (n ∷ names) (codes ", ")))

    abbrev pub all_named : Option (List NodeRef) → Result (List NodeRef)
    all_named none = err Error.out_of_fuel
    all_named (some nodes) = ok nodes

    -- from the parsed sections to the whole configuration, with the groups that it uses
    unfoldable pub fill_config : Conf → Exec (Conf × List Group)
    fill_config c = do
      let outbounds = necessary_outbounds c.routing
      gs ← load_groups outbounds
      lift (missing_groups (not_found_names o.maps outbounds gs))
      collected ← collect_nodes o.regexp (positions 0 gs)
      named ← lift (all_named (uniquefy_nodes_name (deduplicate_nodes o.maps collected)))
      sections ← lift (group_sections o.maps named (o.maps.order (positions 0 gs)))
      pure (
        record c { group = c.group ++ sections; node = c.node ++ map node_line named },
        map (λ g. g.group) gs,
      )

    abbrev pub answer : Option Error → Result (Unit {0})
    answer none = ok tt
    answer (some _) = err Error.reload_failed

    -- the branch of a dry run
    unfoldable pub stop_running : Exec ℕ
    stop_running = do
      lift (answer (o.reload o.empty_config))
      sys ← first_system
      update_by_id systems (λ x. x.id) sys.id (λ x. record x { running = false })
      pure 1

    -- the other branch, from the selected rows on
    unfoldable pub start_selected : Config → Dns → Routing → Exec ℕ
    start_selected c d r = do
      parsed ← lift (parse_config (some c.global) (some d.dns) (some r.routing))
      (conf, gs) ← fill_config parsed
      lift (answer (o.reload conf))
      save_running c d r gs

    unfoldable pub run_selected : Exec ℕ
    run_selected = do
      c ← selected_row configs (λ r. r.selected) Error.no_selected_config
      d ← selected_row dnss (λ r. r.selected) Error.no_selected_dns
      r ← selected_row routings (λ r. r.selected) Error.no_selected_routing
      start_selected c d r

    -- Run; `locked` says that another call holds `runLock`
    unfoldable pub run : Bool → Bool → Exec ℕ
    run locked no_load =
        if locked then fail Error.busy else if no_load then stop_running else run_selected
