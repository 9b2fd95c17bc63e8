-- ===== src/Mutations.antt =====
-- graphql/mutation.go from `CreateConfig` on: what each mutation of the API calls, in which
-- transaction, on the database and the schedulers. `TestNodeLatencies` is in Latency.antt.
pub mod Atomic
pub mod Tables
pub mod Elsewhere
pub mod Services
pub mod Runs
pub mod Sound
pub mod Selections
pub mod Kept
pub mod Bound
use dae_wing.Base.{ℕ, Bool, Option, none, some, List, [], ◌∷◌, map, Text, Result, ok, err}
use dae_wing.Cursor.Validator.{ImportArgument}
use dae_wing.Dae.{Dae, Param}
use dae_wing.Running.Run.{Outside, run}
use dae_wing.Services.Configs.{
  create_config, update_config, remove_config, select_config, rename_config,
}
use dae_wing.Services.Dnss.{create_dns, update_dns, remove_dns, select_dns, rename_dns}
use dae_wing.Services.Groups.{
  create_group, set_policy, remove_group, rename_group, add_subscriptions, del_subscriptions,
  add_nodes, del_nodes,
}
use dae_wing.Services.Nodes.{
  Dialer, ImportResult, import_nodes, update_node, remove_nodes, tag_node,
}
use dae_wing.Services.Routings.{
  create_routing, update_routing, remove_routing, select_routing, rename_routing,
}
use dae_wing.Services.Schedulers.{Cache, World, update_all, remove_subscriptions, update_cron}
use dae_wing.Services.Subscriptions.{
  Net, import_subscription, update_subscription, tag_subscription, update_link,
}
use dae_wing.Store.Engine.{Engine}
use dae_wing.Store.Models.{Config, Dns, Routing, Node, Subscription, Group, Db}
use dae_wing.Store.Exec.{Exec, pure, ◌>>=◌, transaction}

-- an optional argument whose default is the empty string
abbrev pub or_empty : Option Text → Text
or_empty none = []
or_empty (some t) = t

-- the conversion of the parameters of a policy
abbrev pub converted : Option (List (Option Text × Text)) → List Param
converted none = []
converted (some ps) = map (λ p. record { key = or_empty p.0; val = p.1 }) ps

-- What the mutations meet besides the database: dae, its dialer, the network, gocron, whether
-- gorm takes a new name of a group for a change, and the clock.
pub record Environment ⦃D : Dae⦄ : Type 1 where
  pub outside : Outside
  pub dialer : Dialer
  pub net : Net
  pub valid_cron : Text → Bool
  pub changed : Group → Text → Bool
  pub now : ℕ
  pub run_locked : Bool

module _ ⦃D : Dae⦄ where
  -- the mutations of configs, dns sections and routings, and `Run`
  pub data SectionCall : Type 0 where
    create_config_call : Option Text → Option D.Input → SectionCall
    update_config_call : Text → D.Input → SectionCall
    rename_config_call rename_dns_call rename_routing_call : Text → Text → SectionCall
    remove_config_call remove_dns_call remove_routing_call : Text → SectionCall
    select_config_call select_dns_call select_routing_call : Text → SectionCall
    run_call : Bool → SectionCall
    create_dns_call create_routing_call : Option Text → Option Text → SectionCall
    update_dns_call update_routing_call : Text → Text → SectionCall

  -- those of nodes and subscriptions that concern the database alone
  pub data NodeCall : Type 0 where
    import_nodes_call : Bool → List ImportArgument → NodeCall
    update_node_call tag_node_call : Text → Text → NodeCall
    remove_nodes_call : List Text → NodeCall
    update_subscription_call : Text → NodeCall
    update_link_call tag_subscription_call : Text → Text → NodeCall

  pub data GroupCall : Type 0 where
    create_group_call set_policy_call : Text → Text → Option (List (Option Text × Text)) → GroupCall
    remove_group_call : Text → GroupCall
    rename_group_call : Text → Text → GroupCall
    add_subscriptions_call : Text → List Text → Option Text → GroupCall
    del_subscriptions_call add_nodes_call del_nodes_call : Text → List Text → GroupCall

  -- the mutations that concern the schedulers as well
  pub data Mutation : Type 0 where
    section_call : SectionCall → Mutation
    node_call : NodeCall → Mutation
    group_call : GroupCall → Mutation
    import_subscription_call : Bool → ImportArgument → Mutation
    update_cron_call : Text → Text → Bool → Mutation
    remove_subscriptions_call : List Text → Mutation

  pub data Answer : Type 0 where
    count : ℕ → Answer
    config : D.Global × Config → Answer
    dns : D.Dns × Dns → Answer
    routing : D.Routing × Routing → Answer
    imported_nodes : List ImportResult → Answer
    node : Node → Answer
    imported_subscription : Subscription × List ImportResult → Answer
    subscription : Subscription → Answer
    group : Group → Answer

  module _ ⦃E : Engine⦄ (o : Environment) where
    abbrev pub answer : {A : Type 0} → (A → Answer) → Exec A → Exec Answer
    answer f m = m >>= λ a. pure (f a)

    unfoldable pub perform_section : SectionCall → Exec Answer
    perform_section (SectionCall.create_config_call name global) =
        answer Answer.config (create_config (or_empty name) global)
    perform_section (SectionCall.update_config_call id global) =
        answer Answer.config (update_config id global)
    perform_section (SectionCall.rename_config_call id name) =
        answer Answer.count (rename_config id name)
    perform_section (SectionCall.remove_config_call id) = answer Answer.count (remove_config id)
    perform_section (SectionCall.select_config_call id) = answer Answer.count (select_config id)
    perform_section (SectionCall.run_call dry) =
        answer Answer.count (transaction (run o.outside o.run_locked dry))
    perform_section (SectionCall.create_dns_call name text) =
        answer Answer.dns (create_dns (or_empty name) (or_empty text))
    perform_section (SectionCall.update_dns_call id text) = answer Answer.dns (update_dns id text)
    perform_section (SectionCall.rename_dns_call id name) = answer Answer.count (rename_dns id name)
    perform_section (SectionCall.remove_dns_call id) = answer Answer.count (remove_dns id)
    perform_section (SectionCall.select_dns_call id) = answer Answer.count (select_dns id)
    perform_section (SectionCall.create_routing_call name text) =
        answer Answer.routing (create_routing (or_empty name) (or_empty text))
    perform_section (SectionCall.update_routing_call id text) =
        answer Answer.routing (update_routing id text)
    perform_section (SectionCall.rename_routing_call id name) =
        answer Answer.count (rename_routing id name)
    perform_section (SectionCall.remove_routing_call id) = answer Answer.count (remove_routing id)
    perform_section (SectionCall.select_routing_call id) = answer Answer.count (select_routing id)

    unfoldable pub perform_node : NodeCall → Exec Answer
    perform_node (NodeCall.import_nodes_call abort args) =
        answer Answer.imported_nodes (transaction (import_nodes o.dialer abort none args))
    perform_node (NodeCall.update_node_call id link) =
        answer Answer.node (transaction (update_node o.dialer id link))
    perform_node (NodeCall.remove_nodes_call ids) = answer Answer.count (remove_nodes ids)
    perform_node (NodeCall.tag_node_call id tag) = answer Answer.count (tag_node id tag)
    perform_node (NodeCall.update_subscription_call id) =
        answer Answer.subscription (update_subscription o.net o.dialer o.now id)
    perform_node (NodeCall.update_link_call id link) =
        answer Answer.subscription (update_link o.now id link)
    perform_node (NodeCall.tag_subscription_call id tag) =
        answer Answer.count (tag_subscription id tag)

    unfoldable pub perform_group : GroupCall → Exec Answer
    perform_group (GroupCall.create_group_call name policy params) =
        answer Answer.group (create_group name policy (converted params))
    perform_group (GroupCall.set_policy_call id policy params) =
        answer Answer.count (set_policy id policy (converted params))
    perform_group (GroupCall.remove_group_call id) = answer Answer.count (remove_group id)
    perform_group (GroupCall.rename_group_call id name) =
        answer Answer.count (rename_group o.changed id name)
    perform_group (GroupCall.add_subscriptions_call id subs filter) =
        answer Answer.count (add_subscriptions o.outside.regexp id subs filter)
    perform_group (GroupCall.del_subscriptions_call id subs) =
        answer Answer.count (del_subscriptions id subs)
    perform_group (GroupCall.add_nodes_call id ns) = answer Answer.count (add_nodes id ns)
    perform_group (GroupCall.del_nodes_call id ns) = answer Answer.count (del_nodes id ns)

    -- the answer to an operation that also handles the schedulers
    abbrev pub told : {A : Type 0} → (A → Answer) → Result A × World → Result Answer × World
    told f (ok a, w) = (ok (f a), w)
    told f (err e, w) = (err e, w)

    -- ImportSubscription: the schedulers are brought up to date behind the commit
    abbrev pub with_update_all : {A : Type 0} → Result A × Db E → Cache → Result A × World
    with_update_all (ok a, s) c = (ok a, (s, update_all o.valid_cron s c))
    with_update_all (err e, s) c = (err e, (s, c))

    -- an operation that leaves the schedulers alone
    abbrev pub beside : Exec Answer → World → Result Answer × World
    beside m (s, c) = let r = m s in (r.0, (r.1, c))

    unfoldable pub mutate : Mutation → World → Result Answer × World
    mutate (Mutation.section_call q) w = beside (perform_section q) w
    mutate (Mutation.node_call q) w = beside (perform_node q) w
    mutate (Mutation.group_call q) w = beside (perform_group q) w
    mutate (Mutation.import_subscription_call abort arg) (s, c) =
        told Answer.imported_subscription
          (with_update_all (transaction (import_subscription o.net o.dialer o.now abort arg) s) c)
    mutate (Mutation.update_cron_call id exp enable) w =
        told Answer.subscription (update_cron o.valid_cron id exp enable w)
    mutate (Mutation.remove_subscriptions_call ids) w =
        told Answer.count (remove_subscriptions ids w)

  -- the mutations one after the other, each with what it meets
  unfoldable pub mutate_all : ⦃E : Engine⦄ → List (Environment × Mutation) → World → World
  mutate_all [] w = w
  mutate_all ((o, q) ∷ qs) w = mutate_all qs (mutate o q w).1
