-- ===== src/Mutations/Atomic.antt =====
-- A mutation that fails changes nothing.
use dae_wing.Base.{◌≡◌, Result, ok, err, Error, arith}
use dae_wing.Dae.{Dae}
use dae_wing.Mutations.{
  Environment, SectionCall, NodeCall, GroupCall, Mutation, Answer, perform_section, perform_node,
  perform_group, told, beside, with_update_all, mutate,
}
use dae_wing.Services.Dnss.{create_dns, update_dns, remove_dns, select_dns, rename_dns}
use dae_wing.Services.Groups.{
  create_group, set_policy, remove_group, rename_group, add_subscriptions, del_subscriptions,
  add_nodes, del_nodes,
}
use dae_wing.Services.Nodes.{remove_nodes, tag_node}
use dae_wing.Services.Routings.{
  create_routing, update_routing, remove_routing, select_routing, rename_routing,
}
use dae_wing.Services.Schedulers.{World, Cache}
use dae_wing.Services.Schedulers.Laws.{update_cron-err, remove_subscriptions-err}
use dae_wing.Services.Subscriptions.{
  import_subscription, update_subscription, update_subscription_by_id, tag_subscription,
  update_link,
}
use dae_wing.Services.Configs.{
  create_config, update_config, remove_config, select_config, rename_config,
}
use dae_wing.Store.Engine.{Engine}
use dae_wing.Store.Models.{Db}
use dae_wing.Store.Exec.{Exec, transaction}
use dae_wing.Store.Frames.{
  IsAtomic, lift-bind-IsAtomic, pure-bind-IsAtomic, bind-pure-IsAtomic, transaction-IsAtomic,
  first-IsPure, create-IsAtomic, update-IsAtomic, update_by_id-IsAtomic,
}

ruleset atomic = (
  lift-bind-IsAtomic, bind-pure-IsAtomic, transaction-IsAtomic, create-IsAtomic, update-IsAtomic,
  update_by_id-IsAtomic, pure-bind-IsAtomic, first-IsPure,
)

module _ ⦃E : Engine⦄ ⦃D : Dae⦄ (o : Environment) where
  perform_section-IsAtomic : (q : SectionCall) → IsAtomic (perform_section o q)
  unfolding perform_section create_config update_config remove_config select_config rename_config
      create_dns update_dns remove_dns select_dns rename_dns create_routing update_routing
      remove_routing select_routing rename_routing remove_nodes tag_node update_subscription
      update_subscription_by_id update_link tag_subscription create_group set_policy remove_group
      rename_group add_subscriptions del_subscriptions add_nodes del_nodes
  perform_section-IsAtomic (SectionCall.create_config_call name global) = search atomic
  perform_section-IsAtomic (SectionCall.update_config_call id global) = search atomic
  perform_section-IsAtomic (SectionCall.rename_config_call id name) = search atomic
  perform_section-IsAtomic (SectionCall.remove_config_call id) = search atomic
  perform_section-IsAtomic (SectionCall.select_config_call id) = search atomic
  perform_section-IsAtomic (SectionCall.run_call dry) = search atomic
  perform_section-IsAtomic (SectionCall.create_dns_call name text) = search atomic
  perform_section-IsAtomic (SectionCall.update_dns_call id text) = search atomic
  perform_section-IsAtomic (SectionCall.rename_dns_call id name) = search atomic
  perform_section-IsAtomic (SectionCall.remove_dns_call id) = search atomic
  perform_section-IsAtomic (SectionCall.select_dns_call id) = search atomic
  perform_section-IsAtomic (SectionCall.create_routing_call name text) = search atomic
  perform_section-IsAtomic (SectionCall.update_routing_call id text) = search atomic
  perform_section-IsAtomic (SectionCall.rename_routing_call id name) = search atomic
  perform_section-IsAtomic (SectionCall.remove_routing_call id) = search atomic
  perform_section-IsAtomic (SectionCall.select_routing_call id) = search atomic

  perform_node-IsAtomic : (q : NodeCall) → IsAtomic (perform_node o q)
  unfolding perform_node create_config update_config remove_config select_config rename_config
      create_dns update_dns remove_dns select_dns rename_dns create_routing update_routing
      remove_routing select_routing rename_routing remove_nodes tag_node update_subscription
      update_subscription_by_id update_link tag_subscription create_group set_policy remove_group
      rename_group add_subscriptions del_subscriptions add_nodes del_nodes
  perform_node-IsAtomic (NodeCall.import_nodes_call abort args) = search atomic
  perform_node-IsAtomic (NodeCall.update_node_call id link) = search atomic
  perform_node-IsAtomic (NodeCall.remove_nodes_call ids) = search atomic
  perform_node-IsAtomic (NodeCall.tag_node_call id tag) = search atomic
  perform_node-IsAtomic (NodeCall.update_subscription_call id) = search atomic
  perform_node-IsAtomic (NodeCall.update_link_call id link) = search atomic
  perform_node-IsAtomic (NodeCall.tag_subscription_call id tag) = search atomic

  pub perform_group-IsAtomic : (q : GroupCall) → IsAtomic (perform_group o q)
  unfolding perform_group create_config update_config remove_config select_config rename_config
      create_dns update_dns remove_dns select_dns rename_dns create_routing update_routing
      remove_routing select_routing rename_routing remove_nodes tag_node update_subscription
      update_subscription_by_id update_link tag_subscription create_group set_policy remove_group
      rename_group add_subscriptions del_subscriptions add_nodes del_nodes
  perform_group-IsAtomic (GroupCall.create_group_call name policy params) = search atomic
  perform_group-IsAtomic (GroupCall.set_policy_call id policy params) = search atomic
  perform_group-IsAtomic (GroupCall.remove_group_call id) = search atomic
  perform_group-IsAtomic (GroupCall.rename_group_call id name) = search atomic
  perform_group-IsAtomic (GroupCall.add_subscriptions_call id subs filter) = search atomic
  perform_group-IsAtomic (GroupCall.del_subscriptions_call id subs) = search atomic
  perform_group-IsAtomic (GroupCall.add_nodes_call id ns) = search atomic
  perform_group-IsAtomic (GroupCall.del_nodes_call id ns) = search atomic

  told-err :
      {A : Type 0} (f : A → Answer) (q : Result A × World) (e : Error) (w : World)
      → told o f q ≡ (err e, w)
      → q ≡ (err e, w)
  told-err f (ok a, w') e w h = absurd (ground arith)
  told-err f (err x, w') e w h = ground arith

  with_update_all-err :
      {A : Type 0} (m : Exec A) (s : Db E) (c : Cache) (e : Error) (w : World)
      → with_update_all o (transaction m s) c ≡ (err e, w)
      → w ≡ (s, c)
  with_update_all-err m s c e w h = ground arith

  beside-err :
      (m : Exec Answer)
      → IsAtomic m
      → (e : Error) (w w' : World) → beside o m w ≡ (err e, w')
      → w' ≡ w
  beside-err m h e (s, c) w' failed =
      let same = h s (m s).1 e (ground arith) in ground (arith, same)

  -- A mutation of the API that is answered by an error, whichever it is and wherever it failed,
  -- leaves the database and the schedulers as they were.
  pub mutate-err : (q : Mutation) (e : Error) (w w' : World) → mutate o q w ≡ (err e, w') → w' ≡ w
  unfolding mutate
  mutate-err (Mutation.section_call q) e w w' h =
      beside-err (perform_section o q) (perform_section-IsAtomic q) e w w' h
  mutate-err (Mutation.node_call q) e w w' h =
      beside-err (perform_node o q) (perform_node-IsAtomic q) e w w' h
  mutate-err (Mutation.group_call q) e w w' h =
      beside-err (perform_group o q) (perform_group-IsAtomic q) e w w' h
  mutate-err (Mutation.import_subscription_call abort arg) e (s, c) w' h =
      with_update_all-err (import_subscription o.net o.dialer o.now abort arg) s c e w'
        (told-err Answer.imported_subscription _ e w' h)
  mutate-err (Mutation.update_cron_call id exp enable) e w w' h =
      update_cron-err o.valid_cron id exp enable e w w' (told-err Answer.subscription _ e w' h)
  mutate-err (Mutation.remove_subscriptions_call ids) e w w' h =
      remove_subscriptions-err ids e w w' (told-err Answer.count _ e w' h)
