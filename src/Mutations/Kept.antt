-- ===== src/Mutations/Kept.antt =====
-- Any sequence of mutations keeps the three tables orderly.
use dae_wing.Base.{
  ◌⊎◌, ◌∙◌, Bool, Text, Bool-cases, ◌&&◌, not, text_eq, arith, ℕ, ◌≡◌, refl, inl, inr, List, [],
  ◌∷◌, Result, ok, err, Result-cases, ap,
}
use dae_wing.Dae.{Dae}
use dae_wing.Cursor.{decode_cursor, decode_cursor_batch}
use dae_wing.Mutations.{
  Environment, SectionCall, NodeCall, GroupCall, Mutation, Answer, answer, perform_section,
  perform_node, perform_group, told, with_update_all, mutate, mutate_all,
}
use dae_wing.Mutations.Elsewhere.{
  Holds, groups-IsElsewhere, group_nodes-IsElsewhere, group_subscriptions-IsElsewhere,
  policy_params-IsElsewhere,
}
use dae_wing.Store.Kept.{block-Keeps, rollback-Keeps}
use dae_wing.Services.Groups.Kept.{
  create_group-Keeps, set_policy-Keeps, remove_group-Keeps, rename_group-Keeps,
  add_subscriptions-Keeps, del_subscriptions-Keeps, add_nodes-Keeps, del_nodes-Keeps,
}
use dae_wing.Mutations.Runs.{run-Keeps}
use dae_wing.Mutations.Selections.{
  create_config-Keeps, update_config-Keeps, remove_config-Keeps, rename_config-Keeps,
  select_config-Keeps, create_dns-Keeps, update_dns-Keeps, remove_dns-Keeps, rename_dns-Keeps,
  select_dns-Keeps, create_routing-Keeps, update_routing-Keeps, remove_routing-Keeps,
  rename_routing-Keeps, select_routing-Keeps,
}
use dae_wing.Mutations.Services.{
  import_nodes-Keeps, update_node-Keeps, remove_nodes-Keeps, tag_node-Keeps,
  import_subscription-Keeps, update_subscription-Keeps, remove_rows-Keeps, tag_subscription-Keeps,
  update_link-Keeps, write_cron-Keeps,
}
use dae_wing.Mutations.Sound.{IsSound}
use dae_wing.Services.Schedulers.{World, Cache, remove_subscriptions, update_cron, write_cron}
use dae_wing.Services.Subscriptions.{remove_rows, import_subscription}
use dae_wing.Store.Engine.{Engine}
use dae_wing.Store.Models.{Db}
use dae_wing.Store.Exec.{Exec, transaction}
use dae_wing.Store.Frames.{Keeps}

module _ ⦃E : Engine⦄ ⦃D : Dae⦄ (o : Environment) where
  answer-Keeps :
      {A : Type 0} (f : A → Answer) (m : Exec A)
      → Keeps (Holds IsSound) m
      → Keeps (Holds IsSound) (answer o f m)
  answer-Keeps f m h = block-Keeps (Holds IsSound) m _ h (λ a s p. p)

  ruleset services = (
    answer-Keeps, rollback-Keeps, groups-IsElsewhere, group_nodes-IsElsewhere,
    group_subscriptions-IsElsewhere, policy_params-IsElsewhere, create_group-Keeps,
    set_policy-Keeps, remove_group-Keeps, rename_group-Keeps, add_subscriptions-Keeps,
    del_subscriptions-Keeps, add_nodes-Keeps, del_nodes-Keeps, run-Keeps, create_config-Keeps,
    update_config-Keeps, remove_config-Keeps, rename_config-Keeps, select_config-Keeps,
    create_dns-Keeps, update_dns-Keeps, remove_dns-Keeps, rename_dns-Keeps, select_dns-Keeps,
    create_routing-Keeps, update_routing-Keeps, remove_routing-Keeps, rename_routing-Keeps,
    select_routing-Keeps, import_nodes-Keeps, update_node-Keeps, remove_nodes-Keeps, tag_node-Keeps,
    update_subscription-Keeps, tag_subscription-Keeps, update_link-Keeps,
  )

  perform_section-Keeps : (q : SectionCall) → Keeps (Holds IsSound) (perform_section o q)
  unfolding perform_section
  perform_section-Keeps (SectionCall.create_config_call name global) = search services
  perform_section-Keeps (SectionCall.update_config_call id global) = search services
  perform_section-Keeps (SectionCall.rename_config_call id name) = search services
  perform_section-Keeps (SectionCall.remove_config_call id) = search services
  perform_section-Keeps (SectionCall.select_config_call id) = search services
  perform_section-Keeps (SectionCall.run_call dry) = search services
  perform_section-Keeps (SectionCall.create_dns_call name text) = search services
  perform_section-Keeps (SectionCall.update_dns_call id text) = search services
  perform_section-Keeps (SectionCall.rename_dns_call id name) = search services
  perform_section-Keeps (SectionCall.remove_dns_call id) = search services
  perform_section-Keeps (SectionCall.select_dns_call id) = search services
  perform_section-Keeps (SectionCall.create_routing_call name text) = search services
  perform_section-Keeps (SectionCall.update_routing_call id text) = search services
  perform_section-Keeps (SectionCall.rename_routing_call id name) = search services
  perform_section-Keeps (SectionCall.remove_routing_call id) = search services
  perform_section-Keeps (SectionCall.select_routing_call id) = search services

  perform_node-Keeps : (q : NodeCall) → Keeps (Holds IsSound) (perform_node o q)
  unfolding perform_node
  perform_node-Keeps (NodeCall.import_nodes_call abort args) = search services
  perform_node-Keeps (NodeCall.update_node_call id link) = search services
  perform_node-Keeps (NodeCall.remove_nodes_call ids) = search services
  perform_node-Keeps (NodeCall.tag_node_call id tag) = search services
  perform_node-Keeps (NodeCall.update_subscription_call id) = search services
  perform_node-Keeps (NodeCall.update_link_call id link) = search services
  perform_node-Keeps (NodeCall.tag_subscription_call id tag) = search services

  perform_group-Keeps : (q : GroupCall) → Keeps (Holds IsSound) (perform_group o q)
  unfolding perform_group
  perform_group-Keeps (GroupCall.create_group_call name policy params) = search services
  perform_group-Keeps (GroupCall.set_policy_call id policy params) = search services
  perform_group-Keeps (GroupCall.remove_group_call id) = search services
  perform_group-Keeps (GroupCall.rename_group_call id name) = search services
  perform_group-Keeps (GroupCall.add_subscriptions_call id subs filter) = search services
  perform_group-Keeps (GroupCall.del_subscriptions_call id subs) = search services
  perform_group-Keeps (GroupCall.add_nodes_call id ns) = search services
  perform_group-Keeps (GroupCall.del_nodes_call id ns) = search services

  told-state : {A : Type 0} (f : A → Answer) (q : Result A × World) → (told o f q).1 ≡ q.1
  told-state f (ok a, w) = refl
  told-state f (err e, w) = refl

  with_update_all-state :
      {A : Type 0} (q : Result A × Db E) (c : Cache) → (with_update_all o q c).1.0 ≡ q.1
  with_update_all-state (ok a, s) c = refl
  with_update_all-state (err e, s) c = refl

  update_cron-state :
      (valid : Text → Bool) (cursor exp : Text) (enable : Bool) (s : Db E) (c : Cache)
      → ((update_cron valid cursor exp enable (s, c)).1.0 ≡ s)
        ⊎ ((id : ℕ) × ((update_cron valid cursor exp enable (s, c)).1.0
              ≡ (transaction (write_cron id exp enable) s).1))
  unfolding update_cron
  update_cron-state valid cursor exp enable s c = elim (Result-cases (decode_cursor cursor)) [
    | inr (e, bad) ↦ inl (ground (arith, bad))
    | inl (id, decoded) ↦ elim (Bool-cases (enable && (not (text_eq exp []) && not (valid exp)))) [
      | inl refused ↦ inl (ground (arith, decoded, refused))
      | inr fine ↦ elim (Result-cases (transaction (write_cron id exp enable) s).0) [
        | inl (m, e) ↦ inr (id, ground (arith, decoded, fine, e))
        | inr (x, e) ↦ inr (id, ground (arith, decoded, fine, e))
      ]
    ]
  ]

  remove_subscriptions-state :
      (cursors : List Text) (s : Db E) (c : Cache)
      → ((remove_subscriptions cursors (s, c)).1.0 ≡ s)
        ⊎ ((ids : List ℕ) × ((remove_subscriptions cursors (s, c)).1.0
              ≡ (transaction (remove_rows ids) s).1))
  unfolding remove_subscriptions
  remove_subscriptions-state cursors s c = elim (Result-cases (decode_cursor_batch cursors)) [
    | inr (e, bad) ↦ inl (ground (arith, bad))
    | inl (ids, decoded) ↦ elim (Result-cases (transaction (remove_rows ids) s).0) [
      | inl (n, e) ↦ inr (ids, ground (arith, decoded, e))
      | inr (x, e) ↦ inr (ids, ground (arith, decoded, e))
    ]
  ]

  mutate-IsSound :
      (q : Mutation) (s : Db E) (c : Cache)
      → Holds IsSound s
      → Holds IsSound (mutate o q (s, c)).1.0
  unfolding mutate
  mutate-IsSound (Mutation.section_call q) s c h = perform_section-Keeps q s h
  mutate-IsSound (Mutation.node_call q) s c h = perform_node-Keeps q s h
  mutate-IsSound (Mutation.group_call q) s c h = perform_group-Keeps q s h
  mutate-IsSound (Mutation.import_subscription_call abort arg) s c h =
      let m = import_subscription o.net o.dialer o.now abort arg in
      let done = with_update_all o (transaction m s) c in
      rw
        (ap (λ w. w.0) (told-state Answer.imported_subscription done)
          ∙ with_update_all-state (transaction m s) c)
        (rollback-Keeps (Holds IsSound) m
          (import_subscription-Keeps IsSound o.net o.dialer o.now abort arg) s h)
  mutate-IsSound (Mutation.update_cron_call id exp enable) s c h =
      let done = update_cron o.valid_cron id exp enable (s, c) in
      let told_same = ap (λ (w : World). w.0) (told-state Answer.subscription done) in
      elim (update_cron-state o.valid_cron id exp enable s c) [
        | inl same ↦ rw (told_same ∙ same) h
        | inr (n, same) ↦ rw (told_same ∙ same) (
            rollback-Keeps (Holds IsSound) (write_cron n exp enable)
              (write_cron-Keeps IsSound n exp enable) s h)
      ]
  mutate-IsSound (Mutation.remove_subscriptions_call ids) s c h =
      let done = remove_subscriptions ids (s, c) in
      let told_same = ap (λ (w : World). w.0) (told-state Answer.count done) in
      elim (remove_subscriptions-state ids s c) [
        | inl same ↦ rw (told_same ∙ same) h
        | inr (ns, same) ↦
            rw (told_same ∙ same)
              (rollback-Keeps (Holds IsSound) (remove_rows ns) (remove_rows-Keeps IsSound ns) s h)
      ]

module _ ⦃E : Engine⦄ ⦃D : Dae⦄ where
  -- If no identifier stands twice and one row at most is selected in each of the tables of the
  -- configs, the dns sections and the routings, this is still so after any sequence of mutations of
  -- the API, of whatever kinds and arguments and in whatever environments, the failing ones
  -- included.
  pub mutate_all-IsSound :
      (qs : List (Environment × Mutation)) (s : Db E) (c : Cache)
      → IsSound s.configs s.dnss s.routings
      → let s' = (mutate_all qs (s, c)).0 in IsSound s'.configs s'.dnss s'.routings
  unfolding mutate_all
  mutate_all-IsSound [] s c h = h
  mutate_all-IsSound ((o, q) ∷ qs) s c h =
      let w = (mutate o q (s, c)).1 in mutate_all-IsSound qs w.0 w.1 (mutate-IsSound o q s c h)
