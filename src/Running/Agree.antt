-- ===== src/Running/Agree.antt =====
-- `Run` and `Modified` agree: what has just been started is not modified, if it uses a group.
use mathlib.Core.Path.{subst₂}
use dae_wing.Base.{
  ℕ, ◌≡◌, refl, ap, ◌∙◌, inl, inr, Bool, true, false, Option, none, some, List, [], ◌∷◌, map, Text,
  member, text_eq_refl, length, elem, any, filter_by, ◌==◌, ==-refl, Result, ok, err, Error,
  Result-cases, arith,
}
use dae_wing.Dae.{Dae, Conf, parse_config, necessary_outbounds}
use dae_wing.Nodes.Names.{Regexp, NodeRef}
use dae_wing.Running.Filled.{fill_config-Filled}
use dae_wing.Running.Groups.{LoadedGroup, positions, bound_nodes, group_ids_text, version_sum}
use dae_wing.Running.Keys.{
  join_system, version_sum-join_system, group_ids_text-join_system, length-join_system,
}
use dae_wing.Running.Save.{running_system}
use dae_wing.Running.Fresh.{filter_by-true, is_not_found-eq, Saved, save_running-Saved}
use dae_wing.Running.Run.{
  Outside, answer, selected_row, loaded, load_groups, solitary_nodes, collect_nodes, fill_config,
  start_selected, run_selected, run,
}
use dae_wing.Running.Modified.{is_modified}
use dae_wing.Services.Nodes.{sql_eq, first_system}
use dae_wing.Store.Engine.{Engine}
use dae_wing.Store.Models.{Db, Config, Dns, Routing, Node, Group, System}
use dae_wing.Store.Laws.{bind-ok, lift-bind-ok, find-ok}
use dae_wing.Store.Exec.{
  TableOf, ◌>>=◌, configs, dnss, routings, groups, group_subscriptions, policy_params,
  subscriptions, nodes, find, first,
}

map-same {ℓ} :
    {A B : Type ℓ} (f : A → B) (g : B → A) (xs : List A)
    → ((x : A) → g (f x) ≡ x)
    → map g (map f xs) ≡ xs
map-same f g [] h = refl
map-same f g (x ∷ xs) h = ground (arith, h x, map-same f g xs h)

module _ ⦃E : Engine⦄ where
  first_system-fails :
      (s s1 : Db E) (y x : System) (rest : List System) (e : Error)
      → E.rows s.systems ≡ x ∷ rest
      → E.find s.systems (λ _. true) ≡ err e
      → first_system s ≡ (ok y, s1)
      → ⊥
  unfolding first_system
  first_system-fails s s1 y x rest e rows failed h =
      ground (arith, E.find-ne-not_found s.systems (λ _. true), is_not_found-eq e)

  -- Where there is a system already, it is found, and nothing is created.
  pub first_system-head :
      (s s1 : Db E) (x y : System) (rest : List System)
      → E.rows s.systems ≡ x ∷ rest
      → first_system s ≡ (ok y, s1)
      → (y ≡ x) × (s1 ≡ s)
  unfolding first_system
  first_system-head s s1 x y rest rows h = elim (Result-cases (E.find s.systems (λ _. true))) [
    | inr (e, failed) ↦ absurd (first_system-fails s s1 y x rest e rows failed h)
    | inl (l, found) ↦
        let whole = E.find-rows s.systems (λ _. true) l found in
        let same : l ≡ x ∷ rest = whole ∙ filter_by-true (E.rows s.systems) ∙ rows in
        ground (arith, same, found)
  ]

  -- The reading of the groups changes nothing and keeps their order.
  load_groups-ok :
      (outbounds : List Text) (s s1 : Db E) (ls : List LoadedGroup)
      → load_groups outbounds s ≡ (ok ls, s1)
      → (map (λ l. l.group) ls ≡ filter_by (λ g. member g.name outbounds) (E.rows s.groups))
        × (s1 ≡ s)
  unfolding load_groups
  load_groups-ok outbounds s s1 ls h =
      let (gs, t1, h1, k1) = bind-ok (find groups (λ g. member g.name outbounds)) _ s s1 ls h in
      let (e1, same1) = find-ok groups (λ g. member g.name outbounds) s t1 gs h1 in
      let (params, t2, h2, k2) =
        bind-ok (find policy_params (λ p. elem p.group_id (map (λ g. g.id) gs))) _ t1 s1 ls k1 in
      let (bindings, t3, h3, k3) =
        bind-ok (find group_subscriptions (λ b. elem b.group_id (map (λ g. g.id) gs))) _ t2 s1 ls
          k2 in
      let (subs, t4, h4, k4) =
        bind-ok (find subscriptions (λ r. any (λ b. b.subscription_id == r.id) bindings)) _ t3 s1 ls
          k3 in
      let (ns, t5, h5, k5) =
        bind-ok (find nodes (λ n. any (λ r. sql_eq n.subscription_id (some r.id)) subs)) _ t4 s1 ls
          k4 in
      let back = map-same (loaded params bindings ns) (λ l. l.group) gs (λ g. refl) in
      (ground (arith, e1, back), ground arith)

  solitary_nodes-same :
      (id : ℕ) (s s1 : Db E) (ns : List Node) → solitary_nodes id s ≡ (ok ns, s1) → s1 ≡ s
  unfolding solitary_nodes
  solitary_nodes-same id s s1 ns h = ground arith

  collect_nodes-same :
      (re : Regexp) (l : List (ℕ × LoadedGroup)) (s s1 : Db E) (ns : List NodeRef)
      → collect_nodes re l s ≡ (ok ns, s1)
      → s1 ≡ s
  unfolding collect_nodes
  collect_nodes-same re [] s s1 ns h = ground arith
  collect_nodes-same re ((i, g) ∷ l) s s1 ns h =
      let (bound, e0, k0) = lift-bind-ok (bound_nodes re i g.bindings) _ s s1 ns h in
      let (alone, t1, h1, k1) = bind-ok (solitary_nodes g.group.id) _ s s1 ns k0 in
      let (more, t2, h2, k2) = bind-ok (collect_nodes re l) _ t1 s1 ns k1 in
      cc (
        solitary_nodes-same g.group.id s t1 alone h1,
        collect_nodes-same re l t1 t2 more h2,
        ap (λ (x : Result (List NodeRef) × Db E). x.1) k2,
      )

  pub is_modified-running :
      (c : Config) (d : Dns) (r : Routing) (gs : List Group) (sys : System)
      → is_modified (running_system c d r gs sys) c d r (map (join_system sys.id) gs)
        ≡ (length gs == 0)
  is_modified-running c d r gs sys = ground (
    arith,
    ==-refl c.id,
    ==-refl c.version,
    ==-refl d.id,
    ==-refl d.version,
    ==-refl r.id,
    ==-refl r.version,
    ==-refl (version_sum gs),
    text_eq_refl (group_ids_text gs),
    version_sum-join_system sys.id gs,
    group_ids_text-join_system sys.id gs,
    length-join_system sys.id gs,
  )

  module _ ⦃D : Dae⦄ (o : Outside) where
    -- The groups that go into the configuration are those that the routing names, in order.
    fill_config-ok :
        (c conf : Conf) (gs : List Group) (s s1 : Db E)
        → fill_config o c s ≡ (ok (conf, gs), s1)
        → (gs ≡ filter_by (λ g. member g.name (necessary_outbounds c.routing)) (E.rows s.groups))
          × (s1 ≡ s)
    fill_config-ok c conf gs s s1 h =
        let f = fill_config-Filled o c conf gs s s1 h in
        let (e1, same1) =
          load_groups-ok (necessary_outbounds c.routing) s f.after_load f.loaded_groups
            f.loaded_are in
        let same2 =
          collect_nodes-same o.regexp (positions 0 f.loaded_groups) f.after_load s1 f.collected
            f.collected_are in
        (f.groups_are ∙ e1, same2 ∙ same1)

    -- the groups that a configuration uses
    abbrev pub used_groups : Conf → Db E → List Group
    used_groups c s =
        filter_by (λ g. member g.name (necessary_outbounds c.routing)) (E.rows s.groups)

    -- what a successful run has read and written
    pub record Started (s s' : Db E) : Type 0 where
      pub config : Config
      pub dns : Dns
      pub routing : Routing
      pub parsed : Conf
      pub config_is : first configs (λ r. r.selected) s ≡ (ok config, s)
      pub dns_is : first dnss (λ r. r.selected) s ≡ (ok dns, s)
      pub routing_is : first routings (λ r. r.selected) s ≡ (ok routing, s)
      pub parsed_is :
          parse_config (some config.global) (some dns.dns) (some routing.routing) ≡ ok parsed
      pub conf : Conf
      pub used : List Group
      pub filled : fill_config o parsed s ≡ (ok (conf, used), s)
      pub reloaded : o.reload conf ≡ none
      pub saved : Saved s s' config dns routing (used_groups parsed s)

    answer-ok : (q : Option Error) (u : Unit {0}) → answer o q ≡ ok u → q ≡ none
    answer-ok none u h = refl
    answer-ok (some e) u h = absurd (cc)

    start_selected-ok :
        (c : Config) (d : Dns) (r : Routing) (s s' : Db E) (n : ℕ)
        → start_selected o c d r s ≡ (ok n, s')
        → (parsed : Conf) × (parse_config (some c.global) (some d.dns) (some r.routing) ≡ ok parsed)
          × (conf : Conf) × (gs : List Group) × (fill_config o parsed s ≡ (ok (conf, gs), s))
          × (o.reload conf ≡ none)
          × Saved s s' c d r (used_groups parsed s)
    unfolding start_selected
    start_selected-ok c d r s s' n h =
        let (parsed, e1, k1) =
          lift-bind-ok (parse_config (some c.global) (some d.dns) (some r.routing)) _ s s' n h in
        let ((conf, gs), s2, h2, k2) = bind-ok (fill_config o parsed) _ s s' n k1 in
        let (gs_are, same) = fill_config-ok parsed conf gs s s2 h2 in
        let (u, e3, k3) = lift-bind-ok (answer o (o.reload conf)) _ s2 s' n k2 in
        (
          parsed,
          e1,
          conf,
          gs,
          h2 ∙ ap (λ x. (ok (conf, gs), x)) same,
          answer-ok (o.reload conf) u e3,
          subst₂ (λ (x : Db E) (l : List Group). Saved x s' c d r l) same gs_are
              (save_running-Saved s2 s' c d r gs n k3),
        )

    selected_row-ok :
        {R : Type 0} (T : TableOf R) (p : R → Bool) (e : Error) (s s1 : Db E) (r : R)
        → selected_row T p e s ≡ (ok r, s1)
        → (first T p s ≡ (ok r, s)) × (s1 ≡ s)
    selected_row-ok T p e s s1 r h = (ground arith, ground arith)

    from_dns-Started :
        (s s' : Db E) (n : ℕ) (c : Config) (d : Dns)
        → first configs (λ r. r.selected) s ≡ (ok c, s)
        → first dnss (λ r. r.selected) s ≡ (ok d, s)
        → (selected_row routings (λ r. r.selected) Error.no_selected_routing
              >>= start_selected o c d)
            s
          ≡ (ok n, s')
        → Started s s'
    from_dns-Started s s' n c d fc fd k2 =
        let (r, s3, h3, k3) =
          bind-ok (selected_row routings (λ r. r.selected) Error.no_selected_routing)
            (start_selected o c d) s s' n k2 in
        let (fr, same3) =
          selected_row-ok routings (λ r. r.selected) Error.no_selected_routing s s3 r h3 in
        let (parsed, parses, conf, used, filled, reloaded, saved) =
          start_selected-ok c d r s s' n (rw same3 at k3) in
        record {
          config = c;
          dns = d;
          routing = r;
          parsed = parsed;
          config_is = fc;
          dns_is = fd;
          routing_is = fr;
          parsed_is = parses;
          conf = conf;
          used = used;
          filled = filled;
          reloaded = reloaded;
          saved = saved;
        }

    from_config-Started :
        (s s' : Db E) (n : ℕ) (c : Config)
        → first configs (λ r. r.selected) s ≡ (ok c, s)
        → (selected_row dnss (λ r. r.selected) Error.no_selected_dns >>= λ d.
              selected_row routings (λ r. r.selected) Error.no_selected_routing
              >>= start_selected o c d)
            s
          ≡ (ok n, s')
        → Started s s'
    from_config-Started s s' n c fc k1 =
        let (d, s2, h2, k2) =
          bind-ok (selected_row dnss (λ r. r.selected) Error.no_selected_dns) _ s s' n k1 in
        let (fd, same2) = selected_row-ok dnss (λ r. r.selected) Error.no_selected_dns s s2 d h2 in
        from_dns-Started s s' n c d fc fd (rw same2 at k2)

    pub run-Started : (s s' : Db E) (n : ℕ) → run o false false s ≡ (ok n, s') → Started s s'
    unfolding run run_selected
    run-Started s s' n h =
        let (c, s1, h1, k1) =
          bind-ok (selected_row configs (λ r. r.selected) Error.no_selected_config) _ s s' n h in
        let (fc, same1) =
          selected_row-ok configs (λ r. r.selected) Error.no_selected_config s s1 c h1 in
        from_config-Started s s' n c fc (rw same1 at k1)
