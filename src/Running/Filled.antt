-- ===== src/Running/Filled.antt =====
-- The steps of `Run` between the parsed sections and the reload, taken apart.
use dae_wing.Base.{◌≡◌, sym, ap, ◌∙◌, Option, none, some, List, ◌++◌, map, ok, arith}
use dae_wing.Dae.{Dae, DaeGroup, Conf, necessary_outbounds}
use dae_wing.Nodes.Names.{NodeRef, deduplicate_nodes, uniquefy_nodes_name}
use dae_wing.Running.Groups.{LoadedGroup, not_found_names, positions, group_sections, node_line}
use dae_wing.Running.Run.{
  Outside, missing_groups, all_named, load_groups, collect_nodes, fill_config,
}
use dae_wing.Store.Engine.{Engine}
use dae_wing.Store.Laws.{bind-ok, lift-bind-ok, pure-ok}
use dae_wing.Store.Models.{Db, Group}

module _ ⦃E : Engine⦄ ⦃D : Dae⦄ (o : Outside) where
  -- what the steps have computed where all of them succeed
  pub record Filled (c conf : Conf) (gs : List Group) (s s1 : Db E) : Type 0 where
    pub loaded_groups : List LoadedGroup
    pub after_load : Db E
    pub collected : List NodeRef
    pub named : List NodeRef
    pub sections : List DaeGroup
    pub loaded_are : load_groups (necessary_outbounds c.routing) s ≡ (ok loaded_groups, after_load)
    pub none_missing :
        missing_groups o (not_found_names o.maps (necessary_outbounds c.routing) loaded_groups)
        ≡ ok tt
    pub collected_are :
        collect_nodes o.regexp (positions 0 loaded_groups) after_load ≡ (ok collected, s1)
    pub named_are : uniquefy_nodes_name (deduplicate_nodes o.maps collected) ≡ some named
    pub sections_are :
        group_sections o.maps named (o.maps.order (positions 0 loaded_groups)) ≡ ok sections
    pub conf_is :
        conf ≡ record c { group = c.group ++ sections; node = c.node ++ map node_line named }
    pub groups_are : gs ≡ map (λ g. g.group) loaded_groups

  named-some : (r : Option (List NodeRef)) (l : List NodeRef) → all_named o r ≡ ok l → r ≡ some l
  named-some none l h = absurd (cc)
  named-some (some x) l h = ground arith

  pub fill_config-Filled :
      (c conf : Conf) (gs : List Group) (s s1 : Db E)
      → fill_config o c s ≡ (ok (conf, gs), s1)
      → Filled c conf gs s s1
  unfolding fill_config
  fill_config-Filled c conf gs s s1 h =
      let outbounds = necessary_outbounds c.routing in
      let (ls, t1, h1, k1) = bind-ok (load_groups outbounds) _ s s1 (conf, gs) h in
      let (u, m1, k2) =
        lift-bind-ok (missing_groups o (not_found_names o.maps outbounds ls)) _ t1 s1 (conf, gs)
          k1 in
      let (ns, t2, h2, k3) =
        bind-ok (collect_nodes o.regexp (positions 0 ls)) _ t1 s1 (conf, gs) k2 in
      let (named, m2, k4) =
        lift-bind-ok (all_named o (uniquefy_nodes_name (deduplicate_nodes o.maps ns))) _ t2 s1
          (conf, gs) k3 in
      let (sections, m3, k5) =
        lift-bind-ok (group_sections o.maps named (o.maps.order (positions 0 ls))) _ t2 s1
          (conf, gs) k4 in
      let (made, same) =
        pure-ok
          (
            record c { group = c.group ++ sections; node = c.node ++ map node_line named },
            map (λ g. g.group) ls,
          )
          (conf, gs) t2 s1 k5 in
      record {
        loaded_groups = ls;
        after_load = t1;
        collected = ns;
        named = named;
        sections = sections;
        loaded_are = h1;
        none_missing = m1;
        collected_are = h2 ∙ ap (λ (x : Db E). (ok ns, x)) (sym same);
        named_are = named-some (uniquefy_nodes_name (deduplicate_nodes o.maps ns)) named m2;
        sections_are = m3;
        conf_is = ap (λ (x : Conf × List Group). x.0) made;
        groups_are = ap (λ (x : Conf × List Group). x.1) made;
      }
