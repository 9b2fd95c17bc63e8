-- ===== src/Running/Sections.antt =====
-- The group sections of an assembled configuration: what they filter by, and how many nodes.
use mathlib.Core.Path.{subst}
use dae_wing.Base.{
  ℕ, ◌≡◌, refl, sym, ap, ◌∙◌, inl, inr, Bool, true, false, not, ◌||◌, List, [], ◌∷◌, ◌++◌, map,
  Text, codes, text_eq, text_eq_refl, member, any, elem, length, filter_by, All, ◌==◌, ok,
  Result-cases, arith,
}
use dae_wing.Base.Lists.{length-map}
use dae_wing.Dae.{Dae, DaeGroup, Param, Policy, Conf}
use dae_wing.Nodes.Names.{MapOrder, NodeRef}
use dae_wing.Nodes.Dedup.{any-perm}
use dae_wing.Running.Filled.{fill_config-Filled}
use dae_wing.Running.Groups.{
  LoadedGroup, nodes_in, policy_of, positions, node_line, group_section, group_sections,
}
use dae_wing.Running.Run.{Outside, fill_config}
use dae_wing.Store.Engine.{Engine}
use dae_wing.Store.Models.{Db, Group, GroupPolicyParam}

abbrev pub policy_name : Policy → Text
policy_name (Policy.plain name) = name
policy_name (Policy.function name negated params) = name

abbrev pub unique_names : List NodeRef → List Text
unique_names = map (λ n. n.unique_name)

-- A section that can be served by nodes of these names: it has a node, only names of these, and
-- one node alone if its policy is `fixed`.
pub record Served (names : List Text) (sec : DaeGroup) : Type 0 where
  pub not_empty : (length sec.filter_names == 0) ≡ false
  pub known_names : any (λ p. not (member p.val names)) sec.filter_names ≡ false
  pub one_if_fixed :
      (not (text_eq (policy_name sec.policy) (codes "fixed")) || length sec.filter_names == 1)
      ≡ true

any-names :
    (l : List NodeRef) (names : List Text)
    → ((t : Text) → member t (unique_names l) ≡ true → member t names ≡ true)
    → any (λ n. not (member n.unique_name names)) l ≡ false
any-names [] names h = refl
any-names (n ∷ l) names h =
    let here = h n.unique_name (ground (arith, text_eq_refl n.unique_name)) in
    ground (arith, here, any-names l names (λ t m. h t (ground arith)))

any-filter_by-false {ℓ} :
    {A : Type ℓ} (q p : A → Bool) (l : List A) → any q l ≡ false → any q (filter_by p l) ≡ false
any-filter_by-false q p [] h = refl
any-filter_by-false q p (x ∷ l) h = ground (arith, any-filter_by-false q p l)

any-map {ℓ} :
    {A B : Type ℓ} (q : B → Bool) (f : A → B) (l : List A) → any q (map f l) ≡ any (λ x. q (f x)) l
any-map q f [] = refl
any-map q f (x ∷ l) = rw (any-map q f l)

policy_name-by_params :
    (g : LoadedGroup) (ps : List GroupPolicyParam)
    → g.params ≡ ps
    → policy_name (policy_of g) ≡ g.group.policy
policy_name-by_params g [] e = ground (arith, e)
policy_name-by_params g (p ∷ ps) e = ground (arith, e)

known_nodes :
    (m : MapOrder) (nodes : List NodeRef) (i : ℕ)
    → any (λ n. not (member n.unique_name (unique_names nodes))) (m.order (nodes_in i nodes))
      ≡ false
known_nodes m nodes i =
    let q : NodeRef → Bool = λ n. not (member n.unique_name (unique_names nodes)) in
    any-perm q (m.order-perm (nodes_in i nodes))
    ∙ any-filter_by-false q (λ n. elem i n.groups) nodes
        (any-names nodes (unique_names nodes) (λ t h. h))

group_section-Served :
    (m : MapOrder) (nodes : List NodeRef) (i : ℕ) (g : LoadedGroup) (sec : DaeGroup)
    → group_section m nodes i g ≡ ok sec
    → Served (unique_names nodes) sec
unfolding group_section
group_section-Served m nodes i g sec h =
    let inside = m.order (nodes_in i nodes) in
    let name_param : NodeRef → Param = λ n. record { key = []; val = n.unique_name } in
    let len = length-map name_param inside in
    let known =
      any-map (λ p. not (member p.val (unique_names nodes))) name_param inside
      ∙ known_nodes m nodes i in
    let policy = policy_name-by_params g g.params refl in
    record {
      not_empty = ground (arith, len);
      known_names = ground (arith, known);
      one_if_fixed = ground (arith, len, policy);
    }

group_sections-Served :
    (m : MapOrder) (nodes : List NodeRef) (l : List (ℕ × LoadedGroup)) (secs : List DaeGroup)
    → group_sections m nodes l ≡ ok secs
    → All (Served (unique_names nodes)) secs
unfolding group_sections
group_sections-Served m nodes [] [] h = tt
group_sections-Served m nodes [] (s ∷ secs) h = absurd (ground arith)
group_sections-Served m nodes ((i, g) ∷ l) secs h =
    elim (Result-cases (group_section m nodes i g)) [
      | inr (e, failed) ↦ absurd (ground arith)
      | inl (sec, made) ↦ elim (Result-cases (group_sections m nodes l)) [
        | inr (e, failed) ↦ absurd (ground arith)
        | inl (rest, others) ↦
            let whole : secs ≡ sec ∷ rest = ground arith in
            subst (All (Served (unique_names nodes))) (sym whole) (
              group_section-Served m nodes i g sec made,
              group_sections-Served m nodes l rest others,
            )
      ]
    ]

module _ ⦃E : Engine⦄ ⦃D : Dae⦄ (o : Outside) where
  -- Where `Run` assembles the configuration without an error, it adds nodes and group sections to
  -- the parsed one. Each section that it adds has at least one node, filters by names of nodes that
  -- it adds only, and has one node alone if its policy is `fixed`.
  pub fill_config-Served :
      (c conf : Conf) (gs : List Group) (s s1 : Db E)
      → fill_config o c s ≡ (ok (conf, gs), s1)
      → (named : List NodeRef) × (conf.node ≡ c.node ++ map node_line named)
        × (secs : List DaeGroup) × (conf.group ≡ c.group ++ secs)
        × All (Served (unique_names named)) secs
  fill_config-Served c conf gs s s1 h =
      let f = fill_config-Filled o c conf gs s s1 h in
      (
        f.named,
        ap (λ (x : Conf). x.node) f.conf_is,
        f.sections,
        ap (λ (x : Conf). x.group) f.conf_is,
        group_sections-Served o.maps f.named (o.maps.order (positions 0 f.loaded_groups)) f.sections
            f.sections_are,
      )
