-- ===== src/Resolvers/Groups/Shown.antt =====
-- What the API shows of a group is what `Run` reads of it.
use dae_wing.Base.{
  ℕ, ◌≡◌, refl, ap, sym, ◌∙◌, inl, inr, Bool, true, Option, none, some, List, [], ◌∷◌, ◌++◌, map,
  Text, text_eq, get_elem?, elem, member, filter_by, ◌==◌, ==-true, Bool-cases, Result, ok, err,
  Result-cases, arith,
}
use mathlib.Core.List.{map-append}
use dae_wing.Dae.{Param}
use dae_wing.Nodes.Names.{Regexp, NodeRef, matched_nodes}
use dae_wing.Resolvers.Groups.{
  Binding, matching, matched_nodes_for_binding, matched_nodes_of, with_nodes,
  group_subscriptions_of, policy_params_of,
}
use dae_wing.Resolvers.Groups.Loaded.{
  filter_by-narrow, get_elem?-map, elem-get_elem?, of_any, read_subscriptions, bindings-agree,
}
use dae_wing.Running.Groups.{LoadedGroup, node_ref, bound_nodes, marshal_param}
use dae_wing.Running.Run.{load_groups}
use dae_wing.Store.Engine.{Engine}
use dae_wing.Store.Laws.{pure-ok, find-bind-ok}
use dae_wing.Store.Models.{Node, Group, GroupSubscription, GroupPolicyParam, Db}
use dae_wing.Store.Exec.{nodes, subscriptions, groups, group_subscriptions, policy_params}

-- the nodes that match the bindings of a group, in the order of the bindings
abbrev pub joined : Result (List Node) → Result (List Node) → Result (List Node)
joined (err e) rest = err e
joined (ok l) (err e) = err e
joined (ok l) (ok rest) = ok (l ++ rest)

abbrev pub shown_nodes : Regexp → List Binding → Result (List Node)
shown_nodes re [] = ok []
shown_nodes re (b ∷ bs) = joined (matched_nodes_of re b) (shown_nodes re bs)

matching-filter_by :
    (f : Text → Bool) (ns : List Node) → matching f ns ≡ filter_by (λ n. f n.name) ns
unfolding matching
matching-filter_by f [] = refl
matching-filter_by f (n ∷ ns) = ground (arith, matching-filter_by f ns)

filtered-ok :
    (re : Regexp) (b : GroupSubscription) (f : Text) (ns matched : List Node)
    → matched_nodes re (some f) ns ≡ ok matched
    → matched_nodes_for_binding re (record b { name_filter_regex = some f }, ns) ≡ ok matched
unfolding matched_nodes_for_binding matched_nodes
filtered-ok re b f ns matched h = elim (Bool-cases (text_eq f [])) [
  | inl empty ↦ ground (arith, empty)
  | inr filter ↦ elim (Result-cases (re.compile f)) [
    | inr (e, failed) ↦ absurd (ground (arith, filter, failed))
    | inl (m, compiled) ↦ ground (arith, filter, compiled, matching-filter_by m ns)
  ]
]

-- the same nodes match a binding here and in `Run`
matched-ok :
    (re : Regexp) (b : GroupSubscription) (o : Option Text) (ns matched : List Node)
    → matched_nodes re o ns ≡ ok matched
    → matched_nodes_of re (record b { name_filter_regex = o }, ns) ≡ ok matched
unfolding matched_nodes_of matched_nodes_for_binding matched_nodes
matched-ok re b none ns matched h = h
matched-ok re b (some f) ns matched h = filtered-ok re b f ns matched h

db_nodes-node_ref :
    (i : ℕ) (l : List Node) → map (λ (n : NodeRef). n.db_node) (map (node_ref i) l) ≡ l
db_nodes-node_ref i [] = refl
db_nodes-node_ref i (n ∷ l) = ap (λ k. n ∷ k) (db_nodes-node_ref i l)

-- what the bindings bring into `Run` is what they show
bound_nodes-shown :
    (re : Regexp) (i : ℕ) (bs : List Binding) (refs : List NodeRef)
    → bound_nodes re i bs ≡ ok refs
    → shown_nodes re bs ≡ ok (map (λ n. n.db_node) refs)
unfolding bound_nodes
bound_nodes-shown re i [] refs h = let none_bound : refs ≡ [] = ground arith in rw none_bound refl
bound_nodes-shown re i ((b, ns) ∷ bs) refs h =
    elim (Result-cases (matched_nodes re b.name_filter_regex ns)) [
      | inr (e, failed) ↦ absurd (ground (arith, failed))
      | inl (matched, e) ↦ elim (Result-cases (bound_nodes re i bs)) [
        | inr (x, failed) ↦ absurd (ground (arith, e, failed))
        | inl (rest, k) ↦
            let here = matched-ok re b b.name_filter_regex ns matched e in
            let later = bound_nodes-shown re i bs rest k in
            let all : refs ≡ map (node_ref i) matched ++ rest = ground (arith, e, k) in
            let names = map-append (λ (n : NodeRef). n.db_node) (map (node_ref i) matched) rest in
            ap (λ r. joined r (shown_nodes re bs)) here
            ∙ ap (joined (ok matched)) later
            ∙ ap ok (
                sym (
                  ap (map (λ n. n.db_node)) all
                  ∙ names
                  ∙ ap (λ l. l ++ map (λ n. n.db_node) rest) (db_nodes-node_ref i matched)))
      ]
    ]

-- the rows of one of the groups are among those of all of them
wider : (ids : List ℕ) (id k : ℕ) → elem id ids ≡ true → (k == id) ≡ true → elem k ids ≡ true
wider ids id k inside same = ap (λ j. elem j ids) (==-true k id same) ∙ inside

module _ ⦃E : Engine⦄ where
  -- the bindings of a group as they are read beside those of the groups `ids`
  abbrev read_bindings : Db E → (GroupSubscription → Bool) → ℕ → List Binding
  read_bindings s p id =
      let wide = filter_by p (E.rows s.group_subscriptions) in
      map
        (with_nodes
          (filter_by (of_any (read_subscriptions wide (E.rows s.subscriptions))) (E.rows s.nodes)))
        (filter_by (λ b. b.group_id == id) wide)

  load_groups-read :
      (names : List Text) (s s1 : Db E) (gs : List LoadedGroup) (i : ℕ) (g : LoadedGroup)
      → load_groups names s ≡ (ok gs, s1)
      → get_elem? gs i ≡ some g
      → (ids : List ℕ) × (elem g.group.id ids ≡ true)
        × (g.bindings ≡ read_bindings s (λ b. elem b.group_id ids) g.group.id)
        × (g.params
            ≡ filter_by
                (λ p. p.group_id == g.group.id)
                (filter_by (λ p. elem p.group_id ids) (E.rows s.policy_params)))
  unfolding load_groups
  load_groups-read names s s1 gs i g h at =
      let rows = filter_by (λ r. member r.name names) (E.rows s.groups) in
      let ids = map (λ (r : Group). r.id) rows in
      let k1 = find-bind-ok groups (λ r. member r.name names) _ s s1 gs h in
      let k2 = find-bind-ok policy_params (λ p. elem p.group_id ids) _ s s1 gs k1 in
      let k3 = find-bind-ok group_subscriptions (λ b. elem b.group_id ids) _ s s1 gs k2 in
      let k4 = find-bind-ok subscriptions _ _ s s1 gs k3 in
      let k5 = find-bind-ok nodes _ _ s s1 gs k4 in
      let (all, _) = pure-ok _ gs s s1 k5 in
      let (r, r_at, g_is) = get_elem?-map _ rows i g (ap (λ l. get_elem? l i) (sym all) ∙ at) in
      let id_is : r.id ≡ g.group.id = ap (λ (x : LoadedGroup). x.group.id) g_is in
      (
        ids,
        ap (λ k. elem k ids) (sym id_is) ∙ elem-get_elem? (λ (r : Group). r.id) rows i r r_at,
        ap (λ (x : LoadedGroup). x.bindings) (sym g_is)
            ∙ ap (read_bindings s (λ b. elem b.group_id ids)) id_is,
        ap (λ (x : LoadedGroup). x.params) (sym g_is)
            ∙ ap
                (λ k.
                  filter_by (λ (p : GroupPolicyParam). p.group_id == k)
                    (filter_by (λ p. elem p.group_id ids) (E.rows s.policy_params)))
                id_is,
      )

  group_subscriptions_of-ok :
      (g : Group) (s s1 : Db E) (bs : List Binding)
      → group_subscriptions_of g s ≡ (ok bs, s1)
      → bs
        ≡ map
            (with_nodes (
              filter_by
                (of_any (
                  read_subscriptions
                    (filter_by (λ b. b.group_id == g.id) (E.rows s.group_subscriptions))
                    (E.rows s.subscriptions)))
                (E.rows s.nodes)))
            (filter_by (λ b. b.group_id == g.id) (E.rows s.group_subscriptions))
  unfolding group_subscriptions_of
  group_subscriptions_of-ok g s s1 bs h =
      let k1 = find-bind-ok group_subscriptions (λ b. b.group_id == g.id) _ s s1 bs h in
      let k2 = find-bind-ok subscriptions _ _ s s1 bs k1 in
      let k3 = find-bind-ok nodes _ _ s s1 bs k2 in (pure-ok _ bs s s1 k3).0

  policy_params_of-ok :
      (g : Group) (s s1 : Db E) (ps : List Param)
      → policy_params_of g s ≡ (ok ps, s1)
      → ps ≡ map marshal_param (filter_by (λ p. p.group_id == g.id) (E.rows s.policy_params))
  unfolding policy_params_of
  policy_params_of-ok g s s1 ps h =
      let k1 = find-bind-ok policy_params (λ p. p.group_id == g.id) _ s s1 ps h in
      (pure-ok _ ps s s1 k1).0

  -- Where `Run` reads the groups of its outbounds, and the API is asked for the same group on the
  -- same database: its `Subscriptions` are the bindings that `Run` loads, each with the nodes of its
  -- subscription; the nodes that these show as matched are, in their order, the nodes that they
  -- bring into `Run`; and its `PolicyParams` are the parameters that `Run` puts into the policy.
  pub group_subscriptions_of-load_groups :
      (re : Regexp) (names : List Text) (s s1 s2 s3 : Db E) (gs : List LoadedGroup) (i : ℕ)
      (g : LoadedGroup) (bs : List Binding) (ps : List Param) (refs : List NodeRef)
      → load_groups names s ≡ (ok gs, s1)
      → get_elem? gs i ≡ some g
      → bound_nodes re i g.bindings ≡ ok refs
      → group_subscriptions_of g.group s ≡ (ok bs, s2)
      → policy_params_of g.group s ≡ (ok ps, s3)
      → (bs ≡ g.bindings)
        × (shown_nodes re bs ≡ ok (map (λ n. n.db_node) refs))
        × (ps ≡ map marshal_param g.params)
  group_subscriptions_of-load_groups re names s s1 s2 s3 gs i g bs ps refs loads at bound h k =
      let (ids, inside, bindings_are, params_are) = load_groups-read names s s1 gs i g loads at in
      let id = g.group.id in
      let same : bs ≡ g.bindings =
        group_subscriptions_of-ok g.group s s2 bs h
        ∙ sym (
            bindings-agree (λ b. elem b.group_id ids) (λ b. b.group_id == id)
              (E.rows s.group_subscriptions) (E.rows s.subscriptions) (E.rows s.nodes)
              (λ b own. wider ids id b.group_id inside own))
        ∙ sym bindings_are in
      (
        same,
        ap (shown_nodes re) same ∙ bound_nodes-shown re i g.bindings refs bound,
        policy_params_of-ok g.group s s3 ps k
            ∙ ap (map marshal_param) (
                sym (
                  params_are
                  ∙ filter_by-narrow (λ (p : GroupPolicyParam). p.group_id == id)
                      (λ p. elem p.group_id ids) (E.rows s.policy_params)
                      (λ p own. wider ids id p.group_id inside own))),
      )
