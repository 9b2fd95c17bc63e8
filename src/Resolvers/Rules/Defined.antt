-- ===== src/Resolvers/Rules/Defined.antt =====
-- What the API shows of a routing, beside what `Run` does with it.
use dae_wing.Base.{
  ◌≡◌, refl, ap, sym, ◌∙◌, Bool, true, ◌||◌, none, some, List, [], ◌∷◌, map, Text, codes, member,
  text_eq, any, if◌then◌else◌, Bool-cases, inl, inr, ok, arith,
}
use dae_wing.Cursor.{trim_prefix}
use dae_wing.Dae.{Dae, Conf, rule_targets, necessary_outbounds}
use dae_wing.Resolvers.Rules.{
  RoutingRule, Dynamic, DaeResolver, Shape, to_plaintext, to_function, rules, fallback, outbound_of,
  reference_groups, shown_routing,
}
use dae_wing.Running.Groups.{is_preset}
use dae_wing.Running.Outbounds.{defines, fill_config-defines}
use dae_wing.Running.Run.{Outside, fill_config}
use dae_wing.Store.Engine.{Engine}
use dae_wing.Store.Models.{Routing, Group, Db}

-- the outbound that a client reads from the union `Fallback`
abbrev pub fallback_target : Dynamic → List Text
fallback_target v = elim (to_plaintext v) [
  | some s ↦ s ∷ []
  | none ↦ elim (to_function v) [ some f ↦ f.name ∷ [] | none ↦ [] ]
]

-- the outbound of a rule, without `must_`
abbrev pub rule_target : Text → Text
rule_target o = if text_eq o (codes "must_rules") then o else trim_prefix (codes "must_") o

abbrev pub targets_from : List RoutingRule → List Text
targets_from [] = []
targets_from (r ∷ rs) = rule_target (outbound_of r).name ∷ targets_from rs

-- the outbounds that a client reads from a routing
abbrev pub is_shown : Text → DaeResolver → Bool
is_shown name r = member name (fallback_target (fallback r)) || member name (targets_from (rules r))

module _ ⦃D : Dae⦄ (S : Shape) where
  targets_from-rules :
      (rs : List RoutingRule) (v : Dynamic) (raw : Text)
      → targets_from (rules (record { routing_rules = rs; routing_fallback = v; raw = raw }))
        ≡ rule_targets (map (λ x. x.outbound.name) rs)
  unfolding rules rule_targets outbound_of
  targets_from-rules [] v raw = refl
  targets_from-rules (r ∷ rs) v raw =
      ap (λ l. rule_target r.outbound.name ∷ l) (targets_from-rules rs v raw)

  fallback_target-name :
      (r : D.Routing) (name : Text) (v : Dynamic)
      → S.fallback_in r ≡ v
      → member name (fallback_target v) ≡ true
      → text_eq (D.fallback_name r) name ≡ true
  fallback_target-name r name (Dynamic.text s) e h =
      ap (λ t. text_eq t name) (S.fallback_name-text r s e) ∙ ground (arith, h)
  fallback_target-name r name (Dynamic.function f) e h =
      ap (λ t. text_eq t name) (S.fallback_name-function r f e) ∙ ground (arith, h)
  fallback_target-name r name (Dynamic.functions fs) e h = absurd (ground (arith, h))
  fallback_target-name r name Dynamic.another e h = absurd (ground (arith, h))

  pub is_shown-reference_groups :
      (r : D.Routing) (m : Routing) (name : Text)
      → is_shown name (shown_routing S r m) ≡ true
      → member name (reference_groups r) ≡ true
  unfolding shown_routing reference_groups necessary_outbounds fallback
  is_shown-reference_groups r m name h =
      let rest : member name (targets_from (rules (shown_routing S r m)))
          ≡ member name (rule_targets (D.rule_outbounds r)) =
        ap (member name) (
          targets_from-rules (S.rules_in r) (S.fallback_in r) m.routing
          ∙ sym (ap rule_targets (S.rule_outbounds-rules_in r))) in
      let listed =
        D.deduplicate-member name (D.fallback_name r ∷ rule_targets (D.rule_outbounds r)) in
      elim (Bool-cases (member name (fallback_target (S.fallback_in r)))) [
        | inl first ↦
            let named = fallback_target-name r name (S.fallback_in r) refl first in
            listed ∙ ground (arith, named)
        | inr other ↦ listed ∙ ground (arith, h, other, rest)
      ]

  -- If `Run` assembles a configuration, then every outbound that the API shows in the routing, as
  -- its `Fallback` (be it a text or a function) or, without `must_`, as the `Outbound` of one of its
  -- `Rules`, is in `ReferenceGroups`, and is preset or has a group section in the configuration.
  pub fill_config-shown :
      ⦃E : Engine⦄ (o : Outside) (c conf : Conf) (gs : List Group) (s s1 : Db E) (m : Routing)
      (name : Text)
      → fill_config o c s ≡ (ok (conf, gs), s1)
      → is_shown name (shown_routing S c.routing m) ≡ true
      → (member name (reference_groups c.routing) ≡ true)
        × ((is_preset name || any (defines name) conf.group) ≡ true)
  unfolding reference_groups
  fill_config-shown o c conf gs s s1 m name h shown =
      let listed = is_shown-reference_groups c.routing m name shown in
      (listed, fill_config-defines o c conf gs s s1 name h listed)
