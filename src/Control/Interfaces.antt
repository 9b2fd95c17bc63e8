-- ===== src/Control/Interfaces.antt =====
-- The interfaces that reach dae's control plane.
use dae_wing.Base.{
  ◌≡◌, refl, ap, sym, ◌∙◌, inl, inr, Bool, true, false, not, ◌&&◌, ◌||◌, List, [], ◌∷◌, ◌++◌, Text,
  codes, text_eq, text_eq-true, member, member-append, Bool-cases, ok, arith,
}
use dae_wing.Dae.{Dae, Conf}
use dae_wing.Control.{expand_auto, Plane, preprocess_wan_interface_auto, new_control_plane}

-- what the list of interfaces has to hold
abbrev pub is_wanted : List Text → List Text → Text → Bool
is_wanted defaults names x =
    (member x names && not (text_eq x (codes "auto")))
    || (member (codes "auto") names && member x defaults)

-- a name that is equal to another one passes the same test
same_test :
    (name x y : Text) (b : Bool) → text_eq name y ≡ b → text_eq name x ≡ true → text_eq x y ≡ b
same_test name x y b h same = ap (λ t. text_eq t y) (sym (text_eq-true name x same)) ∙ h

wanted-auto :
    (same here auto later inside got : Bool)
    → (same ≡ true → auto ≡ true)
    → got ≡ ((here && not auto) || (later && inside))
    → (inside || got) ≡ (((same || here) && not auto) || ((true || later) && inside))
wanted-auto false here auto later inside got h e = ground arith
wanted-auto true here auto later inside got h e = ground (arith, h refl)

wanted-other :
    (same here auto later inside got : Bool)
    → (same ≡ true → auto ≡ false)
    → got ≡ ((here && not auto) || (later && inside))
    → (same || got) ≡ (((same || here) && not auto) || ((false || later) && inside))
wanted-other false here auto later inside got h e = ground arith
wanted-other true here auto later inside got h e = ground (arith, h refl)

expand_auto-member :
    (x : Text) (defaults names : List Text)
    → (l : List Text) × (expand_auto (ok defaults) names ≡ ok l)
      × (member x l ≡ is_wanted defaults names x)
unfolding expand_auto
expand_auto-member x defaults [] = ([], refl, refl)
expand_auto-member x defaults (name ∷ names) =
    let (l, e, m) = expand_auto-member x defaults names in
    elim (Bool-cases (text_eq name (codes "auto"))) [
      | inl auto ↦ (
        defaults ++ l,
        ground (arith, auto, e),
        member-append x defaults l
            ∙ wanted-auto (text_eq name x) (member x names) (text_eq x (codes "auto"))
                (member (codes "auto") names) (member x defaults) (member x l)
                (same_test name x (codes "auto") true auto) m
            ∙ ap
                (λ b.
                  ((text_eq name x || member x names) && not (text_eq x (codes "auto")))
                  || ((b || member (codes "auto") names) && member x defaults))
                (sym auto),
      )
      | inr other ↦ (
        name ∷ l,
        ground (arith, other, e),
        wanted-other (text_eq name x) (member x names) (text_eq x (codes "auto"))
              (member (codes "auto") names) (member x defaults) (member x l)
              (same_test name x (codes "auto") false other) m
            ∙ ap
                (λ b.
                  ((text_eq name x || member x names) && not (text_eq x (codes "auto")))
                  || ((b || member (codes "auto") names) && member x defaults))
                (sym other),
      )
    ]

module _ ⦃D : Dae⦄ (P : Plane) where
  -- Where dae can tell the default interfaces, a control plane that is built was built for a
  -- configuration with no subscription, with its nodes, its groups, its routing and its dns section,
  -- and with a list of interfaces in which a name stands exactly if the configuration names it, or
  -- if it is a default interface and the configuration names `auto`; `auto` itself stands there only
  -- if it is a default interface.
  pub new_control_plane-ok :
      (c : Conf) (defaults : List Text) (x : Text)
      → P.default_ifnames ≡ ok defaults
      → new_control_plane P c ≡ ok tt
      → (g : D.Global) × (P.new c.node c.group c.routing g c.dns ≡ ok tt)
        × (P.has_subscriptions c ≡ false)
        × (member x (P.wan_interface g) ≡ is_wanted defaults (P.wan_interface c.global) x)
  unfolding new_control_plane preprocess_wan_interface_auto
  new_control_plane-ok c defaults x known built = elim (Bool-cases (P.has_subscriptions c)) [
    | inl some_there ↦ absurd (ground (arith, some_there))
    | inr none_there ↦
        let names = P.wan_interface c.global in
        let (l, e, m) = expand_auto-member x defaults names in
        let expanded : expand_auto P.default_ifnames names ≡ ok l =
          ap (λ d. expand_auto d names) known ∙ e in
        (
          P.with_wan_interface (D.deduplicate l) c.global,
          ground (arith, none_there, expanded),
          none_there,
          ap (member x) (P.wan-with (D.deduplicate l) c.global) ∙ D.deduplicate-member x l ∙ m,
        )
  ]
