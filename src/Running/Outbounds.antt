-- ===== src/Running/Outbounds.antt =====
-- The groups that dae is given are those that the routing needs, and their nodes are given too.
use dae_wing.Base.{
  ℕ, suc, ◌≡◌, refl, sym, ap, ◌∙◌, inl, inr, Bool, true, false, not, ◌&&◌, ◌||◌, List, [], ◌∷◌,
  Text, text_eq, text_eq-true, member, any, filter_by, Bool-cases, ok, Result-cases, arith,
}
use dae_wing.Dae.{Dae, DaeGroup, Conf, necessary_outbounds}
use dae_wing.Nodes.Names.{MapOrder, NodeRef}
use dae_wing.Nodes.Dedup.{any-append, any-perm}
use dae_wing.Running.Filled.{fill_config-Filled}
use dae_wing.Running.Groups.{
  LoadedGroup, names_of, is_preset, not_found_names, positions, group_section, group_sections,
}
use dae_wing.Running.Run.{Outside, missing_groups, fill_config}
use dae_wing.Store.Engine.{Engine}
use dae_wing.Store.Models.{Db, Group}

abbrev is_named : Text → Text → Bool
is_named name t = text_eq t name

-- a group section of this name
abbrev pub defines : Text → DaeGroup → Bool
defines name g = text_eq g.name name

any-filter_by :
    (name : Text) (p : Text → Bool) (l : List Text)
    → member name l ≡ true
    → p name ≡ true
    → any (is_named name) (filter_by p l) ≡ true
any-filter_by name p [] h hp = absurd (cc)
any-filter_by name p (t ∷ l) h hp = ground (arith, any-filter_by name p l, text_eq-true t name)

group_section-name :
    (m : MapOrder) (nodes : List NodeRef) (i : ℕ) (g : LoadedGroup) (sec : DaeGroup)
    → group_section m nodes i g ≡ ok sec
    → sec.name ≡ g.group.name
unfolding group_section
group_section-name m nodes i g sec h = ground arith

-- The sections have the names of the groups, in order.
group_sections-names :
    (name : Text) (m : MapOrder) (nodes : List NodeRef) (l : List (ℕ × LoadedGroup))
    (secs : List DaeGroup)
    → group_sections m nodes l ≡ ok secs
    → any (defines name) secs ≡ any (λ p. text_eq p.1.group.name name) l
unfolding group_sections
group_sections-names name m nodes [] secs h = ground arith
group_sections-names name m nodes ((i, g) ∷ l) secs h =
    elim (Result-cases (group_section m nodes i g)) [
      | inr (e, failed) ↦ absurd (ground arith)
      | inl (sec, made) ↦ elim (Result-cases (group_sections m nodes l)) [
        | inr (e, failed) ↦ absurd (ground arith)
        | inl (rest, others) ↦ ground (
          arith,
          group_sections-names name m nodes l rest others,
          group_section-name m nodes i g sec made,
        )
      ]
    ]

any-positions :
    (name : Text) (i : ℕ) (ls : List LoadedGroup)
    → any (λ p. text_eq p.1.group.name name) (positions i ls) ≡ member name (names_of ls)
unfolding positions
any-positions name i [] = refl
any-positions name i (g ∷ ls) = ground (arith, any-positions name (suc i) ls)

module _ ⦃E : Engine⦄ ⦃D : Dae⦄ (o : Outside) where
  missing_groups-empty : (l : List Text) → missing_groups o l ≡ ok tt → l ≡ []
  missing_groups-empty [] h = refl
  missing_groups-empty (t ∷ l) h = absurd (cc)

  -- Where no group is missing, an outbound is a group or preset.
  outbound-cases :
      (name : Text) (outbounds : List Text) (ls : List LoadedGroup)
      → missing_groups o (not_found_names o.maps outbounds ls) ≡ ok tt
      → member name outbounds ≡ true
      → (is_preset name || member name (names_of ls)) ≡ true
  unfolding not_found_names
  outbound-cases name outbounds ls none_missing h =
      let p : Text → Bool = λ t. not (member t (names_of ls)) && not (is_preset t) in
      let empty : o.maps.order (filter_by p outbounds) ≡ [] =
        missing_groups-empty (o.maps.order (filter_by p outbounds)) none_missing in
      let same : any (is_named name) (filter_by p outbounds) ≡ false =
        sym (any-perm (is_named name) (o.maps.order-perm (filter_by p outbounds)))
        ∙ ap (any (is_named name)) empty in
      elim (Bool-cases (p name)) [
        | inl lacking ↦ absurd (cc (any-filter_by name p outbounds h lacking, same))
        | inr found ↦ ground arith
      ]

  -- In a configuration that `Run` has assembled, each outbound that the routing needs is one of
  -- the preset groups or has a group section.
  pub fill_config-defines :
      (c conf : Conf) (gs : List Group) (s s1 : Db E) (name : Text)
      → fill_config o c s ≡ (ok (conf, gs), s1)
      → member name (necessary_outbounds c.routing) ≡ true
      → (is_preset name || any (defines name) conf.group) ≡ true
  fill_config-defines c conf gs s s1 name h needed =
      let f = fill_config-Filled o c conf gs s s1 h in
      let ls = f.loaded_groups in
      let either = outbound-cases name (necessary_outbounds c.routing) ls f.none_missing needed in
      let sections : any (defines name) f.sections ≡ member name (names_of ls) =
        group_sections-names name o.maps f.named (o.maps.order (positions 0 ls)) f.sections
          f.sections_are
        ∙ any-perm (λ p. text_eq p.1.group.name name) (o.maps.order-perm (positions 0 ls))
        ∙ any-positions name 0 ls in
      let all : any (defines name) conf.group
          ≡ (any (defines name) c.group || any (defines name) f.sections) =
        ap (λ (x : Conf). any (defines name) x.group) f.conf_is
        ∙ any-append (defines name) c.group f.sections in
      ground (arith, either, sections, all)
