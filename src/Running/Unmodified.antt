-- ===== src/Running/Unmodified.antt =====
-- `Modified` right after `Run`.
use dae_wing.Base.{
  ℕ, ◌≡◌, refl, ap, ◌∙◌, Bool, true, false, some, List, ◌∷◌, map, member, length, filter_by, ◌==◌,
  Result, ok, arith,
}
use dae_wing.Dae.{Dae, necessary_outbounds}
use dae_wing.Running.Agree.{
  Started, run-Started, first_system-head, is_modified-running, used_groups,
}
use dae_wing.Running.Keys.{Keys, ids_of, join_system, picked, filter_by-joined}
use dae_wing.Running.Modified.{is_modified, compare_selected, modified}
use dae_wing.Running.Run.{Outside, run}
use dae_wing.Running.Save.{running_system}
use dae_wing.Services.Nodes.{sql_eq, first_system}
use dae_wing.Store.Engine.{Engine}
use dae_wing.Store.Models.{Db, Config, Dns, Routing, Group, System}
use dae_wing.Store.Laws.{bind-ok, find-ok}
use dae_wing.Store.Exec.{Exec, TableOf, ◌>>=◌, configs, dnss, routings, groups, find, first}

module _ ⦃E : Engine⦄ where
  known-bind :
      {A B : Type 0} (m : Exec A) (f : A → Exec B) (s s1 : Db E) (a : A) (x : Result B × Db E)
      → m s ≡ (ok a, s1)
      → (m >>= f) s ≡ x
      → f a s1 ≡ x
  known-bind m f s s1 a x e h = ground arith

  abbrev of_system : ℕ → Group → Bool
  of_system id g = sql_eq g.system_id (some id)

  first-frame :
      {R : Type 0} (T : TableOf R) (p : R → Bool) (s s' : Db E) (r : R)
      → T.get s' ≡ T.get s
      → first T p s ≡ (ok r, s)
      → first T p s' ≡ (ok r, s')
  first-frame T p s s' r same h = ground arith

  compare_selected-eq :
      (s s' : Db E) (m : System) (gs : List Group) (c : Config) (d : Dns) (r : Routing) (b : Bool)
      → first configs (λ r. r.selected) s ≡ (ok c, s)
      → first dnss (λ r. r.selected) s ≡ (ok d, s)
      → first routings (λ r. r.selected) s ≡ (ok r, s)
      → compare_selected m gs s ≡ (ok b, s')
      → b ≡ is_modified m c d r gs
  unfolding compare_selected
  compare_selected-eq s s' m gs c d r b fc fd fr h =
      let k1 = known-bind (first configs (λ r. r.selected)) _ s s c (ok b, s') fc h in
      let k2 = known-bind (first dnss (λ r. r.selected)) _ s s d (ok b, s') fd k1 in
      let k3 = known-bind (first routings (λ r. r.selected)) _ s s r (ok b, s') fr k2 in
      ground arith

  -- With a running system and a selection, `Modified` is the comparison of the two.
  modified-eq :
      (s s' : Db E) (x : System) (rest : List System) (c : Config) (d : Dns) (r : Routing)
      (b : Bool)
      → E.rows s.systems ≡ x ∷ rest
      → x.running ≡ true
      → first configs (λ r. r.selected) s ≡ (ok c, s)
      → first dnss (λ r. r.selected) s ≡ (ok d, s)
      → first routings (λ r. r.selected) s ≡ (ok r, s)
      → modified s ≡ (ok b, s')
      → b ≡ is_modified x c d r (filter_by (of_system x.id) (E.rows s.groups))
  unfolding modified
  modified-eq s s' x rest c d r b rows runs fc fd fr h =
      let (m, s1, h1, k1) = bind-ok first_system _ s s' b h in
      let (mx, same1) = first_system-head s s1 x m rest rows h1 in
      let (gs, s2, h2, k2) = bind-ok (find groups (of_system m.id)) _ s1 s' b k1 in
      let (gs_are, same2) = find-ok groups (of_system m.id) s1 s2 gs h2 in
      let gs_are' : gs ≡ filter_by (of_system x.id) (E.rows s.groups) = ground arith in
      let k2' : compare_selected x gs s ≡ (ok b, s') = ground (arith, mx, same1, same2) in
      compare_selected-eq s s' x gs c d r b fc fd fr k2' ∙ ap (is_modified x c d r) gs_are'

  module _ ⦃D : Dae⦄ (o : Outside) where
    -- Right after a successful `Run`, if `Modified` gives an answer, it is `true` exactly if the
    -- configuration that was started uses no group, where identifiers are a key of the groups.
    pub modified-run :
        (s s' s'' : Db E) (n : ℕ) (b : Bool)
        → Keys (E.rows s.groups)
        → run o false false s ≡ (ok n, s')
        → modified s' ≡ (ok b, s'')
        → (st : Started o s s') × (b ≡ (length (used_groups o st.parsed s) == 0))
    modified-run s s' s'' n b keys started asked =
        let st = run-Started o s s' n started in
        let v = st.saved in
        let gs = used_groups o st.parsed s in
        let x = running_system st.config st.dns st.routing gs v.system in
        let now : filter_by (of_system v.system.id) (E.rows s'.groups)
            ≡ map (join_system v.system.id) gs =
          ap (filter_by (of_system v.system.id)) v.groups_are
          ∙ filter_by-joined v.system.id (ids_of gs)
              (λ g. member g.name (necessary_outbounds st.parsed.routing)) (E.rows s.groups)
              (picked (λ g. member g.name (necessary_outbounds st.parsed.routing)) (E.rows s.groups)
                keys) in
        (
          st,
          modified-eq s' s'' x v.others st.config st.dns st.routing b v.systems_are refl
                (first-frame configs (λ r. r.selected) s s' st.config v.same_configs st.config_is)
                (first-frame dnss (λ r. r.selected) s s' st.dns v.same_dnss st.dns_is)
                (first-frame routings (λ r. r.selected) s s' st.routing v.same_routings
                  st.routing_is)
                asked
              ∙ ap (is_modified x st.config st.dns st.routing) now
              ∙ is_modified-running st.config st.dns st.routing gs v.system,
        )
