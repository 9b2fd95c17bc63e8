-- ===== src/Running/Fresh.antt =====
-- After a successful `Run`, `Modified` compares what `Run` has just written.
use dae_wing.Base.{
  ℕ, ◌≡◌, refl, ap, ◌∙◌, inl, inr, Bool, true, not, ◌&&◌, none, some, List, [], ◌∷◌, map, elem,
  filter_by, ◌==◌, ==-refl, if◌then◌else◌, ok, Error, Result-cases, arith,
}
use dae_wing.Running.Keys.{ids_of, joined}
use dae_wing.Services.Selecting.{map-if}
use dae_wing.Running.Save.{running_system, replace_running_groups, save_running}
use dae_wing.Services.Nodes.{sql_eq, first_system, is_not_found, blank_system}
use dae_wing.Store.Engine.{Engine}
use dae_wing.Store.Models.{Db, Config, Dns, Routing, Group, System}
use dae_wing.Store.Laws.{bind-ok, update-ok, update_by_id-ok}
use dae_wing.Store.Exec.{pure, ◌>>=◌, update, update_by_id, groups, systems}

pub filter_by-true {ℓ} : {A : Type ℓ} (xs : List A) → filter_by (λ _. true) xs ≡ xs
filter_by-true [] = refl
filter_by-true (x ∷ xs) = ap (◌∷◌ x) (filter_by-true xs)

pub is_not_found-eq : (e : Error) → is_not_found e ≡ true → e ≡ Error.not_found
is_not_found-eq Error.not_found h = refl
is_not_found-eq _ h = absurd (cc)

module _ ⦃E : Engine⦄ where
  -- The system is the first row afterwards, and nothing but the systems has changed.
  first_system-ok :
      (s s1 : Db E) (sys : System)
      → first_system s ≡ (ok sys, s1)
      → (rest : List System) × (E.rows s1.systems ≡ sys ∷ rest)
        × (s1 ≡ record s { systems = s1.systems })
  unfolding first_system
  first_system-ok s s1 sys h = elim (Result-cases (E.find s.systems (λ _. true))) [
    | inr (e, failed) ↦
        absurd (ground (arith, E.find-ne-not_found s.systems (λ _. true), is_not_found-eq e))
    | inl ([], found) ↦ elim (Result-cases (E.insert (λ r. r.id) s.systems blank_system)) [
      | inr (e, failed) ↦ absurd (ground arith)
      | inl ((t, r), inserted) ↦
          let (id, made, rows, lt) =
            E.insert-rows (λ r. r.id) s.systems blank_system t r inserted in
          let old = E.find-rows s.systems (λ _. true) [] found in
          ([], ground (arith, rows, old, filter_by-true (E.rows s.systems)), ground arith)
    ]
    | inl (x ∷ rest, found) ↦ (
      rest,
      ground (
        arith,
        E.find-rows s.systems (λ _. true) (x ∷ rest) found,
        filter_by-true (E.rows s.systems),
      ),
      ground arith,
    )
  ]

  -- What `Replace` makes of the groups.
  replace_running_groups-ok :
      (s s' : Db E) (sys : ℕ) (gs : List Group) (u : Unit {0})
      → replace_running_groups sys gs s ≡ (ok u, s')
      → (t : E.Table Group) × (s' ≡ record s { groups = t })
        × (E.rows t ≡ map (joined sys (ids_of gs)) (E.rows s.groups))
  unfolding replace_running_groups
  replace_running_groups-ok s s' sys gs u h =
      let p : Group → Bool = λ g. elem g.id (ids_of gs) in
      let f : Group → Group = λ g. record g { system_id = some sys } in
      let q : Group → Bool = λ g. not (elem g.id (ids_of gs)) && sql_eq g.system_id (some sys) in
      let k : Group → Group = λ g. record g { system_id = none } in
      let (n1, s1, h1, k1) =
        bind-ok (update groups p f) (λ _. update groups q k >>= λ _. pure tt) s s' u h in
      let (n2, s2, h2, k2) = bind-ok (update groups q k) (λ _. pure tt) s1 s' u k1 in
      let (t1, e1, rows1, c1) = update-ok groups p f s s1 n1 h1 in
      let (t2, e2, rows2, c2) = update-ok groups q k s1 s2 n2 h2 in
      (
        t2,
        ground arith,
        rows2
            ∙ ap (map (λ r. if q r then k r else r)) (ap (λ (x : Db E). E.rows x.groups) e1 ∙ rows1)
            ∙ map-if p q f k (E.rows s.groups),
      )

  -- what `save_running` leaves: the system row, the groups, and the rest untouched
  pub record Saved (s s' : Db E) (c : Config) (d : Dns) (r : Routing) (gs : List Group)
      : Type 0 where
    pub system : System
    pub others : List System
    pub systems_are : E.rows s'.systems ≡ running_system c d r gs system ∷ others
    pub groups_are : E.rows s'.groups ≡ map (joined system.id (ids_of gs)) (E.rows s.groups)
    pub same_configs : s'.configs ≡ s.configs
    pub same_dnss : s'.dnss ≡ s.dnss
    pub same_routings : s'.routings ≡ s.routings

  pub save_running-Saved :
      (s s' : Db E) (c : Config) (d : Dns) (r : Routing) (gs : List Group) (n : ℕ)
      → save_running c d r gs s ≡ (ok n, s')
      → Saved s s' c d r gs
  unfolding save_running
  save_running-Saved s s' c d r gs n h =
      let (sys, s1, h1, k1) = bind-ok first_system _ s s' n h in
      let (rest, rows0, frame0) = first_system-ok s s1 sys h1 in
      let (n2, s2, h2, k2) =
        bind-ok (update_by_id systems (λ x. x.id) sys.id (running_system c d r gs)) _ s1 s' n k1 in
      let (t2, e2, rows2, c2) =
        update_by_id-ok systems (λ x. x.id) sys.id (running_system c d r gs) s1 s2 n2 h2 in
      let (u, s3, h3, k3) = bind-ok (replace_running_groups sys.id gs) (λ _. pure 1) s2 s' n k2 in
      let (t3, e3, rows3) = replace_running_groups-ok s2 s3 sys.id gs u h3 in
      record {
        system = sys;
        others = map (λ x. if x.id == sys.id then running_system c d r gs x else x) rest;
        systems_are = ground (
          arith,
          ap (map (λ x. if x.id == sys.id then running_system c d r gs x else x)) rows0,
          rows2,
          ==-refl sys.id,
        );
        groups_are = ground (arith, rows3);
        same_configs = ground arith;
        same_dnss = ground arith;
        same_routings = ground arith;
      }
