-- ===== src/Services/Selected.antt =====
-- `Select` leaves exactly the chosen row selected.
use mathlib.Core.Path.{fun_ext}
use dae_wing.Base.{
  err, Error, ℕ, ◌≤◌, ◌≡◌, refl, ap, ◌∙◌, inl, inr, Bool, true, false, List, [], ◌∷◌, map, Text,
  count_by, ◌==◌, ok, Result-cases, arith,
}
use dae_wing.Cursor.{decode_cursor}
use dae_wing.Dae.{Dae}
use dae_wing.Store.Engine.{Engine}
use dae_wing.Store.Models.{Db, Config, Dns, Routing}
use dae_wing.Store.Exec.{configs, dnss, routings}
use dae_wing.Services.Selecting.{select_rows-ok, chosen}
use dae_wing.Services.Configs.{select_config}
use dae_wing.Services.Dnss.{select_dns}
use dae_wing.Services.Routings.{select_routing}

count_by-map_self {ℓ} :
    {A : Type ℓ} (p q : A → Bool) (f : A → A) (xs : List A)
    → ((r : A) → p (f r) ≡ q r)
    → count_by p (map f xs) ≡ count_by q xs
count_by-map_self p q f [] h = refl
count_by-map_self p q f (x ∷ xs) h = ground (arith, count_by-map_self p q f xs h, h x)

module _ ⦃E : Engine⦄ ⦃D : Dae⦄ where
  chosen-config :
      (id : ℕ) (r : Config)
      → chosen configs
          (λ s t. refl)
          (λ r. r.id)
          (λ r. r.selected)
          (λ r. record r { selected = false })
          (λ r. record r { selected = true })
          (λ r. refl)
          id
          r
        ≡ record r { selected = r.id == id }
  chosen-config id r = ground arith

  -- If `Select` succeeds on a table where no identifier stands twice, it returns 1, the cursor
  -- decodes to an identifier, exactly the rows with this identifier are selected, nothing else of
  -- any row has changed, and exactly one row is selected.
  pub select_config-ok :
      (cursor : Text) (s s' : Db E) (n : ℕ)
      → select_config cursor s ≡ (ok n, s')
      → ((k : ℕ) → count_by (λ r. r.id == k) (E.rows s.configs) ≤ 1)
      → (id : ℕ) × (decode_cursor cursor ≡ ok id)
        × (n ≡ 1)
        × (E.rows s'.configs
            ≡ map {A = Config} (λ r. record r { selected = r.id == id }) (E.rows s.configs))
        × (count_by (λ r. r.selected) (E.rows s'.configs) ≡ 1)
  unfolding select_config
  select_config-ok cursor s s' n h unique = elim (Result-cases (decode_cursor cursor)) [
    | inr (e, bad) ↦ absurd (ground arith)
    | inl (id, decoded) ↦
        let (one, rows, some_row) =
          select_rows-ok configs (λ s t. refl) (λ r. r.id) (λ r. r.selected)
            (λ r. record r { selected = false }) (λ r. record r { selected = true }) (λ r. refl) id
            s s' n (rw decoded at h) in
        let final = rows ∙ ap (λ f. map f (E.rows s.configs)) (fun_ext (chosen-config id)) in
        let total =
          ap (count_by (λ r. r.selected)) final
          ∙ count_by-map_self (λ r. r.selected) (λ r. r.id == id)
              (λ r. record r { selected = r.id == id }) (E.rows s.configs) (λ r. refl) in
        let at_most = unique id in (id, decoded, one, final, omega arith)
  ]

  -- If `Select` fails, the database is as before: the old selection is still there.
  pub select_config-err :
      (cursor : Text) (s s' : Db E) (e : Error) → select_config cursor s ≡ (err e, s') → s' ≡ s
  unfolding select_config
  select_config-err cursor s s' e h = ground arith

  chosen-dns :
      (id : ℕ) (r : Dns)
      → chosen dnss
          (λ s t. refl)
          (λ r. r.id)
          (λ r. r.selected)
          (λ r. record r { selected = false })
          (λ r. record r { selected = true })
          (λ r. refl)
          id
          r
        ≡ record r { selected = r.id == id }
  chosen-dns id r = ground arith

  -- If `Select` succeeds on a table where no identifier stands twice, it returns 1, the cursor
  -- decodes to an identifier, exactly the rows with this identifier are selected, nothing else of
  -- any row has changed, and exactly one row is selected.
  pub select_dns-ok :
      (cursor : Text) (s s' : Db E) (n : ℕ)
      → select_dns cursor s ≡ (ok n, s')
      → ((k : ℕ) → count_by (λ r. r.id == k) (E.rows s.dnss) ≤ 1)
      → (id : ℕ) × (decode_cursor cursor ≡ ok id)
        × (n ≡ 1)
        × (E.rows s'.dnss ≡ map {A = Dns} (λ r. record r { selected = r.id == id }) (E.rows s.dnss))
        × (count_by (λ r. r.selected) (E.rows s'.dnss) ≡ 1)
  unfolding select_dns
  select_dns-ok cursor s s' n h unique = elim (Result-cases (decode_cursor cursor)) [
    | inr (e, bad) ↦ absurd (ground arith)
    | inl (id, decoded) ↦
        let (one, rows, some_row) =
          select_rows-ok dnss (λ s t. refl) (λ r. r.id) (λ r. r.selected)
            (λ r. record r { selected = false }) (λ r. record r { selected = true }) (λ r. refl) id
            s s' n (rw decoded at h) in
        let final = rows ∙ ap (λ f. map f (E.rows s.dnss)) (fun_ext (chosen-dns id)) in
        let total =
          ap (count_by (λ r. r.selected)) final
          ∙ count_by-map_self (λ r. r.selected) (λ r. r.id == id)
              (λ r. record r { selected = r.id == id }) (E.rows s.dnss) (λ r. refl) in
        let at_most = unique id in (id, decoded, one, final, omega arith)
  ]

  chosen-routing :
      (id : ℕ) (r : Routing)
      → chosen routings
          (λ s t. refl)
          (λ r. r.id)
          (λ r. r.selected)
          (λ r. record r { selected = false })
          (λ r. record r { selected = true })
          (λ r. refl)
          id
          r
        ≡ record r { selected = r.id == id }
  chosen-routing id r = ground arith

  -- If `Select` succeeds on a table where no identifier stands twice, it returns 1, the cursor
  -- decodes to an identifier, exactly the rows with this identifier are selected, nothing else of
  -- any row has changed, and exactly one row is selected.
  pub select_routing-ok :
      (cursor : Text) (s s' : Db E) (n : ℕ)
      → select_routing cursor s ≡ (ok n, s')
      → ((k : ℕ) → count_by (λ r. r.id == k) (E.rows s.routings) ≤ 1)
      → (id : ℕ) × (decode_cursor cursor ≡ ok id)
        × (n ≡ 1)
        × (E.rows s'.routings
            ≡ map {A = Routing} (λ r. record r { selected = r.id == id }) (E.rows s.routings))
        × (count_by (λ r. r.selected) (E.rows s'.routings) ≡ 1)
  unfolding select_routing
  select_routing-ok cursor s s' n h unique = elim (Result-cases (decode_cursor cursor)) [
    | inr (e, bad) ↦ absurd (ground arith)
    | inl (id, decoded) ↦
        let (one, rows, some_row) =
          select_rows-ok routings (λ s t. refl) (λ r. r.id) (λ r. r.selected)
            (λ r. record r { selected = false }) (λ r. record r { selected = true }) (λ r. refl) id
            s s' n (rw decoded at h) in
        let final = rows ∙ ap (λ f. map f (E.rows s.routings)) (fun_ext (chosen-routing id)) in
        let total =
          ap (count_by (λ r. r.selected)) final
          ∙ count_by-map_self (λ r. r.selected) (λ r. r.id == id)
              (λ r. record r { selected = r.id == id }) (E.rows s.routings) (λ r. refl) in
        let at_most = unique id in (id, decoded, one, final, omega arith)
  ]
