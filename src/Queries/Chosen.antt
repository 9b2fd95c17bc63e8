-- ===== src/Queries/Chosen.antt =====
-- What the query of the selected config answers after a selection.
use mathlib.Core.Path.{subst}
use dae_wing.Base.{
  ℕ, ◌≤◌, ◌≡◌, refl, ap, sym, ◌∙◌, inl, inr, true, none, some, List, [], ◌∷◌, map, length,
  filter_by, count_by, Text, ◌==◌, ==-true, ok, Result-cases, All, arith,
}
use dae_wing.Base.Lists.{count_by-eq-length, All-filter_by, filter_by-All}
use dae_wing.Cursor.{decode_cursor}
use dae_wing.Dae.{Dae}
use dae_wing.Queries.{resolve_all, global_of, query_configs}
use dae_wing.Services.Configs.{select_config}
use dae_wing.Services.Selected.{select_config-ok}
use dae_wing.Store.Engine.{Engine}
use dae_wing.Store.Models.{Config, Db}

abbrev HasId : ℕ → Config → Type 0
HasId id r = r.selected ≡ true → r.id ≡ id

marked-All :
    (id : ℕ) (rs : List Config)
    → All (HasId id) (map {A = Config} (λ r. record r { selected = r.id == id }) rs)
marked-All id [] = tt
marked-All id (r ∷ rs) = (λ h. ==-true r.id id h, marked-All id rs)

-- the row that is selected alone has the identifier
single :
    (id : ℕ) (l : List Config)
    → length l ≡ 1
    → All (λ r. r.selected ≡ true) l
    → All (HasId id) l
    → (r : Config) × (l ≡ r ∷ []) × (r.id ≡ id) × (r.selected ≡ true)
single id [] one _ _ = absurd (omega (arith, one))
single id (r ∷ []) one (marked, _) (has_id, _) = (r, refl, has_id marked, marked)
single id (r ∷ t ∷ l) one _ _ = absurd (omega (arith, one))

module _ ⦃E : Engine⦄ ⦃D : Dae⦄ where
  query_configs-ok :
      (s s' : Db E) (rs : List (D.Global × Config))
      → query_configs none (some true) s ≡ (ok rs, s')
      → resolve_all global_of (filter_by (λ r. r.selected) (E.rows s.configs)) ≡ ok rs
  unfolding query_configs
  query_configs-ok s s' rs h = elim (Result-cases (E.find s.configs (λ r. r.selected))) [
    | inr (e, failed) ↦ absurd (ground (arith, failed))
    | inl (l, found) ↦
        ap (resolve_all global_of) (sym (E.find-rows s.configs (λ r. r.selected) l found))
        ∙ ground (arith, found)
  ]

  resolve_all-single :
      (r : Config) (rs : List (D.Global × Config))
      → resolve_all global_of (r ∷ []) ≡ ok rs
      → (g : D.Global) × (global_of r ≡ ok g) × (rs ≡ (g, r) ∷ [])
  unfolding resolve_all
  resolve_all-single r rs h = elim (Result-cases (global_of r)) [
    | inr (e, failed) ↦ absurd (ground (arith, failed))
    | inl (g, parsed) ↦ (g, parsed, ground (arith, parsed))
  ]

  -- After `Select` of a config has succeeded on a table where no identifier stands twice, a query
  -- of the selected configs that succeeds answers one config: the row with the identifier of the
  -- selection, with the global section that dae parses from its text.
  pub select_config-query :
      (cursor : Text) (s s1 s2 : Db E) (n : ℕ) (rs : List (D.Global × Config))
      → select_config cursor s ≡ (ok n, s1)
      → ((k : ℕ) → count_by (λ r. r.id == k) (E.rows s.configs) ≤ 1)
      → query_configs none (some true) s1 ≡ (ok rs, s2)
      → (g : D.Global) × (r : Config) × (rs ≡ (g, r) ∷ [])
        × (global_of r ≡ ok g)
        × (decode_cursor cursor ≡ ok r.id)
        × (r.selected ≡ true)
  select_config-query cursor s s1 s2 n rs selects once asks =
      let (id, decoded, _, rows, one) = select_config-ok cursor s s1 n selects once in
      let chosen = filter_by (λ (r : Config). r.selected) (E.rows s1.configs) in
      let ids : All (HasId id) (E.rows s1.configs) =
        subst (All (HasId id)) (sym rows) (marked-All id (E.rows s.configs)) in
      let (r, only, r_id, marked) =
        single id chosen (sym (count_by-eq-length (λ r. r.selected) (E.rows s1.configs)) ∙ one)
          (All-filter_by (λ r. r.selected) (E.rows s1.configs))
          (filter_by-All (HasId id) (λ r. r.selected) (E.rows s1.configs) ids) in
      let (g, parsed, answer) =
        resolve_all-single r rs
          (ap (resolve_all global_of) (sym only) ∙ query_configs-ok s1 s2 rs asks) in
      (g, r, answer, parsed, decoded ∙ ap ok (sym r_id), marked)
