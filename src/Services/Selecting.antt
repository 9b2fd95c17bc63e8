-- ===== src/Services/Selecting.antt =====
-- What the three `Select` functions share: unset all that is selected, then set one row.
use dae_wing.Base.{
  ℕ, ◌<◌, ◌≡◌, refl, ap, ◌∙◌, inl, inr, Bool, List, [], ◌∷◌, map, count_by, ◌==◌, if◌then◌else◌,
  Bool-cases, ok, Error, Result-cases, arith,
}
use dae_wing.Store.Engine.{Engine}
use dae_wing.Store.Models.{Db}
use dae_wing.Store.Exec.{Exec, pure, fail, ◌>>=◌, ◌>>◌, TableOf, update, update_by_id, transaction}

pub map-if {ℓ} :
    {A : Type ℓ} (p q : A → Bool) (f g : A → A) (xs : List A)
    → map (λ r. if q r then g r else r) (map (λ r. if p r then f r else r) xs)
      ≡ map (λ r. let r' = if p r then f r else r in if q r' then g r' else r') xs
map-if p q f g [] = refl
map-if p q f g (x ∷ xs) = rw (map-if p q f g xs)

count_by-map {ℓ} :
    {A : Type ℓ} (p q : A → Bool) (f : A → A) (xs : List A)
    → ((r : A) → q (f r) ≡ q r)
    → count_by q (map (λ r. if p r then f r else r) xs) ≡ count_by q xs
count_by-map p q f [] h = refl
count_by-map p q f (x ∷ xs) h = ground (arith, count_by-map p q f xs h, h x)

module _ ⦃E : Engine⦄ {R : Type 0} (T : TableOf R)
    (get-put : (s : Db E) (t : E.Table R) → T.get (T.put s t) ≡ t) (key : R → ℕ)
    (selected : R → Bool) (clear mark : R → R) (key-clear : (r : R) → key (clear r) ≡ key r) where
  abbrev pub select_rows : ℕ → Exec ℕ
  select_rows id = do
    update T selected clear
    n ← update_by_id T key id mark
    if n == 0 then fail Error.no_such_config else pure 1

  -- what becomes of a row
  abbrev pub chosen : ℕ → R → R
  chosen id r = let r' = if selected r then clear r else r in if key r' == id then mark r' else r'

  pub select_rows-ok :
      (id : ℕ) (s s' : Db E) (n : ℕ)
      → transaction (select_rows id) s ≡ (ok n, s')
      → (n ≡ 1)
        × (E.rows (T.get s') ≡ map (chosen id) (E.rows (T.get s)))
        × (0 < count_by (λ r. key r == id) (E.rows (T.get s)))
  select_rows-ok id s s' n h = elim (Result-cases (E.update (T.get s) selected clear)) [
    | inr (e, failed) ↦ absurd (ground arith)
    | inl ((t1, n1), e1) ↦ elim (Bool-cases (id == 0)) [
      | inl zero_id ↦ absurd (ground arith)
      | inr some_id ↦ elim (Result-cases (E.update t1 (λ r. key r == id) mark)) [
        | inr (e, failed) ↦ absurd (ground (arith, get-put s t1))
        | inl ((t2, n2), e2) ↦
            let (rows1, count1) = E.update-rows (T.get s) selected clear t1 n1 e1 in
            let (rows2, count2) = E.update-rows t1 (λ r. key r == id) mark t2 n2 e2 in
            let total : n2 ≡ count_by (λ r. key r == id) (E.rows (T.get s)) =
              count2
              ∙ ap (count_by (λ r. key r == id)) rows1
              ∙ count_by-map selected (λ r. key r == id) clear (E.rows (T.get s))
                  (λ r. ap (λ k. k == id) (key-clear r)) in
            let final : E.rows t2 ≡ map (chosen id) (E.rows (T.get s)) =
              rows2
              ∙ ap (map (λ r. if key r == id then mark r else r)) rows1
              ∙ map-if selected (λ r. key r == id) clear mark (E.rows (T.get s)) in
            ground (arith, get-put s t1, get-put (T.put s t1) t2, total, final)
      ]
    ]
  ]
