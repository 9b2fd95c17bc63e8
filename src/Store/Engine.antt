-- ===== src/Store/Engine.antt =====
-- What dae-wing uses of gorm and SQLite: tables of rows, and the four kinds of statement, each of
-- which may fail. The laws are those of SQL, and speak of statements that succeed.
use dae_wing.Base.{
  ℕ, ◌<◌, ◌≡◌, ◌≢◌, Bool, List, [], ◌∷◌, ◌++◌, map, filter_by, count_by, if◌then◌else◌, Result, ok,
  err, Error, All,
}

pub record Engine : Type 1 where
  pub Table : Type 0 → Type 0
  -- the rows, in the order of the primary key
  pub rows : {R : Type 0} → Table R → List R
  -- SELECT … WHERE
  pub find : {R : Type 0} → Table R → (R → Bool) → Result (List R)
  -- INSERT; the argument makes the row of the key that the engine chooses
  pub insert : {R : Type 0} → (R → ℕ) → Table R → (ℕ → R) → Result (Table R × R)
  -- UPDATE … WHERE, with the number of affected rows
  pub update : {R : Type 0} → Table R → (R → Bool) → (R → R) → Result (Table R × ℕ)
  -- DELETE … WHERE, with the number of affected rows
  pub delete : {R : Type 0} → Table R → (R → Bool) → Result (Table R × ℕ)
  pub find-rows :
      {R : Type 0} (t : Table R) (p : R → Bool) (l : List R)
      → find t p ≡ ok l
      → l ≡ filter_by p (rows t)
  -- an empty answer is no error
  pub find-ne-not_found : {R : Type 0} (t : Table R) (p : R → Bool) → find t p ≢ err Error.not_found
  pub insert-rows :
      {R : Type 0} (key : R → ℕ) (t : Table R) (mk : ℕ → R) (t' : Table R) (r : R)
      → insert key t mk ≡ ok (t', r)
      → (id : ℕ) × (r ≡ mk id) × (rows t' ≡ rows t ++ r ∷ []) × All (λ o. key o < id) (rows t)
  pub update-rows :
      {R : Type 0} (t : Table R) (p : R → Bool) (f : R → R) (t' : Table R) (n : ℕ)
      → update t p f ≡ ok (t', n)
      → (rows t' ≡ map (λ r. if p r then f r else r) (rows t)) × (n ≡ count_by p (rows t))
  pub delete-rows :
      {R : Type 0} (t : Table R) (p : R → Bool) (t' : Table R) (n : ℕ)
      → delete t p ≡ ok (t', n)
      → (rows t' ≡ filter_by (λ r. if p r then Bool.false else Bool.true) (rows t))
        × (n ≡ count_by p (rows t))
