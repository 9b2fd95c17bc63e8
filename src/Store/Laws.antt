-- ===== src/Store/Laws.antt =====
-- Inversion of actions that succeed: what each statement of a `do` block has done.
use dae_wing.Base.{
  ◌∙◌, ◌++◌, ℕ, ◌≡◌, refl, ap, sym, inl, inr, Bool, true, List, [], ◌∷◌, map, filter_by, count_by,
  ◌==◌, if◌then◌else◌, Bool-cases, Result, ok, err, Error, Result-cases, All, arith,
}
use dae_wing.Base.Lists.{All-filter_by}
use dae_wing.Store.Engine.{Engine}
use dae_wing.Store.Models.{Db}
use dae_wing.Store.Exec.{
  Exec, pure, lift, ◌>>=◌, TableOf, find, first, create, delete, update, update_by_id, transaction,
}

module _ ⦃E : Engine⦄ where
  -- An action that only returns, returns that.
  pub pure-ok : {A : Type 0} (a b : A) (s s1 : Db E) → pure a s ≡ (ok b, s1) → (b ≡ a) × (s1 ≡ s)
  pure-ok a b s s1 h = (ground arith, ground arith)

  -- A block that succeeds ran its first action with success, and then the rest.
  pub bind-ok {ℓ κ} :
      {A : Type ℓ} {B : Type κ} (m : Exec A) (f : A → Exec B) (s s' : Db E) (b : B)
      → (m >>= f) s ≡ (ok b, s')
      → (a : A) × (s1 : Db E) × (m s ≡ (ok a, s1)) × (f a s1 ≡ (ok b, s'))
  bind-ok m f s s' b h = elim (Result-cases (m s).0) [
    | inl (a, e) ↦ (a, (m s).1, ground (arith, e), ground (arith, e))
    | inr (x, e) ↦ absurd (ground (arith, e))
  ]

  pub lift-bind-ok {ℓ κ} :
      {A : Type ℓ} {B : Type κ} (r : Result A) (f : A → Exec B) (s s' : Db E) (b : B)
      → (lift r >>= f) s ≡ (ok b, s')
      → (a : A) × (r ≡ ok a) × (f a s ≡ (ok b, s'))
  lift-bind-ok (ok a) f s s' b h = (a, refl, h)
  lift-bind-ok (err e) f s s' b h = absurd (cc)

  -- A transaction that fails changes nothing; one that succeeds is its body.
  pub transaction-err {ℓ} :
      {A : Type ℓ} (m : Exec A) (s s' : Db E) (e : Error) → transaction m s ≡ (err e, s') → s' ≡ s
  transaction-err m s s' e h = ground arith

  pub transaction-ok {ℓ} :
      {A : Type ℓ} (m : Exec A) (s s' : Db E) (a : A)
      → transaction m s ≡ (ok a, s')
      → m s ≡ (ok a, s')
  transaction-ok m s s' a h = elim (Result-cases (m s).0) [
    | inl (a', e) ↦ ground (arith, e)
    | inr (x, e) ↦ absurd (ground (arith, e))
  ]

  module _ {R : Type 0} (T : TableOf R) where
    pub find-ok :
        (p : R → Bool) (s s' : Db E) (l : List R)
        → find T p s ≡ (ok l, s')
        → (l ≡ filter_by p (E.rows (T.get s))) × (s' ≡ s)
    find-ok p s s' l h = (E.find-rows (T.get s) p l (ground arith), ground arith)

    -- A block that succeeds and starts with a SELECT goes on with the rows, on the same database.
    pub find-bind-ok {κ} :
        {B : Type κ} (p : R → Bool) (f : List R → Exec B) (s s' : Db E) (b : B)
        → (find T p >>= f) s ≡ (ok b, s')
        → f (filter_by p (E.rows (T.get s))) s ≡ (ok b, s')
    find-bind-ok p f s s' b h =
        let (l, s1, h1, k1) = bind-ok (find T p) f s s' b h in
        let (rows, same) = find-ok p s s1 l h1 in
        ap (λ r. f r s) (sym rows) ∙ ap (f l) (sym same) ∙ k1

    pub update-ok :
        (p : R → Bool) (f : R → R) (s s' : Db E) (n : ℕ)
        → update T p f s ≡ (ok n, s')
        → (t : E.Table R) × (s' ≡ T.put s t)
          × (E.rows t ≡ map (λ r. if p r then f r else r) (E.rows (T.get s)))
          × (n ≡ count_by p (E.rows (T.get s)))
    update-ok p f s s' n h = elim (Result-cases (E.update (T.get s) p f)) [
      | inr (e, failed) ↦ absurd (ground arith)
      | inl ((t, k), e) ↦
          let (rows, count) = E.update-rows (T.get s) p f t k e in
          (t, ground arith, rows, ground (arith, count))
    ]

    pub update_by_id-ok :
        (key : R → ℕ) (id : ℕ) (f : R → R) (s s' : Db E) (n : ℕ)
        → update_by_id T key id f s ≡ (ok n, s')
        → (t : E.Table R) × (s' ≡ T.put s t)
          × (E.rows t ≡ map (λ r. if key r == id then f r else r) (E.rows (T.get s)))
          × (n ≡ count_by (λ r. key r == id) (E.rows (T.get s)))
    update_by_id-ok key id f s s' n h = elim (Bool-cases (id == 0)) [
      | inl zero_id ↦ absurd (ground arith)
      | inr some_id ↦ update-ok (λ r. key r == id) f s s' n (ground arith)
    ]

    -- A statement that fails changes nothing.
    pub update_by_id-err :
        (key : R → ℕ) (id : ℕ) (f : R → R) (s : Db E) (e : Error)
        → (update_by_id T key id f s).0 ≡ err e
        → update_by_id T key id f s ≡ (err e, s)
    update_by_id-err key id f s e h = elim (Bool-cases (id == 0)) [
      | inl zero_id ↦ ground (arith, zero_id)
      | inr some_id ↦ elim (Result-cases (E.update (T.get s) (λ r. key r == id) f)) [
        | inr (x, failed) ↦ ground (arith, some_id, failed)
        | inl ((t, n), went) ↦ absurd (ground (arith, some_id, went))
      ]
    ]

    pub create-ok :
        (key : R → ℕ) (mk : ℕ → R) (s s' : Db E) (r : R)
        → create T key mk s ≡ (ok r, s')
        → (t : E.Table R) × (s' ≡ T.put s t)
          × (E.rows t ≡ E.rows (T.get s) ++ r ∷ [])
          × (id : ℕ) × (r ≡ mk id)
    create-ok key mk s s' r h = elim (Result-cases (E.insert key (T.get s) mk)) [
      | inr (e, failed) ↦ absurd (ground arith)
      | inl ((t, x), e) ↦
          let (id, made, rows, lt) = E.insert-rows key (T.get s) mk t x e in
          let same : r ≡ x = ground arith in
          (t, ground arith, ground (arith, rows, same), id, same ∙ made)
    ]

    pub delete-ok :
        (p : R → Bool) (s s' : Db E) (n : ℕ)
        → delete T p s ≡ (ok n, s')
        → (t : E.Table R) × (s' ≡ T.put s t)
          × (E.rows t ≡ filter_by (λ r. if p r then Bool.false else Bool.true) (E.rows (T.get s)))
          × (n ≡ count_by p (E.rows (T.get s)))
    delete-ok p s s' n h = elim (Result-cases (E.delete (T.get s) p)) [
      | inr (e, failed) ↦ absurd (ground arith)
      | inl ((t, k), e) ↦
          let (rows, count) = E.delete-rows (T.get s) p t k e in
          (t, ground arith, rows, ground (arith, count))
    ]

    -- The row that `First` gives passes the test.
    pub first-ok :
        (p : R → Bool) (s s' : Db E) (r : R) → first T p s ≡ (ok r, s') → (p r ≡ true) × (s' ≡ s)
    first-ok p s s' r h = elim (Result-cases (E.find (T.get s) p)) [
      | inr (e, failed) ↦ absurd (ground arith)
      | inl ([], found) ↦ absurd (ground arith)
      | inl (x ∷ l, found) ↦
          let passes = All-filter_by p (E.rows (T.get s)) in
          let same : x ∷ l ≡ filter_by p (E.rows (T.get s)) =
            E.find-rows (T.get s) p (x ∷ l) found in
          let all_pass : All (λ y. p y ≡ true) (x ∷ l) = rw (← same) at passes in
          (ground arith, ground arith)
    ]

    -- `First` only reads.
    pub first-pure :
        (p : R → Bool) (s : Db E) (q : Result R) → (first T p s).0 ≡ q → first T p s ≡ (q, s)
    first-pure p s q h = elim (Result-cases (E.find (T.get s) p)) [
      | inr (e, failed) ↦ ground arith
      | inl (l, found) ↦ ground arith
    ]
