-- ===== src/Store/Frames.antt =====
-- Two properties of actions that pass from the statements to the blocks that are made of them:
-- `Keeps P`, by which an action keeps what `P` says of the database whether it fails or not, and
-- `IsAtomic`, by which an action that fails changes nothing.
use dae_wing.Base.{
  ℕ, ◌≡◌, refl, ap, ◌∙◌, inl, inr, Bool, ◌∷◌, [], ◌++◌, map, filter_by, ◌==◌, if◌then◌else◌, Result,
  ok, err, Error, Result-cases, All, ◌<◌, arith,
}
use dae_wing.Store.Engine.{Engine}
use dae_wing.Store.Models.{Db}
use dae_wing.Store.Exec.{
  Exec, pure, fail, lift, ◌>>=◌, TableOf, find, first, create, delete, update, update_by_id,
  transaction,
}

module _ ⦃E : Engine⦄ where
  abbrev pub IsAtomic : {A : Type 0} → Exec A → Type 0
  IsAtomic m = (s s' : Db E) (e : Error) → m s ≡ (err e, s') → s' ≡ s

  -- an action that only reads
  abbrev pub IsPure : {A : Type 0} → Exec A → Type 0
  IsPure m = (s : Db E) → (m s).1 ≡ s

  pub lift-bind-IsAtomic :
      {A B : Type 0} (q : Result A) (f : A → Exec B)
      → ((a : A) → IsAtomic (f a))
      → IsAtomic (lift q >>= f)
  lift-bind-IsAtomic (ok a) f hf s s' e h = hf a s s' e h
  lift-bind-IsAtomic (err e') f hf s s' e h = ground arith

  -- after a block that only reads, what follows may fail
  pub pure-bind-IsAtomic :
      {A B : Type 0} (m : Exec A) (f : A → Exec B)
      → IsPure m
      → ((a : A) → IsAtomic (f a))
      → IsAtomic (m >>= f)
  pure-bind-IsAtomic m f hm hf s s' e h = elim (Result-cases (m s).0) [
    | inl (a, got) ↦ hf a s s' e (ground (arith, got, hm s))
    | inr (e', got) ↦ ground (arith, got, hm s)
  ]

  -- before a block that cannot fail, what precedes may fail
  pub bind-pure-IsAtomic :
      {A B : Type 0} (m : Exec A) (g : A → B) → IsAtomic m → IsAtomic (m >>= λ a. pure (g a))
  bind-pure-IsAtomic m g hm s s' e h = elim (Result-cases (m s).0) [
    | inl (a, got) ↦ absurd (ground (arith, got))
    | inr (e', got) ↦ hm s s' e (ground (arith, got))
  ]

  pub transaction-IsAtomic : {A : Type 0} (m : Exec A) → IsAtomic (transaction m)
  transaction-IsAtomic m s s' e h = ground arith

  module _ {R : Type 0} (T : TableOf R) where
    pub find-IsPure : (p : R → Bool) → IsPure (find T p)
    find-IsPure p s = refl

    pub first-IsPure : (p : R → Bool) → IsPure (first T p)
    first-IsPure p s = elim (Result-cases (E.find (T.get s) p)) [
      | inl (l, e) ↦ ground arith
      | inr (e', e) ↦ ground arith
    ]

    pub create-IsAtomic : (key : R → ℕ) (mk : ℕ → R) → IsAtomic (create T key mk)
    create-IsAtomic key mk s s' e h = ground arith

    pub update-IsAtomic : (p : R → Bool) (f : R → R) → IsAtomic (update T p f)
    update-IsAtomic p f s s' e h = ground arith

    pub update_by_id-IsAtomic :
        (key : R → ℕ) (id : ℕ) (f : R → R) → IsAtomic (update_by_id T key id f)
    update_by_id-IsAtomic key id f s s' e h = ground arith

  module _ (P : Db E → Type 0) where
    abbrev pub Keeps : {A : Type 0} → Exec A → Type 0
    Keeps m = (s : Db E) → P s → P (m s).1

    pub bind-after :
        {A B : Type 0} (m : Exec A) (f : A → Exec B) (s : Db E)
        → P (m s).1
        → ((a : A) → (m s).0 ≡ ok a → P (f a (m s).1).1)
        → P ((m >>= f) s).1
    bind-after m f s p hf = elim (Result-cases (m s).0) [
      | inl (a, got) ↦ rw got (hf a got)
      | inr (e, got) ↦ rw got p
    ]

    pub transaction-after :
        {A : Type 0} (m : Exec A) (s : Db E) → P s → P (m s).1 → P (transaction m s).1
    transaction-after m s p q = elim (Result-cases (m s).0) [
      | inl (a, got) ↦ rw got q
      | inr (e, got) ↦ rw got p
    ]

    pub bind-Keeps :
        {A B : Type 0} (m : Exec A) (f : A → Exec B)
        → Keeps m
        → ((a : A) → Keeps (f a))
        → Keeps (m >>= f)
    bind-Keeps m f hm hf s p = bind-after m f s (hm s p) (λ a _. hf a (m s).1 (hm s p))

    pub lift-bind-Keeps :
        {A B : Type 0} (q : Result A) (f : A → Exec B)
        → ((a : A) → Keeps (f a))
        → Keeps (lift q >>= f)
    lift-bind-Keeps (ok a) f hf s p = hf a s p
    lift-bind-Keeps (err e) f hf s p = p

    pub transaction-Keeps : {A : Type 0} (m : Exec A) → Keeps m → Keeps (transaction m)
    transaction-Keeps m hm s p = transaction-after m s p (hm s p)

    pub pure-Keeps : {A : Type 0} (m : Exec A) → IsPure m → Keeps m
    pure-Keeps m hm s p = rw (hm s) p

    pub if-Keeps :
        {A : Type 0} (b : Bool) (m n : Exec A) → Keeps m → Keeps n → Keeps (if b then m else n)
    if-Keeps Bool.true m n hm hn = hm
    if-Keeps Bool.false m n hm hn = hn

    module _ {R : Type 0} (T : TableOf R) where
      pub update-Keeps :
          (p : R → Bool) (f : R → R)
          → ((s : Db E) (t : E.Table R)
              → E.rows t ≡ map (λ r. if p r then f r else r) (E.rows (T.get s))
              → P s
              → P (T.put s t))
          → Keeps (update T p f)
      update-Keeps p f hp s ps = elim (Result-cases (E.update (T.get s) p f)) [
        | inl ((t, n), e) ↦ rw e (hp s t (E.update-rows (T.get s) p f t n e).0 ps)
        | inr (e', e) ↦ rw e ps
      ]

      pub update_by_id-Keeps :
          (key : R → ℕ) (id : ℕ) (f : R → R)
          → ((s : Db E) (t : E.Table R)
              → E.rows t ≡ map (λ r. if key r == id then f r else r) (E.rows (T.get s))
              → P s
              → P (T.put s t))
          → Keeps (update_by_id T key id f)
      update_by_id-Keeps key id f hp =
          if-Keeps (id == 0) (fail Error.missing_where) (update T (λ r. key r == id) f) (λ s p. p)
            (update-Keeps (λ r. key r == id) f hp)

      pub create-Keeps :
          (key : R → ℕ) (mk : ℕ → R)
          → ((s : Db E) (t : E.Table R) (id : ℕ)
              → E.rows t ≡ E.rows (T.get s) ++ mk id ∷ []
              → All (λ o. key o < id) (E.rows (T.get s))
              → P s
              → P (T.put s t))
          → Keeps (create T key mk)
      create-Keeps key mk hp s ps = elim (Result-cases (E.insert key (T.get s) mk)) [
        | inl ((t, r), e) ↦
            let (id, made, rows, new) = E.insert-rows key (T.get s) mk t r e in
            rw e (hp s t id (rows ∙ ap (λ x. E.rows (T.get s) ++ x ∷ []) made) new ps)
        | inr (e', e) ↦ rw e ps
      ]

      pub delete-Keeps :
          (p : R → Bool)
          → ((s : Db E) (t : E.Table R)
              → E.rows t ≡ filter_by (λ r. if p r then Bool.false else Bool.true) (E.rows (T.get s))
              → P s
              → P (T.put s t))
          → Keeps (delete T p)
      delete-Keeps p hp s ps = elim (Result-cases (E.delete (T.get s) p)) [
        | inl ((t, n), e) ↦ rw e (hp s t (E.delete-rows (T.get s) p t n e).0 ps)
        | inr (e', e) ↦ rw e ps
      ]
