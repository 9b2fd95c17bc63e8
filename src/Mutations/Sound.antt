-- ===== src/Mutations/Sound.antt =====
-- What the mutations keep of the configs, the dns sections and the routings.
use dae_wing.Base.{
  ℕ, ◌≡◌, ap, sym, map, ◌∙◌, inl, inr, Bool, true, false, List, ◌==◌, if◌then◌else◌, ok,
  Result-cases, arith,
}
use dae_wing.Mutations.Tables.{
  IsOrderly, map-IsOrderly, filter_by-IsOrderly, append-IsOrderly, mark-IsOrderly, count_by-false,
}
use dae_wing.Mutations.Elsewhere.{Holds}
use dae_wing.Store.Kept.{choice-Keeps}
use dae_wing.Services.Selecting.{select_rows, select_rows-ok, chosen}
use dae_wing.Store.Laws.{transaction-err, transaction-ok, bind-ok, update-ok, update_by_id-ok}
use dae_wing.Store.Engine.{Engine}
use dae_wing.Store.Models.{Config, Dns, Routing, Db}
use dae_wing.Store.Exec.{
  Exec, TableOf, create, update, update_by_id, delete, delete_by_id, transaction,
}
use dae_wing.Store.Frames.{Keeps, update_by_id-Keeps, create-Keeps, delete-Keeps}

module _ ⦃E : Engine⦄ where
  -- no identifier stands twice, and one row at most is selected, in each of the three tables
  pub record IsSound (c : E.Table Config) (d : E.Table Dns) (r : E.Table Routing) : Type 0 where
    pub configs_are : IsOrderly (λ (x : Config). x.id) (λ x. x.selected) (E.rows c)
    pub dnss_are : IsOrderly (λ (x : Dns). x.id) (λ x. x.selected) (E.rows d)
    pub routings_are : IsOrderly (λ (x : Routing). x.id) (λ x. x.selected) (E.rows r)

  -- how a statement on one of the three tables keeps the property
  module _ {R : Type 0} (T : TableOf R) (key : R → ℕ) (selected : R → Bool)
      (orderly : (s : Db E) → Holds IsSound s → IsOrderly key selected (E.rows (T.get s)))
      (sound : (s : Db E) (t : E.Table R)
        → Holds IsSound s
        → IsOrderly key selected (E.rows t)
        → Holds IsSound (T.put s t)) where
    pub changed-Keeps :
        (id : ℕ) (f : R → R)
        → ((r : R) → key (f r) ≡ key r)
        → ((r : R) → selected (f r) ≡ selected r)
        → Keeps (Holds IsSound) (update_by_id T key id f)
    changed-Keeps id f hk hs = update_by_id-Keeps (Holds IsSound) T key id f (λ s t rows h.
        sound s t h (
          map-IsOrderly key selected (λ r. key r == id) f (E.rows (T.get s)) (E.rows t) hk hs rows
            (orderly s h)))

    pub created-Keeps :
        (mk : ℕ → R)
        → ((id : ℕ) → key (mk id) ≡ id)
        → ((id : ℕ) → selected (mk id) ≡ false)
        → Keeps (Holds IsSound) (create T key mk)
    created-Keeps mk hk hs = create-Keeps (Holds IsSound) T key mk (λ s t id rows below h.
        sound s t h (
          append-IsOrderly key selected id (mk id) (E.rows (T.get s)) (E.rows t) (hk id) (hs id)
            rows below (orderly s h)))

    pub removed-Keeps : (id : ℕ) → Keeps (Holds IsSound) (delete_by_id T key id)
    removed-Keeps id =
        choice-Keeps (Holds IsSound) (id == 0) _ (delete T (λ r. key r == id)) (λ s h. h)
          (delete-Keeps (Holds IsSound) T (λ r. key r == id)
            (λ s t rows h. sound s t h (
              filter_by-IsOrderly key selected _ (E.rows (T.get s)) (E.rows t) rows (orderly s h))))

    module _ (get-put : (s : Db E) (t : E.Table R) → T.get (T.put s t) ≡ t) (clear mark : R → R)
        (key-clear : (r : R) → key (clear r) ≡ key r) (key-mark : (r : R) → key (mark r) ≡ key r)
        (selected-clear : (r : R) → selected (clear r) ≡ false)
        (selected-mark : (r : R) → selected (mark r) ≡ true) where
      abbrev selecting : ℕ → Exec ℕ
      selecting id = select_rows T get-put key selected clear mark key-clear id

      abbrev become : ℕ → R → R
      become id = chosen T get-put key selected clear mark key-clear id

      -- the two tables that `Select` writes, one after the other
      select-tables :
          (id n : ℕ) (s s' : Db E)
          → transaction (selecting id) s ≡ (ok n, s')
          → (t1 t2 : E.Table R) × (s' ≡ T.put (T.put s t1) t2)
            × (E.rows t1 ≡ map (λ r. if selected r then clear r else r) (E.rows (T.get s)))
            × (E.rows t2 ≡ map (become id) (E.rows (T.get s)))
      select-tables id n s s' full =
          let (_, rows, _) =
            select_rows-ok T get-put key selected clear mark key-clear id s s' n full in
          let body = transaction-ok (selecting id) s s' n full in
          let (n1, s1, up1, rest) = bind-ok (update T selected clear) _ s s' n body in
          let (t1, e1, rows1, _) = update-ok T selected clear s s1 n1 up1 in
          let (n2, s2, up2, last) = bind-ok (update_by_id T key id mark) _ s1 s' n rest in
          let (t2, e2, _, _) = update_by_id-ok T key id mark s1 s2 n2 up2 in
          let same : s' ≡ s2 = ground arith in
          let ends : s' ≡ T.put (T.put s t1) t2 = same ∙ e2 ∙ ap (λ x. T.put x t2) e1 in
          (
            t1,
            t2,
            ends,
            rows1,
            ap E.rows (sym (get-put (T.put s t1) t2) ∙ sym (ap T.get ends)) ∙ rows,
          )

      cleared-IsOrderly :
          (rs ts : List R)
          → ts ≡ map (λ r. if selected r then clear r else r) rs
          → IsOrderly key selected rs
          → IsOrderly key selected ts
      cleared-IsOrderly rs ts e old =
          mark-IsOrderly key selected (λ r. false) (λ r. if selected r then clear r else r) rs ts
            (λ r. ground (arith, key-clear r)) (λ r. ground (arith, selected-clear r))
            (omega (arith, count_by-false key selected rs)) e old

      become-IsOrderly :
          (id : ℕ) (rs ts : List R)
          → ts ≡ map (become id) rs
          → IsOrderly key selected rs
          → IsOrderly key selected ts
      become-IsOrderly id rs ts e old =
          mark-IsOrderly key selected (λ r. key r == id) (become id) rs ts
            (λ r. ground (arith, key-clear r, key-mark r, key-mark (clear r)))
            (λ r.
              ground
                (arith, key-clear r, selected-clear r, selected-mark r, selected-mark (clear r)))
            (old.once id) e old

      pub select-Keeps : (id : ℕ) → Keeps (Holds IsSound) (transaction (selecting id))
      select-Keeps id s h =
          let s' = (transaction (selecting id) s).1 in
          elim (Result-cases (transaction (selecting id) s).0) [
            | inr (e, failed) ↦
                rw (transaction-err (selecting id) s s' e (ground (arith, failed))) h
            | inl (n, passed) ↦
                let (t1, t2, ends, rows1, rows2) =
                  select-tables id n s s' (ground (arith, passed)) in
                let old = orderly s h in
                let cleared = cleared-IsOrderly (E.rows (T.get s)) (E.rows t1) rows1 old in
                let one = become-IsOrderly id (E.rows (T.get s)) (E.rows t2) rows2 old in
                rw ends (sound (T.put s t1) t2 (sound s t1 h cleared) one)
          ]
