-- ===== src/Store/Kept.antt =====
-- What actions keep that write other tables only than those that a property of the database reads.
use dae_wing.Base.{ℕ, Bool, if◌then◌else◌, ◌==◌, Result, Error}
use dae_wing.Store.Engine.{Engine}
use dae_wing.Store.Models.{Db}
use dae_wing.Store.Exec.{
  Exec, fail, lift, ◌>>=◌, TableOf, find, first, create, update, delete, update_by_id, delete_by_id,
  transaction,
}
use dae_wing.Store.Frames.{
  Keeps, bind-Keeps, transaction-Keeps, pure-Keeps, if-Keeps, update-Keeps, update_by_id-Keeps,
  create-Keeps, delete-Keeps, first-IsPure,
}

module _ ⦃E : Engine⦄ (P : Db E → Type 0) where
  -- a table that the property does not read
  unfoldable pub IsElsewhere : {R : Type 0} → TableOf R → Type 0
  IsElsewhere T = (s : Db E) (t : E.Table _) → P s → P (T.put s t)

  pub block-Keeps :
      {A B : Type 0} (m : Exec A) (f : A → Exec B)
      → Keeps P m
      → ((a : A) → Keeps P (f a))
      → Keeps P (m >>= f)
  block-Keeps m f = bind-Keeps P m f

  pub lift-Keeps : {A : Type 0} (q : Result A) → Keeps P (lift q)
  lift-Keeps q s h = h

  pub rollback-Keeps : {A : Type 0} (m : Exec A) → Keeps P m → Keeps P (transaction m)
  rollback-Keeps m = transaction-Keeps P m

  pub choice-Keeps :
      {A : Type 0} (b : Bool) (m n : Exec A) → Keeps P m → Keeps P n → Keeps P (if b then m else n)
  choice-Keeps b m n = if-Keeps P b m n

  module _ {R : Type 0} (T : TableOf R) where
    pub find-Keeps : (p : R → Bool) → Keeps P (find T p)
    find-Keeps p s h = h

    pub first-Keeps : (p : R → Bool) → Keeps P (first T p)
    first-Keeps p = pure-Keeps P (first T p) (first-IsPure T p)

    pub write-Keeps : (p : R → Bool) (f : R → R) → IsElsewhere T → Keeps P (update T p f)
    unfolding IsElsewhere
    write-Keeps p f h = update-Keeps P T p f (λ s t _. h s t)

    pub write_by_id-Keeps :
        (key : R → ℕ) (id : ℕ) (f : R → R) → IsElsewhere T → Keeps P (update_by_id T key id f)
    unfolding IsElsewhere
    write_by_id-Keeps key id f h = update_by_id-Keeps P T key id f (λ s t _. h s t)

    pub add-Keeps : (key : R → ℕ) (mk : ℕ → R) → IsElsewhere T → Keeps P (create T key mk)
    unfolding IsElsewhere
    add-Keeps key mk h = create-Keeps P T key mk (λ s t _ _ _. h s t)

    pub drop-Keeps : (p : R → Bool) → IsElsewhere T → Keeps P (delete T p)
    unfolding IsElsewhere
    drop-Keeps p h = delete-Keeps P T p (λ s t _. h s t)

    pub drop_by_id-Keeps : (key : R → ℕ) (id : ℕ) → IsElsewhere T → Keeps P (delete_by_id T key id)
    drop_by_id-Keeps key id h =
        choice-Keeps (id == 0) (fail Error.missing_where) (delete T (λ r. key r == id)) (λ s p. p)
          (drop-Keeps (λ r. key r == id) h)

  pub ruleset kept = (
    block-Keeps, lift-Keeps, rollback-Keeps, choice-Keeps, find-Keeps, first-Keeps, write-Keeps,
    write_by_id-Keeps, add-Keeps, drop-Keeps, drop_by_id-Keeps,
  )
