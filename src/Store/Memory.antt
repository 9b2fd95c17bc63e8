-- ===== src/Store/Memory.antt =====
-- Two engines that meet the interface: one keeps each table as a list and never fails, the other
-- refuses every write. They show that the laws can hold, and run the tests.
use dae_wing.Base.{
  ℕ, suc, ◌<◌, ◌≤◌, ◌≡◌, ◌≢◌, Bool, true, false, List, [], ◌∷◌, ◌++◌, map, filter_by, count_by, ltb,
  if◌then◌else◌, Result, ok, err, Error, All, arith,
}
use dae_wing.Store.Engine.{Engine}

module _ {R : Type 0} (key : R → ℕ) where
  abbrev last_key : List R → ℕ
  last_key [] = 0
  last_key (r ∷ rs) = let k = last_key rs in if ltb k (key r) then key r else k

  key-lt-bound : (rs : List R) (b : ℕ) → last_key rs ≤ b → All (λ o. key o < suc b) rs
  key-lt-bound [] b h = tt
  key-lt-bound (r ∷ rs) b h = (ground arith, key-lt-bound rs b (ground arith))

pub find-rows_memory :
    {R : Type 0} (t : List R) (p : R → Bool) (l : List R)
    → Result.ok (filter_by p t) ≡ ok l
    → l ≡ filter_by p t
find-rows_memory t p l h = cc

pub found_memory :
    {R : Type 0} (t : List R) (p : R → Bool) → Result.ok (filter_by p t) ≢ err Error.not_found
found_memory t p h = cc

pub insert-rows_memory :
    {R : Type 0} (key : R → ℕ) (t : List R) (mk : ℕ → R) (t' : List R) (r : R)
    → ◌≡◌ {A = Result (List R × R)}
        (ok (t ++ mk (suc (last_key key t)) ∷ [], mk (suc (last_key key t))))
        (ok (t', r))
    → (id : ℕ) × (r ≡ mk id) × (t' ≡ t ++ r ∷ []) × All (λ o. key o < id) t
insert-rows_memory key t mk t' r h =
    (suc (last_key key t), ground arith, ground arith, key-lt-bound key t _ (omega arith))

pub update-rows_memory :
    {R : Type 0} (t : List R) (p : R → Bool) (f : R → R) (t' : List R) (n : ℕ)
    → ◌≡◌ {A = Result (List R × ℕ)}
        (ok (map (λ r. if p r then f r else r) t, count_by p t))
        (ok (t', n))
    → (t' ≡ map (λ r. if p r then f r else r) t) × (n ≡ count_by p t)
update-rows_memory t p f t' n h = ground arith

pub delete-rows_memory :
    {R : Type 0} (t : List R) (p : R → Bool) (t' : List R) (n : ℕ)
    → ◌≡◌ {A = Result (List R × ℕ)}
        (ok (filter_by (λ r. if p r then false else true) t, count_by p t))
        (ok (t', n))
    → (t' ≡ filter_by (λ r. if p r then false else true) t) × (n ≡ count_by p t)
delete-rows_memory t p t' n h = ground arith

pub err≢ok {ℓ} : {A B : Type ℓ} (e : Error) (a : A) → err e ≡ ok a → B
err≢ok e a h = absurd (cc)

abbrev pub memory : Engine
memory = record {
  Table = λ R. List R;
  rows = λ t. t;
  find = λ t p. ok (filter_by p t);
  insert = λ key t mk. let r = mk (suc (last_key key t)) in ok (t ++ r ∷ [], r);
  update = λ t p f. ok (map (λ r. if p r then f r else r) t, count_by p t);
  delete = λ t p. ok (filter_by (λ r. if p r then false else true) t, count_by p t);
  find-rows = find-rows_memory;
  find-ne-not_found = found_memory;
  insert-rows = insert-rows_memory;
  update-rows = update-rows_memory;
  delete-rows = delete-rows_memory;
}

abbrev pub read_only : Engine
read_only = record {
  Table = λ R. List R;
  rows = λ t. t;
  find = λ t p. ok (filter_by p t);
  insert = λ key t mk. err (Error.sql 8);
  update = λ t p f. err (Error.sql 8);
  delete = λ t p. err (Error.sql 8);
  find-rows = find-rows_memory;
  find-ne-not_found = found_memory;
  insert-rows = λ key t mk t' r h. err≢ok (Error.sql 8) (t', r) h;
  update-rows = λ t p f t' n h. err≢ok (Error.sql 8) (t', n) h;
  delete-rows = λ t p t' n h. err≢ok (Error.sql 8) (t', n) h;
}
