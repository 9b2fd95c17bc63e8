-- ===== src/Mutations/Tables.antt =====
-- A table whose rows have an identifier and a mark: no identifier stands twice, and one row at
-- most is marked.
use dae_wing.Base.{
  ℕ, ◌+◌, ◌≤◌, ◌<◌, ◌≡◌, refl, ap, Bool, false, List, [], ◌∷◌, ◌++◌, map, filter_by, count_by, ◌==◌,
  if◌then◌else◌, All, arith,
}

module _ {R : Type 0} (key : R → ℕ) (selected : R → Bool) where
  pub record IsOrderly (rs : List R) : Type 0 where
    pub once : (k : ℕ) → count_by (λ r. key r == k) rs ≤ 1
    pub marked : count_by selected rs ≤ 1

  count_by-map :
      (q p : R → Bool) (f : R → R) (rs : List R)
      → ((r : R) → q (f r) ≡ q r)
      → count_by q (map (λ r. if p r then f r else r) rs) ≡ count_by q rs
  count_by-map q p f [] h = refl
  count_by-map q p f (r ∷ rs) h = ground (arith, count_by-map q p f rs h, h r)

  count_by-filter_by : (q p : R → Bool) (rs : List R) → count_by q (filter_by p rs) ≤ count_by q rs
  count_by-filter_by q p [] = omega arith
  count_by-filter_by q p (r ∷ rs) = ground (arith, count_by-filter_by q p rs)

  count_by-append :
      (q : R → Bool) (rs ts : List R) → count_by q (rs ++ ts) ≡ count_by q rs + count_by q ts
  count_by-append q [] ts = omega arith
  count_by-append q (r ∷ rs) ts = ground (arith, count_by-append q rs ts)

  -- no row has an identifier that is greater than all
  count_by-lt :
      (id k : ℕ) (rs : List R)
      → All (λ o. key o < id) rs
      → id ≤ k
      → count_by (λ r. key r == k) rs ≡ 0
  count_by-lt id k [] _ h = refl
  count_by-lt id k (r ∷ rs) (lt, lts) h = ground (arith, count_by-lt id k rs lts h)

  pub map-IsOrderly :
      (p : R → Bool) (f : R → R) (rs ts : List R)
      → ((r : R) → key (f r) ≡ key r)
      → ((r : R) → selected (f r) ≡ selected r)
      → ts ≡ map (λ r. if p r then f r else r) rs
      → IsOrderly rs
      → IsOrderly ts
  map-IsOrderly p f rs ts hk hs e h = record {
    once = λ k. omega (
      arith,
      h.once k,
      ap (count_by (λ r. key r == k)) e,
      count_by-map (λ r. key r == k) p f rs (λ r. ap (λ x. x == k) (hk r)),
    );
    marked = omega (arith, h.marked, ap (count_by selected) e, count_by-map selected p f rs hs);
  }

  pub filter_by-IsOrderly :
      (p : R → Bool) (rs ts : List R) → ts ≡ filter_by p rs → IsOrderly rs → IsOrderly ts
  filter_by-IsOrderly p rs ts e h = record {
    once = λ k. omega (
      arith,
      h.once k,
      ap (count_by (λ r. key r == k)) e,
      count_by-filter_by (λ r. key r == k) p rs,
    );
    marked = omega (arith, h.marked, ap (count_by selected) e, count_by-filter_by selected p rs);
  }

  pub append-IsOrderly :
      (id : ℕ) (r : R) (rs ts : List R)
      → key r ≡ id
      → selected r ≡ false
      → ts ≡ rs ++ r ∷ []
      → All (λ o. key o < id) rs
      → IsOrderly rs
      → IsOrderly ts
  append-IsOrderly id r rs ts hk hs e below h = record {
    once = λ k. ground (
      arith,
      h.once k,
      ap (count_by (λ r. key r == k)) e,
      count_by-append (λ r. key r == k) rs (r ∷ []),
      count_by-lt id k rs below,
    );
    marked =
        ground (arith, h.marked, ap (count_by selected) e, count_by-append selected rs (r ∷ []));
  }

  count_by-map_all :
      (q p : R → Bool) (g : R → R) (rs : List R)
      → ((r : R) → q (g r) ≡ p r)
      → count_by q (map g rs) ≡ count_by p rs
  count_by-map_all q p g [] h = refl
  count_by-map_all q p g (r ∷ rs) h = ground (arith, count_by-map_all q p g rs h, h r)

  -- the marks may be set anew, on one row at most
  pub mark-IsOrderly :
      (p : R → Bool) (g : R → R) (rs ts : List R)
      → ((r : R) → key (g r) ≡ key r)
      → ((r : R) → selected (g r) ≡ p r)
      → count_by p rs ≤ 1
      → ts ≡ map g rs
      → IsOrderly rs
      → IsOrderly ts
  mark-IsOrderly p g rs ts hk hs one e h = record {
    once = λ k. omega (
      arith,
      h.once k,
      ap (count_by (λ r. key r == k)) e,
      count_by-map_all (λ r. key r == k) (λ r. key r == k) g rs (λ r. ap (λ x. x == k) (hk r)),
    );
    marked = omega (arith, one, ap (count_by selected) e, count_by-map_all selected p g rs hs);
  }

  pub count_by-false : (rs : List R) → count_by (λ (r : R). false) rs ≡ 0
  count_by-false [] = refl
  count_by-false (r ∷ rs) = ground (arith, count_by-false rs)
