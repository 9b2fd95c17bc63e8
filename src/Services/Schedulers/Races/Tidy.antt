-- ===== src/Services/Schedulers/Races/Tidy.antt =====
-- However the goroutines interleave, the started schedulers are those of the cache.
use mathlib.Core.Path.{subst}
use dae_wing.Base.{
  ℕ, suc, ◌<◌, ◌≤◌, ◌≡◌, ◌⊎◌, refl, ap, sym, ◌∙◌, inl, inr, Bool, true, false, not, Option, none,
  some, List, [], ◌∷◌, ◌++◌, Text, filter_by, count_by, All, ◌==◌, ==-true, ==-refl, Bool-cases,
  Result, arith,
}
use dae_wing.Base.Lists.{filter_by-All}
use dae_wing.Services.Schedulers.Races.{
  Shared, Place, cached, store, stopped, deleted, add_locked, remove_locked, advance, Step, Reach,
}
use dae_wing.Store.Models.{Subscription}

abbrev Other : ℕ → ℕ → ℕ × ℕ → Type 0
Other k h r = ((r.0 == k) ≡ false) × ((r.1 == h) ≡ false)

-- no identifier twice, no handle twice
abbrev Distinct : List (ℕ × ℕ) → Type 0
Distinct [] = Unit
Distinct ((k, h) ∷ l) = All (Other k h) l × Distinct l

Distinct-filter_by : (p : ℕ × ℕ → Bool) (l : List (ℕ × ℕ)) → Distinct l → Distinct (filter_by p l)
Distinct-filter_by p [] d = tt
Distinct-filter_by p ((k, h) ∷ l) (o, d) = elim (Bool-cases (p (k, h))) [
  | inl kept ↦ rw kept (filter_by-All (Other k h) p l o, Distinct-filter_by p l d)
  | inr left ↦ rw left (Distinct-filter_by p l d)
]

kept-All : (p : ℕ × ℕ → Bool) (l : List (ℕ × ℕ)) → All (λ r. p r ≡ true) l → filter_by p l ≡ l
kept-All p [] h = refl
kept-All p (r ∷ l) (hr, h) = ground (arith, kept-All p l h)

others_kept :
    (k h : ℕ) (l : List (ℕ × ℕ)) → All (Other k h) l → (stopped h l ≡ l) × (deleted k l ≡ l)
others_kept k h [] o = (refl, refl)
others_kept k h (r ∷ l) ((a, b), o) =
    let (x, y) = others_kept k h l o in (ground (arith, x), ground (arith, y))

cached-Other :
    (id k g h : ℕ) (l : List (ℕ × ℕ)) → All (Other k g) l → cached id l ≡ some h → (g == h) ≡ false
unfolding cached
cached-Other id k g h [] o c = absurd (ground arith)
cached-Other id k g h ((j, f) ∷ l) ((_, other), o) c = elim (Bool-cases (j == id)) [
  | inl same ↦ ground (arith, same)
  | inr differ ↦ cached-Other id k g h l o (ground (arith, differ))
]

-- the scheduler of the cache that is stopped is the one that is deleted
stopped-deleted :
    (id h : ℕ) (l : List (ℕ × ℕ)) → Distinct l → cached id l ≡ some h → stopped h l ≡ deleted id l
unfolding cached
stopped-deleted id h [] d c = absurd (ground arith)
stopped-deleted id h ((k, g) ∷ l) (o, d) c = elim (Bool-cases (k == id)) [
  | inl same ↦
      let h_is : g ≡ h = ground (arith, same) in
      let id_is = ==-true k id same in
      let (x, y) = others_kept k g l o in ground (arith, same, x, y, h_is, id_is, ==-refl g)
  | inr differ ↦
      let rest : cached id l ≡ some h = ground (arith, differ) in
      ground (arith, differ, cached-Other id k g h l o rest, stopped-deleted id h l d rest)
]

-- a new entry of the cache
store-absent : (id h : ℕ) (l : List (ℕ × ℕ)) → cached id l ≡ none → store id h l ≡ l ++ (id, h) ∷ []
unfolding cached store
store-absent id h [] c = refl
store-absent id h ((k, g) ∷ l) c = ground (arith, store-absent id h l)

Distinct-append :
    (id h : ℕ) (l : List (ℕ × ℕ))
    → cached id l ≡ none
    → All (λ r. r.1 < h) l
    → Distinct l
    → Distinct (l ++ (id, h) ∷ [])
unfolding cached
Distinct-append id h [] c below d = (tt, tt)
Distinct-append id h ((k, g) ∷ l) c (b, below) (o, d) =
    (append-Other l o, Distinct-append id h l (ground arith) below d)
  where
    append-Other : (m : List (ℕ × ℕ)) → All (Other k g) m → All (Other k g) (m ++ (id, h) ∷ [])
    append-Other [] _ = ((ground arith, ground arith), tt)
    append-Other (r ∷ m) (or, om) = (or, append-Other m om)

below-append :
    (id h : ℕ) (l : List (ℕ × ℕ))
    → All (λ r. r.1 < h) l
    → All (λ r. r.1 < suc h) (l ++ (id, h) ∷ [])
below-append id h [] b = (omega arith, tt)
below-append id h (r ∷ l) (br, b) = (omega (arith, br), below-append id h l b)

-- what holds of the cache and the schedulers between two steps
record IsTidy (s : Shared) : Type 0 where
  same : s.started ≡ s.cache
  distinct : Distinct s.cache
  below : All (λ r. r.1 < s.fresh) s.cache

Option-cases : (o : Option ℕ) → (o ≡ none) ⊎ ((h : ℕ) × (o ≡ some h))
Option-cases none = inl refl
Option-cases (some h) = inr (h, refl)

abbrev with_new : ℕ → Shared → Shared
with_new id s = record {
  started = s.started ++ (id, s.fresh) ∷ [];
  cache = store id s.fresh s.cache;
  fresh = suc s.fresh;
}

abbrev without : ℕ → ℕ → Shared → Shared
without id h s = record s { started = stopped h s.started; cache = deleted id s.cache }

new-IsTidy : (id : ℕ) (s : Shared) → IsTidy s → cached id s.cache ≡ none → IsTidy (with_new id s)
new-IsTidy id s tidy none_yet =
    let stored = store-absent id s.fresh s.cache none_yet in
    record {
      same = ap (λ l. l ++ (id, s.fresh) ∷ []) tidy.same ∙ sym stored;
      distinct =
          subst Distinct (sym stored)
            (Distinct-append id s.fresh s.cache none_yet tidy.below tidy.distinct);
      below =
          subst (All (λ (r : ℕ × ℕ). r.1 < suc s.fresh)) (sym stored)
            (below-append id s.fresh s.cache tidy.below);
    }

Distinct-count-zero :
    (id h : ℕ) (l : List (ℕ × ℕ)) → All (Other id h) l → count_by (λ r. r.0 == id) l ≡ 0
Distinct-count-zero id h [] o = refl
Distinct-count-zero id h (r ∷ l) (o, os) = ground (arith, Distinct-count-zero id h l os)

Distinct-count : (id : ℕ) (l : List (ℕ × ℕ)) → Distinct l → count_by (λ r. r.0 == id) l ≤ 1
Distinct-count id [] d = omega arith
Distinct-count id ((k, h) ∷ l) (o, d) = elim (Bool-cases (k == id)) [
  | inl same ↦
      let k_is = ==-true k id same in
      let none_left : count_by (λ (r : ℕ × ℕ). r.0 == id) l ≡ 0 =
        ap (λ j. count_by (λ (r : ℕ × ℕ). r.0 == j) l) (sym k_is) ∙ Distinct-count-zero k h l o in
      ground (arith, same, none_left)
  | inr differ ↦ ground (arith, differ, Distinct-count id l d)
]

module _ (valid : Text → Bool) where
  add_locked-IsTidy : (sub : Subscription) (s : Shared) → IsTidy s → IsTidy (add_locked valid sub s)
  unfolding add_locked
  add_locked-IsTidy sub s tidy = elim (Option-cases (cached sub.id s.cache)) [
    | inr (h, there) ↦
        let left : add_locked valid sub s ≡ s = ground (arith, there) in
        subst IsTidy (sym left) tidy
    | inl none_yet ↦ elim (Bool-cases (valid sub.cron_exp)) [
      | inl accepted ↦
          let new : add_locked valid sub s ≡ with_new sub.id s =
            ground (arith, none_yet, accepted) in
          subst IsTidy (sym new) (new-IsTidy sub.id s tidy none_yet)
      | inr refused ↦
          let left : add_locked valid sub s ≡ s = ground (arith, none_yet, refused) in
          subst IsTidy (sym left) tidy
    ]
  ]

  removed-IsTidy :
      (id h : ℕ) (s : Shared) → IsTidy s → cached id s.cache ≡ some h → IsTidy (without id h s)
  removed-IsTidy id h s tidy there = record {
    same = ap (stopped h) tidy.same ∙ stopped-deleted id h s.cache tidy.distinct there;
    distinct = Distinct-filter_by (λ r. not (r.0 == id)) s.cache tidy.distinct;
    below = filter_by-All (λ r. r.1 < s.fresh) (λ r. not (r.0 == id)) s.cache tidy.below;
  }

  remove_locked-IsTidy : (id : ℕ) (s : Shared) → IsTidy s → IsTidy (remove_locked valid id s)
  unfolding remove_locked
  remove_locked-IsTidy id s tidy = elim (Option-cases (cached id s.cache)) [
    | inl none_yet ↦
        let left : remove_locked valid id s ≡ s = ground (arith, none_yet) in
        subst IsTidy (sym left) tidy
    | inr (h, there) ↦
        let gone : remove_locked valid id s ≡ without id h s = ground (arith, there) in
        subst IsTidy (sym gone) (removed-IsTidy id h s tidy there)
  ]

  advance-IsTidy :
      (q : Result Subscription) (p : Place) (s : Shared) → IsTidy s → IsTidy (advance valid q p s).1
  unfolding advance
  advance-IsTidy q (Place.adding id) s tidy = tidy
  advance-IsTidy q (Place.checking sub) s tidy = tidy
  advance-IsTidy q (Place.locking sub) s tidy = add_locked-IsTidy sub s tidy
  advance-IsTidy q (Place.removing id) s tidy = remove_locked-IsTidy id s tidy
  advance-IsTidy q Place.returned s tidy = tidy

  Step-IsTidy : (w w' : List Place × Shared) → Step valid w w' → IsTidy w.1 → IsTidy w'.1
  Step-IsTidy _ _ (Step.spawn ps p s) tidy = tidy
  Step-IsTidy _ _ (Step.move before after p q s) tidy = advance-IsTidy q p s tidy

  Reach-IsTidy : (w : List Place × Shared) → Reach valid w → IsTidy w.1
  Reach-IsTidy _ Reach.start = record { same = refl; distinct = tt; below = tt }
  Reach-IsTidy _ (Reach.later w w' r st) = Step-IsTidy w w' st (Reach-IsTidy w r)

  -- However many goroutines add and remove the schedulers of however many subscriptions, and
  -- however their steps interleave: in every state that they reach, the schedulers that are started
  -- and not stopped are just those of the cache, and no subscription has two.
  pub Reach-started :
      (w : List Place × Shared) (id : ℕ)
      → Reach valid w
      → (w.1.started ≡ w.1.cache) × (count_by (λ r. r.0 == id) w.1.started ≤ 1)
  Reach-started w id r =
      let tidy = Reach-IsTidy w r in
      (
        tidy.same,
        subst (λ l. count_by (λ (x : ℕ × ℕ). x.0 == id) l ≤ 1) (sym tidy.same)
            (Distinct-count id w.1.cache tidy.distinct),
      )
