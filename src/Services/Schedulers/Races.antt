-- ===== src/Services/Schedulers/Races.antt =====
-- `AddUpdateScheduler` and `RemoveUpdateScheduler` of
-- graphql/service/subscription/mutation_utils.go as they interleave in several goroutines. A step
-- is what one goroutine does next, up to the end of the lock that it holds: the query, the check
-- under the read lock, the section under the write lock. What the query answers is free, since the
-- database changes meanwhile. A scheduler of gocron is a handle.
pub mod Tidy
use dae_wing.Base.{
  ℕ, suc, zero, ◌+◌, ◌≡◌, Bool, true, false, not, Option, none, some, List, [], ◌∷◌, ◌++◌, Text,
  filter_by, ◌==◌, if◌then◌else◌, Result, ok, err,
}
use dae_wing.Store.Models.{Subscription}

-- the schedulers that are started and not stopped, with the subscription that each one updates;
-- `schedulerCache`; and the next handle
pub record Shared : Type 0 where
  pub started : List (ℕ × ℕ)
  pub cache : List (ℕ × ℕ)
  pub fresh : ℕ

-- where a goroutine stands
pub data Place : Type 0 where
  adding : ℕ → Place
  checking locking : Subscription → Place
  removing : ℕ → Place
  returned : Place

-- `schedulerCache[id]`
unfoldable pub cached : ℕ → List (ℕ × ℕ) → Option ℕ
cached id [] = none
cached id ((k, h) ∷ c) = if k == id then some h else cached id c

-- `schedulerCache[id] = s`
unfoldable pub store : ℕ → ℕ → List (ℕ × ℕ) → List (ℕ × ℕ)
store id h [] = (id, h) ∷ []
store id h ((k, g) ∷ c) = let rest = store id h c in if k == id then (k, h) ∷ c else (k, g) ∷ rest

-- `Stop` of one scheduler, and `delete` from the map
abbrev pub stopped : ℕ → List (ℕ × ℕ) → List (ℕ × ℕ)
stopped h = filter_by (λ r. not (r.1 == h))

abbrev pub deleted : ℕ → List (ℕ × ℕ) → List (ℕ × ℕ)
deleted id = filter_by (λ r. not (r.0 == id))

module _ (valid : Text → Bool) where
  -- the section under the write lock of AddUpdateScheduler, from the double check on
  unfoldable pub add_locked : Subscription → Shared → Shared
  add_locked sub s = elim (cached sub.id s.cache) [
    | some _ ↦ s
    | none ↦
        if valid sub.cron_exp
        then record {
          started = s.started ++ (sub.id, s.fresh) ∷ [];
          cache = store sub.id s.fresh s.cache;
          fresh = suc s.fresh;
        }
        else s
  ]

  -- RemoveUpdateScheduler
  unfoldable pub remove_locked : ℕ → Shared → Shared
  remove_locked id s = elim (cached id s.cache) [
    | none ↦ s
    | some h ↦ record s { started = stopped h s.started; cache = deleted id s.cache }
  ]

  -- the check under the read lock
  abbrev pub check : Subscription → Option ℕ → Place
  check sub none = Place.locking sub
  check sub (some h) = Place.returned

  -- behind the query
  abbrev pub queried : Result Subscription → Place
  queried (err e) = Place.returned
  queried (ok sub) = if sub.cron_enable then Place.checking sub else Place.returned

  -- one step of a goroutine, with the answer to its query
  unfoldable pub advance : Result Subscription → Place → Shared → Place × Shared
  advance q (Place.adding id) s = (queried q, s)
  advance q (Place.checking sub) s = (check sub (cached sub.id s.cache), s)
  advance q (Place.locking sub) s = (Place.returned, add_locked sub s)
  advance q (Place.removing id) s = (Place.returned, remove_locked id s)
  advance q Place.returned s = (Place.returned, s)

  -- A goroutine starts an operation, or one that is there makes a step.
  pub data Step : List Place × Shared → List Place × Shared → Type 0 where
    spawn : (ps : List Place) (p : Place) (s : Shared) → Step (ps, s) (p ∷ ps, s)
    move :
        (before after : List Place) (p : Place) (q : Result Subscription) (s : Shared)
        → Step (before ++ p ∷ after, s) (before ++ (advance q p s).0 ∷ after, (advance q p s).1)

  abbrev pub idle : List Place × Shared
  idle = ([], record { started = []; cache = []; fresh = 0 })

  pub data Reach : List Place × Shared → Type 0 where
    start : Reach idle
    later : (w w' : List Place × Shared) → Reach w → Step w w' → Reach w'
