-- ===== src/Services/Schedulers.antt =====
-- `schedulerCache` of graphql/service/subscription/mutation_utils.go, and the operations on it.
-- A scheduler is the cron expression that it runs by; gocron is the parameter `valid`, which says
-- which expressions it accepts. An operation is one step here; how operations interleave is in
-- Schedulers/Races.
pub mod Laws
pub mod Races
use dae_wing.Base.{
  ℕ, zero, suc, Bool, true, false, not, ◌&&◌, ◌||◌, Option, none, some, List, [], ◌∷◌, Text, elem,
  text_eq, filter_by, ◌==◌, if◌then◌else◌, Result, ok, err, Error,
}
use dae_wing.Cursor.{decode_cursor, decode_cursor_batch}
use dae_wing.Services.Subscriptions.{remove_rows}
use dae_wing.Store.Engine.{Engine}
use dae_wing.Store.Models.{Subscription, Db}
use dae_wing.Store.Exec.{
  Exec, pure, fail, lift, ◌>>=◌, ◌>>◌, subscriptions, find, first, update_by_id, transaction,
}

abbrev pub Cache : Type 0
Cache = List (ℕ × Text)

-- `schedulerCache[id]`
unfoldable pub scheduler : ℕ → Cache → Option Text
scheduler id [] = none
scheduler id ((k, exp) ∷ c) = if k == id then some exp else scheduler id c

-- RemoveUpdateScheduler
unfoldable pub remove_scheduler : ℕ → Cache → Cache
remove_scheduler id [] = []
remove_scheduler id ((k, exp) ∷ c) =
    let rest = remove_scheduler id c in if k == id then rest else (k, exp) ∷ rest

unfoldable pub remove_schedulers : List ℕ → Cache → Cache
remove_schedulers [] c = c
remove_schedulers (id ∷ ids) c = remove_schedulers ids (remove_scheduler id c)

abbrev absent : ℕ → Cache → Bool
absent id c = elim (scheduler id c) [ none ↦ true | some _ ↦ false ]

-- the part of AddUpdateScheduler behind the query
unfoldable pub schedule : (Text → Bool) → Subscription → Cache → Cache
schedule valid sub c =
    if sub.cron_enable && (absent sub.id c && valid sub.cron_exp)
    then (sub.id, sub.cron_exp) ∷ c
    else c

module _ ⦃E : Engine⦄ where
  -- AddUpdateScheduler; it reads the database outside any transaction
  unfoldable pub add_scheduler : (Text → Bool) → ℕ → Db E → Cache → Cache
  add_scheduler valid id s c = elim (first subscriptions (λ r. r.id == id) s).0 [
    | err _ ↦ c
    | ok sub ↦ schedule valid sub c
  ]

  unfoldable pub add_schedulers : (Text → Bool) → List Subscription → Db E → Cache → Cache
  add_schedulers valid [] s c = c
  add_schedulers valid (sub ∷ subs) s c =
      add_schedulers valid subs s (add_scheduler valid sub.id s c)

  -- UpdateAll
  unfoldable pub update_all : (Text → Bool) → Db E → Cache → Cache
  update_all valid s c = elim (find subscriptions (λ r. true) s).0 [
    | err _ ↦ c
    | ok subs ↦ add_schedulers valid subs s c
  ]

  abbrev pub World : Type 0
  World = Db E × Cache

  abbrev kept : {A : Type 0} → Result A × Db E → Cache → (Cache → Cache) → Result A × World
  kept (ok a, s) c f = (ok a, (s, f c))
  kept (err e, s) c f = (err e, (s, c))

  -- Remove
  unfoldable pub remove_subscriptions : List Text → World → Result ℕ × World
  remove_subscriptions cursors (s, c) = elim (decode_cursor_batch cursors) [
    | err e ↦ (err e, (s, c))
    | ok ids ↦ kept (transaction (remove_rows ids) s) c (remove_schedulers ids)
  ]

  -- the statements of UpdateCron
  unfoldable pub write_cron : ℕ → Text → Bool → Exec Subscription
  write_cron id exp enable = do
    m ← first subscriptions (λ r. id == 0 || r.id == id)
    update_by_id subscriptions (λ r. r.id) m.id
        (λ r. record r { cron_exp = exp; cron_enable = enable })
    pure (record m { cron_exp = exp; cron_enable = enable })

  -- UpdateCron. The scheduler is added before the deferred commit, by a query outside the
  -- transaction: it meets the database as it was before.
  unfoldable pub update_cron :
      (Text → Bool) → Text → Text → Bool → World → Result Subscription × World
  update_cron valid cursor exp enable (s, c) = elim (decode_cursor cursor) [
    | err e ↦ (err e, (s, c))
    | ok id ↦
        if enable && (not (text_eq exp []) && not (valid exp))
        then (err Error.bad_cron, (s, c))
        else kept (transaction (write_cron id exp enable) s) c (λ c.
          let c' = remove_scheduler id c in if enable then add_scheduler valid id s c' else c')
  ]
