-- ===== src/Services/Schedulers/Laws.antt =====
-- What the operations do to the cache of schedulers.
use dae_wing.Base.{
  err, Error, ℕ, ◌≡◌, refl, Bool, ◌&&◌, none, some, List, [], ◌∷◌, Text, elem, ◌==◌, ==-true,
  ==-refl, if◌then◌else◌, ok, arith,
}
use dae_wing.Cursor.{decode_cursor, decode_cursor_batch}
use dae_wing.Services.Schedulers.{
  World, Cache, scheduler, remove_scheduler, remove_schedulers, schedule, add_scheduler,
  remove_subscriptions, update_cron,
}
use dae_wing.Store.Engine.{Engine}
use dae_wing.Store.Models.{Subscription, Db}
use dae_wing.Store.Laws.{first-ok}
use dae_wing.Store.Exec.{subscriptions, first}

-- Removing a scheduler removes that one only.
pub scheduler-remove_scheduler :
    (id k : ℕ) (c : Cache)
    → scheduler k (remove_scheduler id c) ≡ (if k == id then none else scheduler k c)
unfolding scheduler remove_scheduler
scheduler-remove_scheduler id k [] = ground arith
scheduler-remove_scheduler id k ((j, exp) ∷ c) = ground (arith, scheduler-remove_scheduler id k c)

pub scheduler-remove_schedulers :
    (ids : List ℕ) (k : ℕ) (c : Cache)
    → scheduler k (remove_schedulers ids c) ≡ (if elem k ids then none else scheduler k c)
unfolding remove_schedulers
scheduler-remove_schedulers [] k c = refl
scheduler-remove_schedulers (id ∷ ids) k c = ground (
  arith,
  scheduler-remove_schedulers ids k (remove_scheduler id c),
  scheduler-remove_scheduler id k c,
)

scheduler-schedule :
    (valid : Text → Bool) (sub : Subscription) (k : ℕ) (c : Cache)
    → scheduler sub.id c ≡ none
    → scheduler k (schedule valid sub c) ≡ (
        if (k == sub.id) && (sub.cron_enable && valid sub.cron_exp)
        then some sub.cron_exp
        else scheduler k c)
unfolding scheduler schedule
scheduler-schedule valid sub k c h = ground arith

module _ ⦃E : Engine⦄ where
  scheduler-add_scheduler :
      (valid : Text → Bool) (id k : ℕ) (s : Db E) (c : Cache) (old : Subscription)
      → first subscriptions (λ r. r.id == id) s ≡ (ok old, s)
      → scheduler id c ≡ none
      → scheduler k (add_scheduler valid id s c) ≡ (
          if (k == id) && (old.cron_enable && valid old.cron_exp)
          then some old.cron_exp
          else scheduler k c)
  unfolding add_scheduler
  scheduler-add_scheduler valid id k s c old found fresh =
      let (passes, same) = first-ok subscriptions (λ r. r.id == id) s s old found in
      let e : old.id ≡ id = ==-true old.id id passes in
      ground (arith, found, scheduler-schedule valid old k c, e)

  -- After a successful `UpdateCron` of an existing subscription, its scheduler runs by the row as
  -- it was before the update: by the old expression if that row was enabled and its expression is
  -- valid, else not at all; with `enable` false it has none. No other scheduler changes.
  pub scheduler-update_cron :
      (valid : Text → Bool) (cursor exp : Text) (enable : Bool) (id k : ℕ) (s s' : Db E)
      (c c' : Cache) (m old : Subscription)
      → decode_cursor cursor ≡ ok id
      → first subscriptions (λ r. r.id == id) s ≡ (ok old, s)
      → update_cron valid cursor exp enable (s, c) ≡ (ok m, (s', c'))
      → scheduler k c' ≡ (
          if k == id
          then if enable && (old.cron_enable && valid old.cron_exp) then some old.cron_exp else none
          else scheduler k c)
  unfolding update_cron
  scheduler-update_cron valid cursor exp enable id k s s' c c' m old decoded found h =
      let gone = scheduler-remove_scheduler id id c in
      let gone' : scheduler id (remove_scheduler id c) ≡ none = ground (arith, gone, ==-refl id) in
      ground (
        arith,
        decoded,
        scheduler-remove_scheduler id k c,
        scheduler-add_scheduler valid id k s (remove_scheduler id c) old found gone',
      )

  -- After a successful `Remove` none of the removed subscriptions has a scheduler, and the others
  -- keep theirs.
  pub scheduler-remove_subscriptions :
      (cursors : List Text) (ids : List ℕ) (s s' : Db E) (c c' : Cache) (n k : ℕ)
      → decode_cursor_batch cursors ≡ ok ids
      → remove_subscriptions cursors (s, c) ≡ (ok n, (s', c'))
      → scheduler k c' ≡ (if elem k ids then none else scheduler k c)
  unfolding remove_subscriptions
  scheduler-remove_subscriptions cursors ids s s' c c' n k decoded h =
      ground (arith, decoded, scheduler-remove_schedulers ids k c)

  -- If `UpdateCron` fails, neither the database nor any scheduler has changed.
  pub update_cron-err :
      (valid : Text → Bool) (cursor exp : Text) (enable : Bool) (e : Error) (w w' : World)
      → update_cron valid cursor exp enable w ≡ (err e, w')
      → w' ≡ w
  unfolding update_cron
  update_cron-err valid cursor exp enable e (s, c) w' h = ground arith

  -- If `Remove` of subscriptions fails, neither the database nor any scheduler has changed.
  pub remove_subscriptions-err :
      (cursors : List Text) (e : Error) (w w' : World)
      → remove_subscriptions cursors w ≡ (err e, w')
      → w' ≡ w
  unfolding remove_subscriptions
  remove_subscriptions-err cursors e (s, c) w' h = ground arith
