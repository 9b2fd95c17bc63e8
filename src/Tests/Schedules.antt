-- ===== src/Tests/Schedules.antt =====
-- The schedulers of the two subscriptions of the tests.
use dae_wing.Base.{ℕ, ◌≡◌, refl, Bool, true, false, none, [], ◌∷◌, Text, codes, text_eq, Result}
use dae_wing.Cursor.{decode_cursor, trim_prefix, cut_prefix, atoi_uint, magnitude, scan}
use dae_wing.Cursor.Base64.{decode}
use dae_wing.Services.Schedulers.{
  Cache, World, scheduler, write_cron, update_cron, remove_subscriptions,
}
use dae_wing.Services.Schedulers.Laws.{scheduler-update_cron}
use dae_wing.Store.Memory.{memory}
use dae_wing.Tests.Data.{database, subscription_of}

-- cursor3 and cursor4
abbrev third : Text
third = codes "Y3Vyc29yMw"

abbrev fourth : Text
fourth = codes "Y3Vyc29yNA"

abbrev accepts : Text → Bool
accepts exp = true

abbrev cache : Cache
cache = (4, codes "@daily") ∷ []

abbrev hourly : Text
hourly = codes "@hourly"

abbrev enabled : Result (dae_wing.Store.Models.Subscription) × World ⦃E = memory⦄
enabled = update_cron ⦃E = memory⦄ accepts third hourly true (database, cache)

-- The third subscription was disabled; that it is enabled now gives it no scheduler.
scheduler-update_cron_example : scheduler 3 enabled.1.1 ≡ none
unfolding update_cron write_cron decode_cursor trim_prefix cut_prefix atoi_uint magnitude scan
    decode text_eq
scheduler-update_cron_example =
    scheduler-update_cron ⦃E = memory⦄ accepts third hourly true 3 3 database enabled.1.0 cache
      enabled.1.1 (record (subscription_of 3 false) { cron_exp = hourly; cron_enable = true })
      (subscription_of 3 false) refl refl refl

abbrev removed : Result ℕ × World ⦃E = memory⦄
removed = remove_subscriptions ⦃E = memory⦄ (fourth ∷ []) (database, cache)
