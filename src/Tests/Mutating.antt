-- ===== src/Tests/Mutating.antt =====
-- Mutations of the database of the tests.
use dae_wing.Base.{
  ◌≡◌, refl, true, false, none, some, List, [], ◌∷◌, Text, codes, err, Error, arith,
}
use dae_wing.Cursor.{decode_cursor, trim_prefix, cut_prefix, atoi_uint, magnitude, scan}
use dae_wing.Cursor.Base64.{decode}
use dae_wing.Mutations.{Environment, SectionCall, Mutation, perform_section, mutate, mutate_all}
use dae_wing.Mutations.Atomic.{mutate-err}
use dae_wing.Mutations.Kept.{mutate_all-IsSound}
use dae_wing.Mutations.Sound.{IsSound}
use dae_wing.Services.Configs.{select_config}
use dae_wing.Services.Schedulers.{Cache, World}
use dae_wing.Services.Subscriptions.{Net}
use dae_wing.Store.Memory.{memory, read_only}
use dae_wing.Tests.Data.{plain_dae, outside, dialer, database, guarded}

abbrev pub offline : Net
offline = record {
  get_direct = λ link. err (Error.fetch 0);
  get_routed = λ link. err Error.not_running;
  sip008 = λ body. err (Error.parse 0);
  base64_links = λ body. [];
}

abbrev pub environment : Environment ⦃D = plain_dae⦄
environment = record {
  outside = outside;
  dialer = dialer;
  net = offline;
  valid_cron = λ exp. true;
  changed = λ g name. true;
  now = 7;
  run_locked = false;
}

-- cursor2
abbrev second : Text
second = codes "Y3Vyc29yMg"

abbrev pub cache : Cache
cache = (4, codes "@daily") ∷ []

refused :
    mutate ⦃D = plain_dae⦄ ⦃E = read_only⦄ environment
      (Mutation.section_call (SectionCall.select_config_call second))
      (guarded, cache)
    ≡ (err (Error.sql 8), (guarded, cache))
unfolding mutate perform_section select_config decode_cursor trim_prefix cut_prefix atoi_uint
    magnitude scan decode
refused = refl

mutate-err_example : ◌≡◌ {A = World ⦃E = read_only⦄} (guarded, cache) (guarded, cache)
mutate-err_example =
    mutate-err ⦃E = read_only⦄ ⦃D = plain_dae⦄ environment
      (Mutation.section_call (SectionCall.select_config_call second)) (Error.sql 8) (guarded, cache)
      (guarded, cache) refused

-- a config is made and another one selected, one removed; the import fails
abbrev several : List (Environment ⦃D = plain_dae⦄ × Mutation ⦃D = plain_dae⦄)
several =
    (environment, Mutation.section_call (SectionCall.create_config_call (some (codes "new")) none))
    ∷ (environment, Mutation.section_call (SectionCall.select_config_call second))
    ∷ (
      environment,
      Mutation.import_subscription_call true (record { link = codes "http://s"; tag = none }),
    )
    ∷ (
      record environment { now = 8; run_locked = true },
      Mutation.section_call (SectionCall.remove_config_call (codes "Y3Vyc29yMQ")),
    )
    ∷ []

at_first : IsSound ⦃E = memory⦄ database.configs database.dnss database.routings
at_first = record {
  configs_are = record { once = λ k. ground arith; marked = omega arith };
  dnss_are = record { once = λ k. ground arith; marked = omega arith };
  routings_are = record { once = λ k. ground arith; marked = omega arith };
}

abbrev after : World ⦃E = memory⦄
after = mutate_all ⦃D = plain_dae⦄ ⦃E = memory⦄ several (database, cache)

mutate_all-IsSound_example : IsSound ⦃E = memory⦄ after.0.configs after.0.dnss after.0.routings
mutate_all-IsSound_example =
    mutate_all-IsSound ⦃E = memory⦄ ⦃D = plain_dae⦄ several database cache at_first
