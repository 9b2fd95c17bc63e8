-- ===== src/Tests/Groupings.antt =====
-- Mutations of the group of the tests.
use dae_wing.Base.{◌≡◌, refl, true, none, some, List, [], ◌∷◌, map, Text, codes, ok}
use dae_wing.Cursor.{
  decode_cursor, decode_cursor_batch, trim_prefix, cut_prefix, atoi_uint, magnitude, scan,
}
use dae_wing.Cursor.Base64.{decode}
use dae_wing.Cursor.Validator.{validate_id}
use dae_wing.Services.Groups.{
  add_subscriptions, bind_subscriptions, auto_update_version_by_id, del_subscriptions,
  normalize_name_filter_regex, rename_group, after_rename,
}
use dae_wing.Services.Groups.Renamed.{IsRenamed, rename_group-IsRenamed}
use dae_wing.Mutations.{GroupCall}
use dae_wing.Mutations.Bound.{
  change_of, replay, view, perform_groups, successes, perform_groups-replay,
}
use dae_wing.Store.Memory.{memory, read_only}
use dae_wing.Store.Models.{Db}
use dae_wing.Tests.Mutating.{environment}
use dae_wing.Tests.Data.{plain_dae, outside, database, guarded, proxy}

-- cursor1, cursor3 and cursor4
abbrev group_cursor : Text
group_cursor = codes "Y3Vyc29yMQ"

abbrev subscription_cursors : List Text
subscription_cursors = codes "Y3Vyc29yMw" ∷ codes "Y3Vyc29yNA" ∷ []

abbrev bound : Db memory
bound = record database {
  groups = record proxy { version = 5 } ∷ [];
  group_subscriptions =
      record { group_id = 1; subscription_id = 3; name_filter_regex = none }
      ∷ record { group_id = 1; subscription_id = 4; name_filter_regex = none }
      ∷ [];
}

bound_ok :
    add_subscriptions ⦃E = memory⦄ (outside.regexp) group_cursor subscription_cursors none database
    ≡ (ok 2, bound)
unfolding add_subscriptions bind_subscriptions auto_update_version_by_id normalize_name_filter_regex
    decode_cursor decode_cursor_batch trim_prefix cut_prefix atoi_uint magnitude scan decode
bound_ok = refl

abbrev unbound : Db memory
unbound = record bound { groups = record proxy { version = 6 } ∷ []; group_subscriptions = [] }

unbound_ok :
    del_subscriptions ⦃E = memory⦄ group_cursor subscription_cursors bound ≡ (ok 2, unbound)
unfolding del_subscriptions auto_update_version_by_id decode_cursor decode_cursor_batch trim_prefix
    cut_prefix atoi_uint magnitude scan decode
unbound_ok = refl

-- The UPDATE fails, and the answer is a number of rows.
swallowed :
    rename_group ⦃E = read_only⦄ (λ g name. true) group_cursor (codes "other") guarded
    ≡ (ok 0, guarded)
unfolding rename_group after_rename validate_id decode_cursor trim_prefix cut_prefix atoi_uint
    magnitude scan decode
swallowed = refl

rename_group-IsRenamed_example :
    IsRenamed ⦃E = read_only⦄
      (λ g name. true)
      group_cursor
      (codes "other")
      guarded
      (rename_group ⦃E = read_only⦄ (λ g name. true) group_cursor (codes "other") guarded)
rename_group-IsRenamed_example =
    rename_group-IsRenamed ⦃E = read_only⦄ (λ g name. true) group_cursor (codes "other") guarded

-- two subscriptions are bound, a bad cursor is refused, and one of the two is unbound
abbrev calls : List (GroupCall ⦃D = plain_dae⦄)
calls =
    GroupCall.add_subscriptions_call group_cursor subscription_cursors (some (codes "hk"))
    ∷ GroupCall.remove_group_call (codes "x")
    ∷ GroupCall.del_subscriptions_call group_cursor (codes "Y3Vyc29yMw" ∷ [])
    ∷ []

perform_groups-replay_example :
    view ⦃E = memory⦄ (perform_groups ⦃E = memory⦄ ⦃D = plain_dae⦄ environment calls database) 1 4
    ≡ replay
        (map
          (change_of ⦃D = plain_dae⦄ (outside.regexp))
          (successes ⦃E = memory⦄ ⦃D = plain_dae⦄ environment calls database))
        (view ⦃E = memory⦄ database)
        1
        4
perform_groups-replay_example =
    perform_groups-replay ⦃E = memory⦄ ⦃D = plain_dae⦄ environment calls database 1 4
