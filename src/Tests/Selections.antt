-- ===== src/Tests/Selections.antt =====
-- `Select` on the tables of the tests.
use dae_wing.Base.{true, none, some, List, [], ◌∷◌, err, Error, ◌≡◌, refl, Text, codes, ok, arith}
use dae_wing.Cursor.{decode_cursor, trim_prefix, cut_prefix, atoi_uint, magnitude, scan}
use dae_wing.Cursor.Base64.{decode}
use dae_wing.Dae.{parse_config, join}
use dae_wing.Queries.{query_configs, resolve_all, global_of}
use dae_wing.Queries.Chosen.{select_config-query}
use dae_wing.Services.Configs.{select_config}
use dae_wing.Services.Dnss.{select_dns}
use dae_wing.Services.Routings.{select_routing}
use dae_wing.Store.Memory.{memory}
use dae_wing.Store.Models.{Db, Config}
use dae_wing.Tests.Data.{plain_dae, database}

abbrev second : Text
second = codes "Y3Vyc29yMg"

after_config :
    select_config ⦃E = memory⦄ ⦃D = plain_dae⦄ second database
    ≡ (ok 1, (select_config ⦃E = memory⦄ ⦃D = plain_dae⦄ second database).1)
unfolding select_config decode_cursor trim_prefix cut_prefix atoi_uint magnitude scan decode
after_config = refl

after_dns :
    select_dns ⦃E = memory⦄ ⦃D = plain_dae⦄ second database
    ≡ (ok 1, (select_dns ⦃E = memory⦄ ⦃D = plain_dae⦄ second database).1)
unfolding select_dns decode_cursor trim_prefix cut_prefix atoi_uint magnitude scan decode
after_dns = refl

after_routing :
    select_routing ⦃E = memory⦄ ⦃D = plain_dae⦄ second database
    ≡ (ok 1, (select_routing ⦃E = memory⦄ ⦃D = plain_dae⦄ second database).1)
unfolding select_routing decode_cursor trim_prefix cut_prefix atoi_uint magnitude scan decode
after_routing = refl

-- cursor9 is no row: the first UPDATE has unset the selection, and is rolled back.
no_ninth :
    select_config ⦃E = memory⦄ ⦃D = plain_dae⦄ (codes "Y3Vyc29yOQ") database
    ≡ (err Error.no_such_config, database)
unfolding select_config decode_cursor trim_prefix cut_prefix atoi_uint magnitude scan decode
no_ninth = refl

abbrev chosen : Db memory
chosen = (select_config ⦃E = memory⦄ ⦃D = plain_dae⦄ second database).1

abbrev chosen_config : Config
chosen_config = record { id = 2; name = []; global = []; selected = true; version = 0 }

abbrev whole : Text
whole = codes "\ndns {}\nrouting {}\ngroup {}\nsubscription {}\nnode {}"

asked :
    query_configs ⦃D = plain_dae⦄ ⦃E = memory⦄ none (some true) chosen
    ≡ (ok ((whole, chosen_config) ∷ []), chosen)
unfolding query_configs resolve_all parse_config join select_config decode_cursor trim_prefix
    cut_prefix atoi_uint magnitude scan decode
asked = refl

select_config-query_example :
    (g : Text) × (r : Config) × (◌≡◌ {A = List (Text × Config)}
      ((whole, chosen_config) ∷ [])
      ((g, r) ∷ []))
    × (global_of ⦃D = plain_dae⦄ r ≡ ok g)
    × (decode_cursor second ≡ ok r.id)
    × (r.selected ≡ true)
select_config-query_example =
    select_config-query ⦃E = memory⦄ ⦃D = plain_dae⦄ second database chosen chosen 1
      ((whole, chosen_config) ∷ []) after_config (λ k. ground arith) asked
