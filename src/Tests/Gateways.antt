-- ===== src/Tests/Gateways.antt =====
-- Calls of the API with and without the token of the account.
use dae_wing.Base.{
  ◌≡◌, refl, ◌⊎◌, true, Option, none, some, [], ◌∷◌, ◌++◌, codes, text_eq, Result, ok, err, arith,
}
use dae_wing.Cursor.{trim_prefix, cut_prefix}
use dae_wing.Accounts.{
  RoleClaim, utf8, hex_encode, hash_password, is_weak, number_users, token_of, get_token, make_user,
  insert_user, create_user,
}
use dae_wing.Accounts.Auth.{authenticate, auth}
use dae_wing.Accounts.Requests
use dae_wing.Accounts.Requests.{Request, serve}
use dae_wing.Descs.{Fields}
use dae_wing.Gateway.{
  Executor, Verdict, resolved, Call, is_restricted, Reply, Outcome, Api, Server, answer_call,
  handle,
}
use dae_wing.Gateway.Entered.{handle-create_user}
use dae_wing.Gateway.Guarded.{IsAdmin, IsRefused, handle-restricted, handle-IsAdmin}
use dae_wing.Mutations.{SectionCall, Mutation}
use dae_wing.Store.Memory.{memory}
use dae_wing.Store.Models.{User}
use dae_wing.Tests.Accounts.{crypto, jwt, json, me, password, made, with_me, issued}
use dae_wing.Tests.Data.{plain_dae, database}
use dae_wing.Tests.Latencies.{prober}
use dae_wing.Tests.Mutating.{environment, cache}

abbrev run_field : {W A : Type 0} → Option Verdict → (W → Result A × W) → W → Option (Result A) × W
run_field none m w = resolved m w
run_field (some Verdict.allowed) m w = resolved m w
run_field (some (Verdict.refused e)) m w = (some (err e), w)
run_field (some Verdict.panicked) m w = (none, w)

abbrev executor : Executor
executor = record {
  run = run_field;
  on_panic = none;
  run-open = λ m w. refl;
  run-passed = λ m w. refl;
  run-denied = λ e m w. refl;
  run-panicked = λ m w. refl;
}

abbrev api : Api ⦃D = plain_dae⦄
api = record {
  environment = environment;
  prober = prober;
  crypto = crypto;
  jwt = jwt;
  json = json;
  root_schema = [];
  schema_chains = [];
  executor = executor;
  config_fields = Fields.end;
  section_summary_desc = λ s. [];
  section_description = λ s t. [];
}

abbrev fresh : Server ⦃D = plain_dae⦄ ⦃E = memory⦄
fresh = ((database, cache), record { items = []; updated_at = none })

abbrev taken : Server ⦃D = plain_dae⦄ ⦃E = memory⦄
taken = ((with_me, cache), record { items = []; updated_at = none })

abbrev creation : Call ⦃D = plain_dae⦄
creation = Call.account (Request.create_user_request (ok (1 ∷ [])) 100 me password)

abbrev removal : Call ⦃D = plain_dae⦄
removal =
    Call.mutation (Mutation.section_call (SectionCall.remove_config_call (codes "Y3Vyc29yMQ")))

enters :
    handle ⦃D = plain_dae⦄ ⦃E = memory⦄ api 100 [] creation fresh
    ≡ (Outcome.replied (ok (Reply.of_account (Requests.Reply.token (issued made)))), taken)
unfolding handle is_restricted answer_call serve create_user insert_user make_user get_token
    token_of number_users is_weak hash_password hex_encode utf8 text_eq auth authenticate
    trim_prefix cut_prefix
enters = refl

handle-create_user_example :
    (m : User) × (m.username ≡ me)
    × (handle ⦃D = plain_dae⦄ ⦃E = memory⦄ api 200 (codes "Bearer " ++ issued made) removal taken
        ≡ (
          Outcome.replied
              (answer_call ⦃D = plain_dae⦄ ⦃E = memory⦄ api 200
                (some (RoleClaim.text (codes "admin"), m))
                removal
                taken).0,
          (answer_call ⦃D = plain_dae⦄ ⦃E = memory⦄ api 200
              (some (RoleClaim.text (codes "admin"), m))
              removal
              taken).1,
        ))
handle-create_user_example =
    handle-create_user ⦃D = plain_dae⦄ ⦃E = memory⦄ api 100 200 [] (ok (1 ∷ [])) 100 me password
      (issued made) removal fresh taken enters (omega arith)

is_closed : is_restricted ⦃D = plain_dae⦄ removal ≡ true
unfolding is_restricted
is_closed = refl

handle-restricted_example :
    IsAdmin ⦃D = plain_dae⦄ ⦃E = memory⦄ api 200 (codes "Bearer x") with_me
    ⊎ (IsRefused ⦃D = plain_dae⦄ ⦃E = memory⦄ api 200
          (codes "Bearer x")
          (handle ⦃D = plain_dae⦄ ⦃E = memory⦄ api 200 (codes "Bearer x") removal taken).0
        × ((handle ⦃D = plain_dae⦄ ⦃E = memory⦄ api 200 (codes "Bearer x") removal taken).1
            ≡ taken))
handle-restricted_example =
    handle-restricted ⦃D = plain_dae⦄ ⦃E = memory⦄ api 200 (codes "Bearer x") removal taken
      is_closed

handle-IsAdmin_example :
    IsAdmin ⦃D = plain_dae⦄ ⦃E = memory⦄ api 101 [] with_me
    ⊎ ((handle ⦃D = plain_dae⦄ ⦃E = memory⦄ api 101 [] creation taken).1 ≡ taken)
handle-IsAdmin_example =
    handle-IsAdmin ⦃D = plain_dae⦄ ⦃E = memory⦄ api 101 [] creation taken (omega arith)
