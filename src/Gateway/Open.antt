-- ===== src/Gateway/Open.antt =====
-- The calls that the schema leaves open, where there is a user: they change nothing.
use dae_wing.Base.{
  ℕ, ◌^◌, ◌<◌, ◌≡◌, refl, ap, ◌∙◌, inl, inr, false, List, Text, length, Bool-cases, int32, Result,
  Result-cases, arith,
}
use dae_wing.Accounts.{Crypto, Jwt, is_weak, number_users, get_token, insert_user, create_user}
use dae_wing.Accounts.Profile.{Json}
use dae_wing.Accounts.Requests.{Request, serve}
use dae_wing.Accounts.Requests.Single.{get_token-IsPure, number_users-IsPure, number_users-ok}
use dae_wing.Dae.{Dae}
use dae_wing.Gateway.{
  Context, user_of, Query, Call, is_restricted, Reply, Api, Server, on_database, answer_query,
  answer_call,
}
use dae_wing.Store.Engine.{Engine}
use dae_wing.Store.Models.{Db}
use dae_wing.Store.Exec.{Exec, ◌>>=◌, transaction}

module _ ⦃E : Engine⦄ where
  -- there is a user, and `numberUsers` counts without an overflow
  abbrev pub IsTaken : Db E → Type 0
  IsTaken s = (0 < length (E.rows s.users)) × (length (E.rows s.users) < 2 ^ 31)

  module _ (H : Crypto) (J : Jwt) (S : Json) where
    insert_user-taken :
        (random : Result (List ℕ)) (now n : ℕ) (name pw : Text) (s : Db E)
        → IsTaken s
        → n ≡ int32 (length (E.rows s.users))
        → (insert_user H J random now name pw n s).1 ≡ s
    unfolding insert_user
    insert_user-taken random now n name pw s taken counted = ground (arith, counted)

    creation-taken :
        (random : Result (List ℕ)) (now : ℕ) (name pw : Text) (s : Db E)
        → IsTaken s
        → ((number_users >>= insert_user H J random now name pw) s).1 ≡ s
    creation-taken random now name pw s taken =
        let same = number_users-IsPure H J S s in
        elim (Result-cases (number_users s).0) [
          | inr (e, failed) ↦ rw failed same
          | inl (n, e) ↦ rw e (
              ap (λ x. (insert_user H J random now name pw n x).1) same
              ∙ insert_user-taken random now n name pw s taken (number_users-ok H J S s n e))
        ]

    transaction-same : {A : Type 0} (m : Exec A) (s : Db E) → (m s).1 ≡ s → (transaction m s).1 ≡ s
    transaction-same m s h = elim (Result-cases (m s).0) [
      | inl (a, e) ↦ rw e h
      | inr (x, e) ↦ rw e refl
    ]

    create_user-taken :
        (random : Result (List ℕ)) (now : ℕ) (name pw : Text) (s : Db E)
        → IsTaken s
        → (create_user H J random now name pw s).1 ≡ s
    unfolding create_user
    create_user-taken random now name pw s taken = elim (Bool-cases (is_weak H pw)) [
      | inl weak ↦ rw weak refl
      | inr strong ↦ rw strong (
          transaction-same (number_users >>= insert_user H J random now name pw) s
            (creation-taken random now name pw s taken))
    ]

    pub creation-same :
        (random : Result (List ℕ)) (now : ℕ) (name pw : Text) (context : Context) (s : Db E)
        → IsTaken s
        → (serve H J S (user_of context) (Request.create_user_request random now name pw) s).1 ≡ s
    unfolding serve
    creation-same random now name pw context s taken =
        let same = create_user-taken random now name pw s taken in
        elim (Result-cases (create_user H J random now name pw s).0) [
          | inl (a, e) ↦ rw e same
          | inr (x, e) ↦ rw e same
        ]

module _ ⦃D : Dae⦄ ⦃E : Engine⦄ (X : Api) where
  on_database-same :
      {A : Type 0} (f : A → Reply) (m : Exec A) (w : Server)
      → (m w.0.0).1 ≡ w.0.0
      → (on_database f m w).1 ≡ w
  on_database-same f m ((s, c), l) h = ap (λ x. ((x, c), l)) h

  open_query-same :
      (now : ℕ) (context : Context) (q : Query) (w : Server)
      → is_restricted (Call.query q) ≡ false
      → (answer_query X now context q w).1 ≡ w
  unfolding answer_query is_restricted
  open_query-same now context Query.health_check w h = refl
  open_query-same now context (Query.token_query username pw) w h =
      on_database-same Reply.text (get_token X.crypto X.jwt now username pw) w
        (get_token-IsPure X.crypto X.jwt X.json now username pw w.0.0)
  open_query-same now context Query.number_users_query w h =
      on_database-same Reply.number number_users w (number_users-IsPure X.crypto X.jwt X.json w.0.0)
  open_query-same now context _ w h = absurd (ground arith)

  pub open-same :
      (now : ℕ) (context : Context) (call : Call) (w : Server)
      → is_restricted call ≡ false
      → IsTaken w.0.0
      → (answer_call X now context call w).1 ≡ w
  unfolding answer_call is_restricted
  open-same now context (Call.query q) w h taken = open_query-same now context q w h
  open-same now context (Call.account (Request.create_user_request random at name pw)) w h taken =
      on_database-same Reply.of_account
        (serve X.crypto X.jwt X.json (user_of context)
          (Request.create_user_request random at name pw))
        w (creation-same X.crypto X.jwt X.json random at name pw context w.0.0 taken)
  open-same now context (Call.account q) w h taken = absurd (ground arith)
  open-same now context (Call.mutation q) w h taken = absurd (ground arith)
  open-same now context (Call.test_latencies_call ids) w h taken = absurd (ground arith)
