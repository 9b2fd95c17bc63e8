-- ===== src/Accounts.antt =====
-- The account: graphql/mutation.go down to `UpdatePassword`, the account part of graphql/query.go,
-- and cmd/resetpass.go. The 32 random bytes, the clock (in seconds) and the user that the context
-- of a request carries are arguments of the operations that read them.
pub mod Profile
pub mod Auth
pub mod Login
pub mod Trust
pub mod Requests
use dae_wing.Base.{
  ℕ, ◌+◌, ◌*◌, ◌/◌, ◌%◌, ◌<◌, ◌≡◌, Bool, true, false, not, ◌&&◌, ◌||◌, ◌^◌, Option, none, some,
  List, [], ◌∷◌, ◌++◌, Text, codes, text_eq, length, any, ltb, ◌==◌, if◌then◌else◌, int32, Result,
  ok, err, Error,
}
use dae_wing.Services.Nodes.{non_zero}
use dae_wing.Store.Engine.{Engine}
use dae_wing.Store.Models.{User, Db}
use dae_wing.Store.Exec.{
  Exec, pure, fail, lift, ◌>>=◌, ◌>>◌, users, find, first, create, update_by_id, transaction,
}

-- SHAKE-256 of x/crypto/sha3, read for 32 bytes, and Go's classes of letters and numbers
pub record Crypto : Type 0 where
  pub shake256 : List ℕ → Result (List ℕ)
  pub is_letter : ℕ → Bool
  pub is_number : ℕ → Bool

pub record Claims : Type 0 where
  pub role : Text
  pub subject : Text
  pub expires : ℕ

-- the claim `role` of a token: absent or null, a text, or another value of JSON
pub data RoleClaim : Type 0 where
  absent another : RoleClaim
  text : Text → RoleClaim

-- what golang-jwt reads from a token before it checks anything
pub record Unverified : Type 0 where
  pub hmac : Bool
  pub role : RoleClaim
  pub subject : Result Text
  pub expires : Result (Option ℕ)

-- golang-jwt: HS256 signatures, and `Parse` in its two parts, the reading of the token and the
-- check of its signature and of its times by the clock
pub record Jwt : Type 0 where
  pub sign : Claims → Text → Result Text
  pub read : Text → Result Unverified
  pub accepts : ℕ → Text → Text → Bool
  -- a token that was signed is read with its claims, and is accepted under its key in time
  pub read-sign :
      (c : Claims) (key t : Text)
      → sign c key ≡ ok t
      → read t
        ≡ ok (record {
          hmac = true;
          role = RoleClaim.text c.role;
          subject = ok c.subject;
          expires = ok (some c.expires);
        })
  pub accepts-sign :
      (c : Claims) (key t : Text) (now : ℕ)
      → sign c key ≡ ok t
      → now < c.expires
      → accepts now t key ≡ true

-- `[]byte(s)`: UTF-8
abbrev pub utf8_rune : ℕ → List ℕ
utf8_rune c =
    if ltb c 128
    then c ∷ []
    else if ltb c 2048
    then (192 + c / 64) ∷ (128 + c % 64) ∷ []
    else if ltb c 65536
    then (224 + c / 4096) ∷ (128 + c / 64 % 64) ∷ (128 + c % 64) ∷ []
    else (240 + c / 262144) ∷ (128 + c / 4096 % 64) ∷ (128 + c / 64 % 64) ∷ (128 + c % 64) ∷ []

unfoldable pub utf8 : Text → List ℕ
utf8 [] = []
utf8 (c ∷ s) = utf8_rune c ++ utf8 s

-- `hex.EncodeToString`
abbrev hex_digit : ℕ → ℕ
hex_digit d = if ltb d 10 then b'0' + d else b'W' + d

unfoldable pub hex_encode : List ℕ → Text
hex_encode [] = []
hex_encode (b ∷ bs) = hex_digit (b / 16) ∷ hex_digit (b % 16) ∷ hex_encode bs

abbrev pub hexed : Result (List ℕ) → Result Text
hexed (ok bytes) = ok (hex_encode bytes)
hexed (err e) = err e

module _ (H : Crypto) where
  -- hashPassword
  unfoldable pub hash_password : Text → Text → Result Text
  hash_password salt password = hexed (H.shake256 (utf8 salt ++ utf8 password))

  -- the guard of CreateUser; `len` counts bytes
  unfoldable pub is_weak : Text → Bool
  is_weak password =
      ltb (length (utf8 password)) 6
      || (not (any H.is_letter password) || not (any H.is_number password))

-- thirty days
abbrev pub lifetime : ℕ
lifetime = 30 * 3600 * 24

module _ ⦃E : Engine⦄ where
  -- numberUsers
  unfoldable pub number_users : Exec ℕ
  number_users = do all ← find users (λ r. true); pure (int32 (length all))

  module _ (H : Crypto) (J : Jwt) where
    abbrev pub signed : ℕ → User → Text → Text → Result Text
    signed now m password hash =
        if text_eq hash m.password_hash
        then J.sign
            (record { role = codes "admin"; subject = m.username; expires = now + lifetime })
            m.jwt_secret
        else err Error.bad_login

    -- getToken from the row of the user on
    unfoldable pub token_of : ℕ → User → Text → Result Text
    token_of now m password = elim (hash_password H m.jwt_secret password) [
      | err e ↦ err e
      | ok hash ↦ signed now m password hash
    ]

    -- getToken
    unfoldable pub get_token : ℕ → Text → Text → Exec Text
    get_token now username password s = elim (first users (λ r. text_eq r.username username) s).0 [
      | err e ↦ (err Error.bad_login, s)
      | ok m ↦ (token_of now m password, s)
    ]

    abbrev pub new_user : Text → Text → Text → ℕ → User
    new_user username hash secret id = record {
      id = id;
      username = username;
      password_hash = hash;
      jwt_secret = secret;
      json_storage = codes "{}";
      avatar = none;
      name = none;
    }

    -- CreateUser from the random bytes on
    unfoldable pub make_user : ℕ → Text → Text → List ℕ → Exec Text
    make_user now username password bytes = do
      hash ← lift (hash_password H (hex_encode bytes) password)
      create users (λ r. r.id) (new_user username hash (hex_encode bytes))
      get_token now username password

    -- CreateUser from the count of the users on
    unfoldable pub insert_user : Result (List ℕ) → ℕ → Text → Text → ℕ → Exec Text
    insert_user random now username password n =
        if ltb 0 n && ltb n (2 ^ 31)
        then fail Error.user_exists
        else lift random >>= make_user now username password

    -- CreateUser
    unfoldable pub create_user : Result (List ℕ) → ℕ → Text → Text → Exec Text
    create_user random now username password =
        if is_weak H password
        then fail Error.weak_password
        else transaction (do n ← number_users; insert_user random now username password n)

    -- the check at the head of UpdatePassword
    abbrev pub verified : Bool → User → Text → Result (Unit {0})
    verified true u current = ok tt
    verified false u current = elim (hash_password H u.jwt_secret current) [
      | err e ↦ err e
      | ok hash ↦ if text_eq hash u.password_hash then ok tt else err Error.incorrect_password
    ]

    abbrev pub with_password : Text → Text → User → User
    with_password hash secret r = record r {
      password_hash = non_zero hash r.password_hash;
      jwt_secret = non_zero secret r.jwt_secret;
    }

    -- the transaction of UpdatePassword; `Updates` with a struct writes its non-zero fields
    unfoldable pub write_password : ℕ → User → Text → Text → Text → Exec Text
    write_password now u new secret hash = do
      update_by_id users (λ r. r.id) u.id (with_password hash secret)
      get_token now u.username new

    -- UpdatePassword from the random bytes on
    unfoldable pub renew_password : ℕ → User → Text → List ℕ → Exec Text
    renew_password now u new bytes = do
      hash ← lift (hash_password H (hex_encode bytes) new)
      transaction (write_password now u new (hex_encode bytes) hash)

    -- UpdatePassword, the function
    unfoldable pub update_password : Result (List ℕ) → ℕ → Bool → User → Text → Text → Exec Text
    update_password random now skip_verify u current new = do
      lift (verified skip_verify u current)
      bytes ← lift random
      renew_password now u new bytes

    -- the loop of cmd/resetpass.go, with what gonanoid and the random source give to each user; it
    -- ends the process at the first error
    unfoldable pub reset_passwords : ℕ → List (User × Text × Result (List ℕ)) → Exec (Unit {0})
    reset_passwords now [] = pure tt
    reset_passwords now ((u, password, random) ∷ rest) = do
      update_password random now true u [] password
      reset_passwords now rest
