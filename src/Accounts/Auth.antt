-- ===== src/Accounts/Auth.antt =====
-- `auth` of cmd/run.go: who a request comes from. The answer is what the context carries on.
use dae_wing.Base.{ℕ, Option, none, some, Text, codes, text_eq, ltb, if◌then◌else◌, Result, ok, err}
use dae_wing.Cursor.{trim_prefix}
use dae_wing.Accounts.{Jwt, RoleClaim, Unverified}
use dae_wing.Store.Engine.{Engine}
use dae_wing.Store.Models.{User, Db}
use dae_wing.Store.Exec.{users, first}

-- the end of the middleware: the next handler with what the context carries, or the nil
-- dereference of an expiry that the token does not have
pub data Passed : Type 0 where
  next : Option (RoleClaim × User) → Passed
  nil_dereference : Passed

abbrev pub anonymous : Passed
anonymous = Passed.next none

abbrev pub within : ℕ → RoleClaim → User → Result (Option ℕ) → Passed
within now role u (err e) = anonymous
within now role u (ok none) = Passed.nil_dereference
within now role u (ok (some t)) = if ltb now t then Passed.next (some (role, u)) else anonymous

module _ ⦃E : Engine⦄ where
  -- the callback of `Parse`: the user whose secret is the key
  unfoldable pub key_owner : Unverified → Db E → Option User
  key_owner t s =
      if t.hmac
      then elim t.subject [
        | err e ↦ none
        | ok name ↦ elim (first users (λ r. text_eq r.username name) s).0 [
          | err e ↦ none
          | ok u ↦ some u
        ]
      ]
      else none

  module _ (J : Jwt) where
    abbrev pub judged : ℕ → Text → Unverified → Option User → Passed
    judged now token t none = anonymous
    judged now token t (some u) =
        if J.accepts now token u.jwt_secret then within now t.role u t.expires else anonymous

    unfoldable pub authenticate : ℕ → Text → Db E → Passed
    authenticate now token s = elim (J.read token) [
      | err e ↦ anonymous
      | ok t ↦ judged now token t (key_owner t s)
    ]

    -- auth
    unfoldable pub auth : ℕ → Text → Db E → Passed
    auth now header s = authenticate now (trim_prefix (codes "Bearer ") header) s
