-- ===== src/Accounts/Login.antt =====
-- What the tokens of the account do at the middleware.
use dae_wing.Base.{
  ℕ, ◌+◌, ◌^◌, ◌&&◌, ◌<◌, ◌≡◌, refl, ap, ◌∙◌, Bool, true, inl, inr, some, List, [], ◌∷◌, ◌++◌, map,
  Text, codes, text_eq, text_eq-true, ltb, ◌==◌, if◌then◌else◌, Bool-cases, Result, ok,
  Result-cases, All, arith,
}
use dae_wing.Cursor.{trim_prefix, cut_prefix}
use dae_wing.Accounts.{
  Crypto, Claims, RoleClaim, Jwt, hex_encode, hash_password, is_weak, lifetime, number_users,
  token_of, get_token, make_user, insert_user, create_user, new_user, with_password, write_password,
  renew_password, verified, update_password,
}
use dae_wing.Accounts.Auth.{Passed, key_owner, authenticate, auth}
use dae_wing.Store.Engine.{Engine}
use dae_wing.Store.Models.{User, Db}
use dae_wing.Store.Exec.{Exec, ◌>>=◌, users, first, create, update_by_id}
use dae_wing.Store.Laws.{
  first-ok, first-pure, bind-ok, lift-bind-ok, transaction-ok, update_by_id-ok,
}

bearer : (t : Text) → trim_prefix (codes "Bearer ") (codes "Bearer " ++ t) ≡ t
unfolding trim_prefix cut_prefix
bearer t = refl

module _ ⦃E : Engine⦄ (H : Crypto) (J : Jwt) where
  -- what a token of the user is
  pub IsIssued : ℕ → User → Text → Type 0
  IsIssued now m t =
      J.sign (record { role = codes "admin"; subject = m.username; expires = now + lifetime })
        m.jwt_secret
      ≡ ok t

  token_of-ok :
      (now : ℕ) (m : User) (pw t : Text)
      → token_of H J now m pw ≡ ok t
      → IsIssued now m t × (hash_password H m.jwt_secret pw ≡ ok m.password_hash)
  unfolding token_of IsIssued
  token_of-ok now m pw t h = elim (Result-cases (hash_password H m.jwt_secret pw)) [
    | inr (e, failed) ↦ absurd (ground (arith, failed))
    | inl (hash, e) ↦ elim (Bool-cases (text_eq hash m.password_hash)) [
      | inr differ ↦ absurd (ground (arith, e))
      | inl same ↦ (ground (arith, e), e ∙ ap ok (text_eq-true hash m.password_hash same))
    ]
  ]

  pub get_token-ok :
      (now : ℕ) (username pw t : Text) (s s' : Db E)
      → get_token H J now username pw s ≡ (ok t, s')
      → (s' ≡ s)
        × (m : User) × (first users (λ r. text_eq r.username username) s ≡ (ok m, s))
        × (m.username ≡ username)
        × IsIssued now m t
        × (hash_password H m.jwt_secret pw ≡ ok m.password_hash)
  unfolding get_token
  get_token-ok now username pw t s s' h =
      let named : User → Bool = λ r. text_eq r.username username in
      elim (Result-cases (first users named s).0) [
        | inr (e, failed) ↦ absurd (ground (arith, failed))
        | inl (m, e) ↦
            let found : first users named s ≡ (ok m, s) = first-pure users named s (ok m) e in
            let (issued, hashed) = token_of-ok now m pw t (ground (arith, e)) in
            (
              ground (arith, e),
              m,
              found,
              text_eq-true m.username username (first-ok users named s s m found).0,
              issued,
              hashed,
            )
      ]

  -- A token that `getToken` gave is accepted for thirty days, for the user of that name.
  issued-auth :
      (now later : ℕ) (username t : Text) (m : User) (s : Db E)
      → first users (λ r. text_eq r.username username) s ≡ (ok m, s)
      → m.username ≡ username
      → IsIssued now m t
      → later < now + lifetime
      → auth J later (codes "Bearer " ++ t) s
        ≡ Passed.next (some (RoleClaim.text (codes "admin"), m))
  unfolding auth authenticate key_owner IsIssued
  issued-auth now later username t m s found named issued h =
      let claims : Claims = record {
        role = codes "admin";
        subject = m.username;
        expires = now + lifetime;
      } in
      let again : first users (λ r. text_eq r.username m.username) s ≡ (ok m, s) =
        ap (λ n. first users (λ r. text_eq r.username n) s) named ∙ found in
      let reads = J.read-sign claims m.jwt_secret t issued in
      let accepted = J.accepts-sign claims m.jwt_secret t later issued h in
      ground (arith, bearer t, reads, accepted, again)

  -- A login that succeeds gives a token that authenticates, under the state it was given in and
  -- for thirty days, the user of that name, as an admin.
  pub get_token-auth :
      (now later : ℕ) (username pw t : Text) (s s' : Db E)
      → get_token H J now username pw s ≡ (ok t, s')
      → later < now + lifetime
      → (m : User) × (auth J later (codes "Bearer " ++ t) s'
          ≡ Passed.next (some (RoleClaim.text (codes "admin"), m)))
        × (m.username ≡ username)
  get_token-auth now later username pw t s s' h in_time =
      let (same, m, found, named, issued, _) = get_token-ok now username pw t s s' h in
      (
        m,
        ap (auth J later (codes "Bearer " ++ t)) same
            ∙ issued-auth now later username t m s found named issued in_time,
        named,
      )

  make_user-auth :
      (now later : ℕ) (username pw t : Text) (bytes : List ℕ) (s s' : Db E)
      → make_user H J now username pw bytes s ≡ (ok t, s')
      → later < now + lifetime
      → (m : User) × (auth J later (codes "Bearer " ++ t) s'
          ≡ Passed.next (some (RoleClaim.text (codes "admin"), m)))
        × (m.username ≡ username)
  unfolding make_user
  make_user-auth now later username pw t bytes s s' h in_time =
      let secret = hex_encode bytes in
      let (hash, _, go) = lift-bind-ok (hash_password H secret pw) _ s s' t h in
      let made = create users (λ r. r.id) (new_user H J username hash secret) in
      let (u, s1, _, last) = bind-ok made _ s s' t go in
      get_token-auth now later username pw t s1 s' last in_time

  -- The token that `CreateUser` returns authenticates the new user, as an admin, for thirty days.
  pub create_user-auth :
      (random : Result (List ℕ)) (now later : ℕ) (username pw t : Text) (s s' : Db E)
      → create_user H J random now username pw s ≡ (ok t, s')
      → later < now + lifetime
      → (m : User) × (auth J later (codes "Bearer " ++ t) s'
          ≡ Passed.next (some (RoleClaim.text (codes "admin"), m)))
        × (m.username ≡ username)
  unfolding create_user insert_user
  create_user-auth random now later username pw t s s' h in_time =
      elim (Bool-cases (is_weak H pw)) [
        | inl weak ↦ absurd (ground (arith, weak))
        | inr strong ↦
            let whole : Exec Text = number_users >>= insert_user H J random now username pw in
            let body = transaction-ok whole s s' t (ground (arith, strong)) in
            let (n, s1, _, rest) =
              bind-ok number_users (insert_user H J random now username pw) s s' t body in
            elim (Bool-cases (ltb 0 n && ltb n (2 ^ 31))) [
              | inl some_user ↦ absurd (ground (arith, some_user))
              | inr no_user ↦
                  let (bytes, _, go) =
                    lift-bind-ok random (make_user H J now username pw) s1 s' t
                      (ground (arith, no_user)) in
                  make_user-auth now later username pw t bytes s1 s' go in_time
            ]
      ]

  abbrev pub HasSecret : ℕ → Text → User → Type 0
  HasSecret id secret r = (r.id == id) ≡ true → r.jwt_secret ≡ secret

  secrets :
      (id b : ℕ) (bs : List ℕ) (hash : Text) (rs : List User)
      → All
          (HasSecret id (hex_encode (b ∷ bs)))
          (map (λ r. if r.id == id then with_password H J hash (hex_encode (b ∷ bs)) r else r) rs)
  unfolding hex_encode
  secrets id b bs hash [] = tt
  secrets id b bs hash (r ∷ rs) = (λ h. ground arith, secrets id b bs hash rs)

  -- After `UpdatePassword` has succeeded with at least one random byte, the returned token
  -- authenticates a user of that name, as an admin, for thirty days, and the key of every row with
  -- the user's identifier is the new secret.
  pub update_password-auth :
      (now later b : ℕ) (bs : List ℕ) (skip : Bool) (u : User) (current new t : Text) (s s' : Db E)
      → update_password H J (ok (b ∷ bs)) now skip u current new s ≡ (ok t, s')
      → later < now + lifetime
      → ((m : User) × (auth J later (codes "Bearer " ++ t) s'
            ≡ Passed.next (some (RoleClaim.text (codes "admin"), m)))
          × (m.username ≡ u.username))
        × All (HasSecret u.id (hex_encode (b ∷ bs))) (E.rows s'.users)
  unfolding update_password renew_password write_password
  update_password-auth now later b bs skip u current new t s s' h in_time =
      let secret = hex_encode (b ∷ bs) in
      let (_, _, go) = lift-bind-ok (verified H J skip u current) _ s s' t h in
      let (hash, _, body) = lift-bind-ok (hash_password H secret new) _ s s' t go in
      let inside = transaction-ok (write_password H J now u new secret hash) s s' t body in
      let write = update_by_id users (λ r. r.id) u.id (with_password H J hash secret) in
      let (n, s1, wrote, last) = bind-ok write _ s s' t inside in
      let (same, _, _, _, _, _) = get_token-ok now u.username new t s1 s' last in
      let (table, e, rows, _) = update_by_id-ok users (λ r. r.id) u.id _ s s1 n wrote in
      let table_of : E.rows s'.users ≡ E.rows table = ap (λ x. E.rows x.users) (same ∙ e) in
      (
        get_token-auth now later u.username new t s1 s' last in_time,
        rw (table_of ∙ rows) (secrets u.id b bs hash (E.rows s.users)),
      )
