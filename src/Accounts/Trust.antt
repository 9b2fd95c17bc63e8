-- ===== src/Accounts/Trust.antt =====
-- Whom the middleware trusts.
use dae_wing.Base.{
  ℕ, ◌<◌, ◌≡◌, refl, ap, ◌∙◌, sym, Bool, true, inl, inr, Option, none, some, Text, codes, text_eq,
  text_eq-true, Bool-cases, Result, ok, err, Result-cases, arith,
}
use dae_wing.Cursor.{trim_prefix}
use dae_wing.Accounts.{RoleClaim, Unverified, Jwt}
use dae_wing.Accounts.Auth.{Passed, within, key_owner, judged, authenticate, auth}
use dae_wing.Store.Engine.{Engine}
use dae_wing.Store.Models.{User, Db}
use dae_wing.Store.Exec.{users, first}
use dae_wing.Store.Laws.{first-ok, first-pure}

within-next :
    (now : ℕ) (role role' : RoleClaim) (u u' : User) (exp : Result (Option ℕ))
    → within now role' u' exp ≡ Passed.next (some (role, u))
    → (t : ℕ) × (exp ≡ ok (some t)) × (now < t) × (role' ≡ role) × (u' ≡ u)
within-next now role role' u u' (err e) h = absurd (ground arith)
within-next now role role' u u' (ok none) h = absurd (ground arith)
within-next now role role' u u' (ok (some t)) h =
    (t, refl, ground arith, ground arith, ground arith)

module _ ⦃E : Engine⦄ where
  key_owner-some :
      (v : Unverified) (s : Db E) (u : User)
      → key_owner v s ≡ some u
      → (v.hmac ≡ true)
        × (v.subject ≡ ok u.username)
        × (first users (λ r. text_eq r.username u.username) s ≡ (ok u, s))
  unfolding key_owner
  key_owner-some v s u h = elim (Bool-cases v.hmac) [
    | inr other ↦ absurd (ground (arith, other))
    | inl hmac ↦ elim (Result-cases v.subject) [
      | inr (e, failed) ↦ absurd (ground (arith, hmac, failed))
      | inl (name, named) ↦
          let p : Text → User → Bool = λ n r. text_eq r.username n in
          elim (Result-cases (first users (p name) s).0) [
            | inr (e, failed) ↦ absurd (ground (arith, hmac, named, failed))
            | inl (m, e) ↦
                let same : m ≡ u = ground (arith, hmac, named, e) in
                let found = first-pure users (p name) s (ok m) e in
                let m_named : m.username ≡ name =
                  text_eq-true m.username name (first-ok users (p name) s s m found).0 in
                let u_named : u.username ≡ name = ap (λ x. x.username) (sym same) ∙ m_named in
                (
                  hmac,
                  named ∙ ap ok (sym u_named),
                  ap (λ n. first users (p n) s) u_named ∙ found ∙ ap (λ x. (ok x, s)) same,
                )
          ]
    ]
  ]

  judged-next :
      (J : Jwt) (now : ℕ) (token : Text) (v : Unverified) (o : Option User) (role : RoleClaim)
      (u : User)
      → judged J now token v o ≡ Passed.next (some (role, u))
      → (o ≡ some u)
        × (J.accepts now token u.jwt_secret ≡ true)
        × (t : ℕ) × (v.expires ≡ ok (some t))
        × (now < t)
        × (v.role ≡ role)
  judged-next J now token v none role u h = absurd (ground arith)
  judged-next J now token v (some m) role u h =
      elim (Bool-cases (J.accepts now token m.jwt_secret)) [
        | inr refused ↦ absurd (ground (arith, refused))
        | inl accepted ↦
            let (t, expires, in_time, carried, same) =
              within-next now role v.role u m v.expires (ground (arith, accepted)) in
            (
              ap some same,
              ap (λ x. J.accepts now token x.jwt_secret) (sym same) ∙ accepted,
              t,
              expires,
              in_time,
              carried,
            )
      ]

  -- what the middleware has checked of a token before it lets a user and a role through
  pub record IsVouched (J : Jwt) (now : ℕ) (token : Text) (role : RoleClaim) (u : User) (s : Db E)
      : Type 0 where
    pub claims : Unverified
    pub expiry : ℕ
    pub readable : J.read token ≡ ok claims
    pub is_hmac : claims.hmac ≡ true
    pub for_user : claims.subject ≡ ok u.username
    pub with_role : claims.role ≡ role
    pub expires : claims.expires ≡ ok (some expiry)
    pub in_time : now < expiry
    pub under_key : J.accepts now token u.jwt_secret ≡ true
    pub in_database : first users (λ r. text_eq r.username u.username) s ≡ (ok u, s)

  -- A request is let through as a user only with a token that golang-jwt accepts now under that
  -- user's own secret, that is signed by an HMAC method, names the user, carries the role and has
  -- not expired; and the user is the one whom the database gives for that name.
  pub auth-IsVouched :
      (J : Jwt) (now : ℕ) (header : Text) (role : RoleClaim) (u : User) (s : Db E)
      → auth J now header s ≡ Passed.next (some (role, u))
      → IsVouched J now (trim_prefix (codes "Bearer ") header) role u s
  unfolding auth authenticate
  auth-IsVouched J now header role u s h =
      let token = trim_prefix (codes "Bearer ") header in
      elim (Result-cases (J.read token)) [
        | inr (e, failed) ↦ absurd (ground (arith, failed))
        | inl (v, readable) ↦
            let (owner, accepted, t, expires, in_time, carried) =
              judged-next J now token v (key_owner v s) role u (ground (arith, readable)) in
            let (hmac, named, found) = key_owner-some v s u owner in
            record {
              claims = v;
              expiry = t;
              readable = readable;
              is_hmac = hmac;
              for_user = named;
              with_role = carried;
              expires = expires;
              in_time = in_time;
              under_key = accepted;
              in_database = found;
            }
      ]
