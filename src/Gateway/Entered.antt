-- ===== src/Gateway/Entered.antt =====
-- What the token opens that the creation of the account answers with.
use dae_wing.Base.{
  ℕ, ◌+◌, ◌<◌, ◌≡◌, refl, ap, sym, ◌∙◌, inl, inr, Option, some, List, ◌++◌, Text, codes, Bool-cases,
  Result, ok, Result-cases, arith,
}
use dae_wing.Accounts.{Crypto, Jwt, RoleClaim, lifetime, create_user}
use dae_wing.Accounts.Auth.{Passed, auth}
use dae_wing.Accounts.Login.{create_user-auth}
use dae_wing.Accounts.Profile.{Json}
use dae_wing.Accounts.Requests
use dae_wing.Accounts.Requests.{Request, reply, serve}
use dae_wing.Dae.{Dae}
use dae_wing.Gateway.{
  equal_fold, validate, Verdict, resolved, outcome_of, Context, user_of, Call, is_restricted,
  directive, Reply, Outcome, Api, Server, on_database, answer_call, handle,
}
use dae_wing.Gateway.Guarded.{Passed-cases, handle-next}
use dae_wing.Store.Engine.{Engine}
use dae_wing.Store.Models.{User, Db}
use dae_wing.Store.Exec.{Exec}

admin-validate : validate (RoleClaim.text (codes "admin")) (codes "ADMIN") ≡ Verdict.allowed
unfolding validate equal_fold
admin-validate = refl

module _ ⦃E : Engine⦄ where
  reply-ok :
      {A : Type 0} (f : A → Requests.Reply) (m : Exec A) (a : Requests.Reply) (s s' : Db E)
      → reply f m s ≡ (ok a, s')
      → (x : A) × (m s ≡ (ok x, s')) × (f x ≡ a)
  reply-ok f m a s s' h = elim (Result-cases (m s).0) [
    | inl (x, e) ↦ (x, ground (arith, e), ground (arith, e))
    | inr (x, e) ↦ absurd (ground (arith, e))
  ]

  created :
      (H : Crypto) (J : Jwt) (S : Json) (random : Result (List ℕ)) (now : ℕ) (name pw t : Text)
      (context : Context) (s s' : Db E)
      → serve H J S (user_of context) (Request.create_user_request random now name pw) s
        ≡ (ok (Requests.Reply.token t), s')
      → create_user H J random now name pw s ≡ (ok t, s')
  unfolding serve
  created H J S random now name pw t context s s' h =
      let (x, ran, same) =
        reply-ok Requests.Reply.token (create_user H J random now name pw) (Requests.Reply.token t)
          s s' h in
      let x_is : x ≡ t = ground arith in ran ∙ ap (λ y. (ok y, s')) x_is

module _ ⦃D : Dae⦄ ⦃E : Engine⦄ where
  on_database-ok :
      {A : Type 0} (f : A → Reply) (m : Exec A) (y : Reply) (w w' : Server)
      → on_database f m w ≡ (ok y, w')
      → (a : A) × (m w.0.0 ≡ (ok a, w'.0.0)) × (f a ≡ y) × (w' ≡ ((w'.0.0, w.0.1), w.1))
  on_database-ok f m y w w' h = elim (Result-cases (m w.0.0).0) [
    | inl (a, e) ↦ (a, ground (arith, e), ground (arith, e), ground (arith, e))
    | inr (x, e) ↦ absurd (ground (arith, e))
  ]

  module _ (X : Api) where
    handle-created :
        (now : ℕ) (header : Text) (random : Result (List ℕ)) (at : ℕ) (name pw t : Text)
        (w w' : Server)
        → handle X now header (Call.account (Request.create_user_request random at name pw)) w
          ≡ (Outcome.replied (ok (Reply.of_account (Requests.Reply.token t))), w')
        → create_user X.crypto X.jwt random at name pw w.0.0 ≡ (ok t, w'.0.0)
    unfolding handle answer_call is_restricted
    handle-created now header random at name pw t w w' h =
        let q = Request.create_user_request random at name pw in
        let call : Call = Call.account q in
        elim (Passed-cases (auth X.jwt now header w.0.0)) [
          | inl closed ↦ absurd (ground (arith, closed))
          | inr (context, e) ↦
              let m = answer_call X now context call in
              let ran = sym (handle-next X now header context call w e) ∙ h in
              let opened : (Outcome.replied (m w).0, (m w).1)
                  ≡ (Outcome.replied (ok (Reply.of_account (Requests.Reply.token t))), w') =
                ap (λ (r : Option (Result Reply) × Server). (outcome_of r.0, r.1))
                  (sym (X.executor.run-open m w))
                ∙ ran in
              let done : m w ≡ (ok (Reply.of_account (Requests.Reply.token t)), w') =
                ground (arith, opened) in
              let (a, served, same, _) =
                on_database-ok Reply.of_account (serve X.crypto X.jwt X.json (user_of context) q)
                  (Reply.of_account (Requests.Reply.token t)) w w' done in
              let a_is : a ≡ Requests.Reply.token t = ground arith in
              created X.crypto X.jwt X.json random at name pw t context w.0.0 w'.0.0
                (served ∙ ap (λ y. (ok y, w'.0.0)) a_is)
        ]

    -- a token of the role "admin" passes the directive of every field
    admin-run :
        (later : ℕ) (header : Text) (m : User) (call : Call) (w : Server)
        → auth X.jwt later header w.0.0 ≡ Passed.next (some (RoleClaim.text (codes "admin"), m))
        → handle X later header call w ≡ (
          Outcome.replied (answer_call X later (some (RoleClaim.text (codes "admin"), m)) call w).0,
          (answer_call X later (some (RoleClaim.text (codes "admin"), m)) call w).1,
        )
    admin-run later header m call w h =
        let context : Context = some (RoleClaim.text (codes "admin"), m) in
        let f = answer_call X later context call in
        let ran : X.executor.run (directive context call) f w ≡ resolved f w =
          elim (Bool-cases (is_restricted call)) [
            | inl restricted ↦
                rw restricted
                  (ap (λ v. X.executor.run (some v) f w) admin-validate ∙ X.executor.run-passed f w)
            | inr free ↦ rw free (X.executor.run-open f w)
          ] in
        handle-next X later header context call w h ∙ ap (λ r. (outcome_of r.0, r.1)) ran

    -- The token that the API answers to the creation of the account lets every call through to its
    -- resolver for thirty days, as an admin of the new name, as long as the database is the one that
    -- the creation left.
    pub handle-create_user :
        (now later : ℕ) (header : Text) (random : Result (List ℕ)) (at : ℕ) (name pw t : Text)
        (call : Call) (w w' : Server)
        → handle X now header (Call.account (Request.create_user_request random at name pw)) w
          ≡ (Outcome.replied (ok (Reply.of_account (Requests.Reply.token t))), w')
        → later < at + lifetime
        → (m : User) × (m.username ≡ name)
          × (handle X later (codes "Bearer " ++ t) call w' ≡ (
            Outcome.replied
                (answer_call X later (some (RoleClaim.text (codes "admin"), m)) call w').0,
            (answer_call X later (some (RoleClaim.text (codes "admin"), m)) call w').1,
          ))
    handle-create_user now later header random at name pw t call w w' h in_time =
        let made = handle-created now header random at name pw t w w' h in
        let (m, lets, named) =
          create_user-auth X.crypto X.jwt random at later name pw t w.0.0 w'.0.0 made in_time in
        (m, named, admin-run later (codes "Bearer " ++ t) m call w' lets)
