-- ===== src/Gateway/Guarded.antt =====
-- What a call needs to get past the directive and the middleware.
use dae_wing.Base.{
  ℕ, ◌≡◌, refl, ap, ◌∙◌, ◌⊎◌, inl, inr, true, false, Option, none, some, Text, codes, if◌then◌else◌,
  Bool-cases, Result, err, Error,
}
use dae_wing.Cursor.{trim_prefix}
use dae_wing.Accounts.{RoleClaim}
use dae_wing.Accounts.Auth.{Passed, auth}
use dae_wing.Accounts.Trust.{IsVouched, auth-IsVouched}
use dae_wing.Dae.{Dae}
use dae_wing.Gateway.{
  equal_fold, Verdict, validate, recovered, outcome_of, Reply, Context, role_of, Call,
  is_restricted, Outcome, Api, Server, answer_call, directive, respond, handle,
}
use dae_wing.Gateway.Open.{IsTaken, open-same}
use dae_wing.Store.Engine.{Engine}
use dae_wing.Store.Models.{User, Db}

pub Passed-cases :
    (p : Passed) → (p ≡ Passed.nil_dereference) ⊎ ((context : Context) × (p ≡ Passed.next context))
Passed-cases (Passed.next context) = inr (context, refl)
Passed-cases Passed.nil_dereference = inl refl

-- What `Validate` says of a context: it refuses, it panics, or the context has the role.
validate-cases :
    (context : Context)
    → ((v : Verdict) × (validate (role_of context) (codes "ADMIN") ≡ v)
        × ((v ≡ Verdict.refused Error.access_denied)
            ⊎ ((v ≡ Verdict.refused Error.role_required) ⊎ (v ≡ Verdict.panicked))))
      ⊎ ((role : Text) × (u : User) × (context ≡ some (RoleClaim.text role, u))
          × (equal_fold role (codes "ADMIN") ≡ true))
unfolding validate
validate-cases none = inl (_, refl, inl refl)
validate-cases (some (RoleClaim.absent, u)) = inl (_, refl, inl refl)
validate-cases (some (RoleClaim.another, u)) = inl (_, refl, inr (inr refl))
validate-cases (some (RoleClaim.text role, u)) =
    elim (Bool-cases (equal_fold role (codes "ADMIN"))) [
      | inl admin ↦ inr (role, u, refl, admin)
      | inr other ↦ inl (Verdict.refused Error.role_required, rw other refl, inr (inl refl))
    ]

module _ ⦃D : Dae⦄ ⦃E : Engine⦄ (X : Api) (now : ℕ) (header : Text) where
  -- The header holds a token that the middleware trusts, for a role that is an admin's.
  pub record IsAdmin (s : Db E) : Type 0 where
    pub role : Text
    pub user : User
    pub admin : equal_fold role (codes "ADMIN") ≡ true
    pub vouched :
        IsVouched X.jwt now (trim_prefix (codes "Bearer ") header) (RoleClaim.text role) user s

  -- The connection is closed, or the answer is an error: one of `Validate`, or what the library
  -- makes of its panic.
  abbrev pub IsRefused : Outcome → Type 0
  IsRefused r =
      (r ≡ Outcome.aborted)
      ⊎ ((e : Error) × (r ≡ Outcome.replied (err e))
          × ((e ≡ Error.access_denied)
              ⊎ ((e ≡ Error.role_required) ⊎ (X.executor.on_panic ≡ some e))))

  recovered-IsRefused :
      (p : Option Error) → X.executor.on_panic ≡ p → IsRefused (outcome_of (recovered p))
  recovered-IsRefused none h = inl refl
  recovered-IsRefused (some e) h = inr (e, refl, inr (inr h))

  pub handle-next :
      (context : Context) (call : Call) (w : Server)
      → auth X.jwt now header w.0.0 ≡ Passed.next context
      → handle X now header call w ≡ (
        outcome_of (X.executor.run (directive context call) (answer_call X now context call) w).0,
        (X.executor.run (directive context call) (answer_call X now context call) w).1,
      )
  unfolding handle
  handle-next context call w h = ap (respond X now call w) h

  handle-aborted :
      (call : Call) (w : Server)
      → auth X.jwt now header w.0.0 ≡ Passed.nil_dereference
      → handle X now header call w ≡ (Outcome.aborted, w)
  unfolding handle
  handle-aborted call w h = ap (respond X now call w) h

  handle-stopped :
      (context : Context) (call : Call) (w : Server) (v : Verdict) (r : Option (Result Reply))
      → auth X.jwt now header w.0.0 ≡ Passed.next context
      → is_restricted call ≡ true
      → validate (role_of context) (codes "ADMIN") ≡ v
      → X.executor.run (some v) (answer_call X now context call) w ≡ (r, w)
      → IsRefused (outcome_of r)
      → IsRefused (handle X now header call w).0 × ((handle X now header call w).1 ≡ w)
  handle-stopped context call w v r h restricted denied stops refused =
      let asks : directive context call ≡ some v =
        ap (λ b. if b then some (validate (role_of context) (codes "ADMIN")) else none) restricted
        ∙ ap some denied in
      let ran = ap (λ d. X.executor.run d (answer_call X now context call) w) asks ∙ stops in
      rw (handle-next context call w h ∙ ap (λ q. (outcome_of q.0, q.1)) ran) (refused, refl)

  handle-refused :
      (context : Context) (call : Call) (w : Server) (v : Verdict)
      → auth X.jwt now header w.0.0 ≡ Passed.next context
      → is_restricted call ≡ true
      → validate (role_of context) (codes "ADMIN") ≡ v
      → (v ≡ Verdict.refused Error.access_denied)
        ⊎ ((v ≡ Verdict.refused Error.role_required) ⊎ (v ≡ Verdict.panicked))
      → IsRefused (handle X now header call w).0 × ((handle X now header call w).1 ≡ w)
  handle-refused context call w v h restricted denied which =
      let f = answer_call X now context call in
      elim which [
        | inl e ↦
            handle-stopped context call w _ _ h restricted (denied ∙ e)
              (X.executor.run-denied Error.access_denied f w)
              (inr (Error.access_denied, refl, inl refl))
        | inr (inl e) ↦
            handle-stopped context call w _ _ h restricted (denied ∙ e)
              (X.executor.run-denied Error.role_required f w)
              (inr (Error.role_required, refl, inr (inl refl)))
        | inr (inr e) ↦
            handle-stopped context call w _ _ h restricted (denied ∙ e)
              (X.executor.run-panicked f w) (recovered-IsRefused X.executor.on_panic refl)
      ]

  -- Whatever the header of a request holds: a call that the schema restricts is run for a trusted
  -- token of an admin, or it is refused, by an error of `Validate`, by what the library makes of its
  -- panic on a role that is no text, or by a closed connection, and then the database, the
  -- schedulers and the cache of latencies stay as they are.
  pub handle-restricted :
      (call : Call) (w : Server)
      → is_restricted call ≡ true
      → IsAdmin w.0.0
        ⊎ (IsRefused (handle X now header call w).0 × ((handle X now header call w).1 ≡ w))
  handle-restricted call w restricted = elim (Passed-cases (auth X.jwt now header w.0.0)) [
    | inl closed ↦ inr (rw (handle-aborted call w closed) (inl refl, refl))
    | inr (context, h) ↦ elim (validate-cases context) [
      | inl (v, denied, which) ↦ inr (handle-refused context call w v h restricted denied which)
      | inr (role, u, carried, admin) ↦ inl (record {
        role = role;
        user = u;
        admin = admin;
        vouched =
            auth-IsVouched X.jwt now header (RoleClaim.text role) u w.0.0
              (h ∙ ap Passed.next carried);
      })
    ]
  ]

  -- A call that needs no admin, in a database with a user.
  handle-open :
      (context : Context) (call : Call) (w : Server)
      → auth X.jwt now header w.0.0 ≡ Passed.next context
      → is_restricted call ≡ false
      → IsTaken w.0.0
      → (handle X now header call w).1 ≡ w
  handle-open context call w h open_call taken =
      let free : directive context call ≡ none =
        ap (λ b. if b then some (validate (role_of context) (codes "ADMIN")) else none) open_call in
      let ran =
        ap (λ d. X.executor.run d (answer_call X now context call) w) free
        ∙ X.executor.run-open (answer_call X now context call) w in
      ap (λ r. r.1) (handle-next context call w h)
      ∙ ap (λ r. r.1) ran
      ∙ open-same X now context call w open_call taken

  -- In a database with a user (and fewer than 2³¹), a call of the API changes nothing at all, neither
  -- in the database nor in the schedulers nor in the cache of latencies, unless the header holds a
  -- trusted token of an admin.
  pub handle-IsAdmin :
      (call : Call) (w : Server)
      → IsTaken w.0.0
      → IsAdmin w.0.0 ⊎ ((handle X now header call w).1 ≡ w)
  handle-IsAdmin call w taken = elim (Bool-cases (is_restricted call)) [
    | inl restricted ↦ elim (handle-restricted call w restricted) [
      | inl admin ↦ inl admin
      | inr (_, same) ↦ inr same
    ]
    | inr open_call ↦ elim (Passed-cases (auth X.jwt now header w.0.0)) [
      | inl closed ↦ inr (ap (λ r. r.1) (handle-aborted call w closed))
      | inr (context, h) ↦ inr (handle-open context call w h open_call taken)
    ]
  ]
