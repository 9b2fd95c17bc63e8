-- ===== src/Server/Restore.antt =====
-- What a failed restore leaves behind.
use dae_wing.Base.{
  ℕ, ◌≡◌, ap, ◌∙◌, Bool, true, false, List, [], ◌∷◌, map, ◌==◌, if◌then◌else◌, Result, ok, err,
  Error, All, arith,
}
use dae_wing.Dae.{Dae}
use dae_wing.Running.Run.{Outside}
use dae_wing.Server.{mark_stopped, stop_system, restore_running_state}
use dae_wing.Store.Engine.{Engine}
use dae_wing.Store.Models.{System, Db}
use dae_wing.Store.Exec.{pure, ◌>>◌, systems, first, update_by_id}
use dae_wing.Store.Laws.{
  pure-ok, first-ok, bind-ok, transaction-ok, transaction-err, update_by_id-ok,
}

abbrev pub IsStopped : ℕ → System → Type 0
IsStopped id x = (x.id == id) ≡ true → x.running ≡ false

All-IsStopped :
    (id : ℕ) (xs : List System)
    → All (IsStopped id) (map (λ x. if x.id == id then record x { running = false } else x) xs)
All-IsStopped id [] = tt
All-IsStopped id (x ∷ xs) = (λ h. ground arith, All-IsStopped id xs)

abbrev pub is_failure : Result (Unit {0}) → Bool
is_failure (ok _) = false
is_failure (err e) = true

module _ ⦃E : Engine⦄ where
  -- the system that `First` gives is stopped
  pub stop_system-ok :
      (s s' : Db E)
      → stop_system s ≡ (ok tt, s')
      → (sys : System) × (first systems (λ x. true) s ≡ (ok sys, s))
        × All (IsStopped sys.id) (E.rows s'.systems)
  unfolding stop_system mark_stopped
  stop_system-ok s s' h =
      let stop = λ (sys : System).
        update_by_id systems (λ x. x.id) sys.id (λ x. record x { running = false }) in
      let body = transaction-ok mark_stopped s s' tt h in
      let (sys, s1, found, rest) =
        bind-ok (first systems (λ x. true)) (λ sys. stop sys >> pure tt) s s' tt body in
      let (n, s2, wrote, last) = bind-ok (stop sys) (λ _. pure tt) s1 s' tt rest in
      let same = (first-ok systems (λ x. true) s s1 sys found).1 in
      let (table, e, rows, _) = update_by_id-ok systems (λ x. x.id) sys.id _ s1 s2 n wrote in
      let final_state : s' ≡ _ = (pure-ok tt tt s2 s' last).1 ∙ e in
      let final : E.rows s'.systems ≡ E.rows table =
        ap (λ (x : Db E). E.rows x.systems) final_state in
      (
        sys,
        found ∙ ap (λ x. (ok sys, x)) same,
        rw (final ∙ rows) (All-IsStopped sys.id (E.rows s1.systems)),
      )

  pub stop_system-err : (s s' : Db E) (e : Error) → stop_system s ≡ (err e, s') → s' ≡ s
  unfolding stop_system
  stop_system-err s s' e h = transaction-err mark_stopped s s' e h

  module _ ⦃D : Dae⦄ (o : Outside) where
    -- starts of the process, one after the other, with what each one tells
    abbrev pub starts : List Bool → Db E → List (Result (Unit {0})) × Db E
    starts [] s = ([], s)
    starts (locked ∷ ls) s =
        let q = restore_running_state o locked s in
        let rest = starts ls q.1 in (q.0 ∷ rest.0, rest.1)
