-- ===== src/Server.antt =====
-- What cmd/run.go does with the database when the process starts: `shouldReload` and
-- `restoreRunningState`.
pub mod Restore
use dae_wing.Base.{Bool, true, false, if◌then◌else◌, Result, ok, err, Error}
use dae_wing.Dae.{Dae}
use dae_wing.Running.Run.{Outside, run}
use dae_wing.Services.Nodes.{first_system}
use dae_wing.Store.Engine.{Engine}
use dae_wing.Store.Models.{Db}
use dae_wing.Store.Exec.{
  Exec, pure, ◌>>=◌, ◌>>◌, configs, systems, first, update_by_id, transaction,
}

module _ ⦃E : Engine⦄ where
  -- shouldReload; `First` reports a missing row as an error, so the branch for a query that
  -- succeeds without a row is never taken
  unfoldable pub should_reload : Exec Bool
  should_reload = do
    sys ← first_system
    if sys.running then (first configs (λ r. r.selected) >> pure true) else pure false

  unfoldable pub mark_stopped : Exec (Unit {0})
  mark_stopped = do
    sys ← first systems (λ x. true)
    update_by_id systems (λ x. x.id) sys.id (λ x. record x { running = false })
    pure tt

  -- the second transaction of restoreRunningState
  unfoldable pub stop_system : Exec (Unit {0})
  stop_system = transaction mark_stopped

  -- the error of the run, joined with the one of the second transaction
  abbrev pub told : Error → Result (Unit {0}) × Db E → Result (Unit {0}) × Db E
  told e (ok _, s) = (err e, s)
  told e (err e2, s) = (err (Error.both e e2), s)

  module _ ⦃D : Dae⦄ (o : Outside) where
    -- `Run` in a transaction, and what follows its failure
    unfoldable pub restart : Bool → Exec (Unit {0})
    restart locked s =
        let q = transaction (run o locked false) s in
        elim q.0 [ ok _ ↦ (ok tt, q.1) | err e ↦ told e (stop_system q.1) ]

    -- restoreRunningState
    unfoldable pub restore_running_state : Bool → Exec (Unit {0})
    restore_running_state locked = do
      reload ← should_reload
      if reload then restart locked else pure tt
