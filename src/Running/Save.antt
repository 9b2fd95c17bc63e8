-- ===== src/Running/Save.antt =====
-- The end of `Run` of graphql/service/config/mutation_utils.go: what it writes.
use dae_wing.Base.{ℕ, true, not, ◌&&◌, none, some, List, map, elem}
use dae_wing.Running.Groups.{group_ids_text, version_sum}
use dae_wing.Services.Nodes.{sql_eq, first_system}
use dae_wing.Store.Engine.{Engine}
use dae_wing.Store.Models.{Config, Dns, Routing, Group, System}
use dae_wing.Store.Exec.{Exec, pure, ◌>>=◌, ◌>>◌, groups, systems, update, update_by_id}

module _ ⦃E : Engine⦄ where
  abbrev pub running_system : Config → Dns → Routing → List Group → System → System
  running_system c d r gs sys = record sys {
    running = true;
    running_config_id = some c.id;
    running_config_version = c.version;
    running_dns_id = some d.id;
    running_dns_version = d.version;
    running_routing_id = some r.id;
    running_routing_version = r.version;
    running_group_version_sum = version_sum gs;
    running_group_ids = group_ids_text gs;
  }

  -- `Association("RunningGroups").Replace`
  unfoldable pub replace_running_groups : ℕ → List Group → Exec (Unit {0})
  replace_running_groups sys_id gs = do
    let ids = map (λ g. g.id) gs
    update groups (λ g. elem g.id ids) (λ g. record g { system_id = some sys_id })
    update groups (λ g. not (elem g.id ids) && sql_eq g.system_id (some sys_id))
        (λ g. record g { system_id = none })
    pure tt

  -- `Save running status`
  unfoldable pub save_running : Config → Dns → Routing → List Group → Exec ℕ
  save_running c d r gs = do
    sys ← first_system
    update_by_id systems (λ x. x.id) sys.id (running_system c d r gs)
    replace_running_groups sys.id gs
    pure 1
