-- ===== src/Running/Modified.antt =====
-- `Running` and `Modified` of graphql/service/general/dae_resolver.go.
use dae_wing.Base.{
  ℕ, Bool, true, false, not, ◌||◌, Option, none, some, List, text_eq, length, ◌==◌, if◌then◌else◌,
}
use dae_wing.Running.Groups.{group_ids_text, version_sum}
use dae_wing.Services.Nodes.{sql_eq, first_system}
use dae_wing.Store.Engine.{Engine}
use dae_wing.Store.Models.{Config, Dns, Routing, Group, System}
use dae_wing.Store.Exec.{Exec, pure, ◌>>=◌, configs, dnss, routings, groups, find, first}

-- `*p != n`; the pointers are set whenever `Running` is
abbrev differs : Option ℕ → ℕ → Bool
differs (some a) n = not (a == n)
differs none n = true

abbrev pub ids_differ : System → Config → Dns → Routing → Bool
ids_differ m c d r =
    (differs m.running_config_id c.id || not (c.version == m.running_config_version))
    || ((differs m.running_dns_id d.id || not (d.version == m.running_dns_version))
        || (differs m.running_routing_id r.id || not (r.version == m.running_routing_version)))

-- the comparison at the end
abbrev pub is_modified : System → Config → Dns → Routing → List Group → Bool
is_modified m c d r gs =
    if ids_differ m c d r || length gs == 0
    then true
    else not (version_sum gs == m.running_group_version_sum)
      || not (text_eq (group_ids_text gs) m.running_group_ids)

module _ ⦃E : Engine⦄ where
  -- Running
  unfoldable pub is_running : Exec Bool
  is_running = do sys ← first_system; pure sys.running

  -- the part of Modified for a running system. Where nothing is selected the source returns `true`
  -- with the error of the query.
  unfoldable pub compare_selected : System → List Group → Exec Bool
  compare_selected m gs = do
    c ← first configs (λ r. r.selected)
    d ← first dnss (λ r. r.selected)
    r ← first routings (λ r. r.selected)
    pure (is_modified m c d r gs)

  -- Modified
  unfoldable pub modified : Exec Bool
  modified = do
    m ← first_system
    gs ← find groups (λ g. sql_eq g.system_id (some m.id))
    if not m.running then pure false else compare_selected m gs
