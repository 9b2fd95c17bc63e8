-- ===== src/Tests/Restores.antt =====
-- Starts of the process with a system that was running.
use dae_wing.Base.{true, [], ◌∷◌}
use dae_wing.Services.Nodes.{blank_system}
use dae_wing.Store.Exec.{systems}
use dae_wing.Store.Memory.{memory}
use dae_wing.Store.Models.{System, Db}
use dae_wing.Tests.Data.{database}

abbrev was_running : System
was_running = record (blank_system ⦃E = memory⦄ 1) { running = true }

-- the running system has no selected dns
abbrev no_dns : Db memory
no_dns = record database { dnss = []; systems = was_running ∷ [] }

abbrev stopped : Db memory
stopped = record no_dns { systems = blank_system ⦃E = memory⦄ 1 ∷ [] }

abbrev no_config : Db memory
no_config = record database { configs = []; systems = was_running ∷ [] }
