-- ===== src/Mutations/Runs.antt =====
-- `Run` writes neither configs nor dns sections nor routings.
use dae_wing.Base.{ℕ, Bool, List, [], ◌∷◌, Text, Error}
use dae_wing.Dae.{Dae, Conf}
use dae_wing.Store.Engine.{Engine}
use dae_wing.Store.Models.{Config, Dns, Routing, Group}
use dae_wing.Store.Exec.{TableOf}
use dae_wing.Store.Frames.{Keeps}
use dae_wing.Mutations.Elsewhere.{Holds, elsewhere}
use dae_wing.Mutations.Services.{first_system-Keeps}
use dae_wing.Nodes.Names.{Regexp}
use dae_wing.Running.Groups.{LoadedGroup}
use dae_wing.Running.Run.{
  Outside, selected_row, load_groups, solitary_nodes, collect_nodes, fill_config, stop_running,
  start_selected, run_selected, run,
}
use dae_wing.Running.Save.{replace_running_groups, save_running}

module _ ⦃E : Engine⦄ (Q : E.Table Config → E.Table Dns → E.Table Routing → Type 0) where
  selected_row-Keeps :
      {R : Type 0} (T : TableOf R) (p : R → Bool) (e : Error) → Keeps (Holds Q) (selected_row T p e)
  selected_row-Keeps T p e s h = h

  load_groups-Keeps : (outbounds : List Text) → Keeps (Holds Q) (load_groups outbounds)
  unfolding load_groups
  load_groups-Keeps outbounds = search elsewhere depth 14

  solitary_nodes-Keeps : (id : ℕ) → Keeps (Holds Q) (solitary_nodes id)
  unfolding solitary_nodes
  solitary_nodes-Keeps id = search elsewhere depth 14

  collect_nodes-Keeps :
      (re : Regexp) (gs : List (ℕ × LoadedGroup)) → Keeps (Holds Q) (collect_nodes re gs)
  unfolding collect_nodes
  collect_nodes-Keeps re [] = search elsewhere
  collect_nodes-Keeps re ((i, g) ∷ gs) =
      search (elsewhere, solitary_nodes-Keeps, collect_nodes-Keeps re gs) depth 14

  replace_running_groups-Keeps :
      (id : ℕ) (gs : List Group) → Keeps (Holds Q) (replace_running_groups id gs)
  unfolding replace_running_groups
  replace_running_groups-Keeps id gs = search elsewhere depth 14

  save_running-Keeps :
      (c : Config) (d : Dns) (r : Routing) (gs : List Group)
      → Keeps (Holds Q) (save_running c d r gs)
  unfolding save_running
  save_running-Keeps c d r gs =
      search (elsewhere, first_system-Keeps, replace_running_groups-Keeps) depth 14

  module _ ⦃D : Dae⦄ (o : Outside) where
    fill_config-Keeps : (c : Conf) → Keeps (Holds Q) (fill_config o c)
    unfolding fill_config
    fill_config-Keeps c = search (elsewhere, load_groups-Keeps, collect_nodes-Keeps) depth 14

    start_selected-Keeps :
        (c : Config) (d : Dns) (r : Routing) → Keeps (Holds Q) (start_selected o c d r)
    unfolding start_selected
    start_selected-Keeps c d r = search (elsewhere, fill_config-Keeps, save_running-Keeps) depth 14

    pub run-Keeps : (locked no_load : Bool) → Keeps (Holds Q) (run o locked no_load)
    unfolding run run_selected stop_running
    run-Keeps locked no_load =
        search (elsewhere, first_system-Keeps, selected_row-Keeps, start_selected-Keeps) depth 14
