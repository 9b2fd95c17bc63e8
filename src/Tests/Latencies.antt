-- ===== src/Tests/Latencies.antt =====
-- Probes of the nodes of the tests, and a run of the pool in which the second node overtakes.
use dae_wing.Base.{
  ℕ, suc, ◌+◌, ◌*◌, ◌≤◌, ◌≡◌, refl, true, none, some, List, [], ◌∷◌, map, Text, ok, err, Error,
  arith,
}
use dae_wing.Dae.{parse_config, join}
use dae_wing.Latency.{
  Latency, Attempt, Prober, Cache, put, put_all, store_results, test_single, test_nodes,
  probe_option, probe_nodes, test_latencies, selected_check_interval, query_latencies,
}
use dae_wing.Latency.Cached.{query_latencies-tested}
use dae_wing.Latency.Pool.{Slot, in_flight, started, ended, Step, Run, started-bound, started-ended}
use dae_wing.Latency.Pool.Progress.{started-finish}
use dae_wing.Store.Memory.{memory}
use dae_wing.Tests.Data.{plain_dae, database}

abbrev slots : List (Slot ℕ ℕ)
slots = Slot.probing 1 ∷ Slot.probing 2 ∷ []

both_enter : Run suc 2 (started (1 ∷ 2 ∷ [])) slots
unfolding started in_flight
both_enter =
    Run.next 1 _ (Slot.waiting 1 ∷ Slot.probing 2 ∷ []) _
      (Step.enter (Slot.waiting 1 ∷ []) [] 2 (omega arith))
      (Run.next 0 _ slots _ (Step.enter [] (Slot.probing 2 ∷ []) 1 (omega arith)) (Run.stop slots))

started-bound_example : in_flight slots ≤ 8
started-bound_example = started-bound suc 2 (1 ∷ 2 ∷ []) slots both_enter

both_leave : Run suc 4 (started (1 ∷ 2 ∷ [])) (ended (2 ∷ 3 ∷ []))
unfolding started ended in_flight
both_leave =
    Run.next 3 _ (Slot.waiting 1 ∷ Slot.probing 2 ∷ []) _
      (Step.enter (Slot.waiting 1 ∷ []) [] 2 (omega arith))
      (Run.next 2 _ slots _ (Step.enter [] (Slot.probing 2 ∷ []) 1 (omega arith)) (
        Run.next 1 _ (Slot.probing 1 ∷ Slot.finished 3 ∷ []) _
          (Step.leave (Slot.probing 1 ∷ []) [] 2)
          (Run.next 0 _ (Slot.finished 2 ∷ Slot.finished 3 ∷ []) _
            (Step.leave [] (Slot.finished 3 ∷ []) 1)
            (Run.stop (Slot.finished 2 ∷ Slot.finished 3 ∷ [])))))

started-ended_example : 2 ∷ 3 ∷ [] ≡ map suc (1 ∷ 2 ∷ [])
started-ended_example = started-ended suc 4 (1 ∷ 2 ∷ []) (2 ∷ 3 ∷ []) both_leave

started-finish_example :
    ((m : ℕ) × Run suc m slots (ended (map suc (1 ∷ 2 ∷ []))))
    × ((m : ℕ) (bs : List ℕ) → Run suc m slots (ended bs) → 2 + m ≡ 2 * 2)
started-finish_example = started-finish suc 2 (1 ∷ 2 ∷ []) slots both_enter

-- nodes that answer in 40 milliseconds
abbrev pub prober : Prober ⦃D = plain_dae⦄
prober = record {
  Setting = Text;
  Connection = Text;
  new_global_option = λ g. g;
  new_from_link = λ g link. Attempt.done link;
  probe_latency = λ d.
      Attempt.done (record { alive = true; checked_at = some 5; milliseconds = 40; message = [] });
  check_interval = λ g. 0;
  control_plane = err Error.not_running;
}

abbrev alive_in_40 : ℕ → Latency
alive_in_40 id = record {
  node_id = id;
  latency_ms = some 40;
  alive = true;
  tested_at = some 5;
  message = none;
}

abbrev results : List Latency
results = alive_in_40 1 ∷ alive_in_40 2 ∷ alive_in_40 3 ∷ []

abbrev filled : Cache
filled = record {
  items = (1, alive_in_40 1) ∷ (2, alive_in_40 2) ∷ (3, alive_in_40 3) ∷ [];
  updated_at = some 4;
}

abbrev empty : Cache
empty = record { items = []; updated_at = none }

query_latencies-tested_example :
    query_latencies ⦃D = plain_dae⦄ prober ⦃E = memory⦄ 6 none database filled
    ≡ (ok results, filled)
unfolding test_latencies probe_option probe_nodes test_nodes test_single store_results put_all put
    parse_config join selected_check_interval
query_latencies-tested_example =
    query_latencies-tested ⦃E = memory⦄ ⦃D = plain_dae⦄ prober 4 6 30000000000 none database empty
      filled results refl refl (omega arith) refl ((refl, (refl, tt)), ((refl, tt), (tt, tt)))
