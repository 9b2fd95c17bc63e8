-- ===== src/Latency.antt =====
-- graphql/service/node/latency_mutation_utils.go, latency_cache.go and latency_resolver.go: the
-- probes of nodes and the cache of their results. Times are nanoseconds; each operation reads the
-- clock once. The clones of the source are values here.
pub mod Pool
pub mod Cached
use dae_wing.Base.{
  ℕ, ◌+◌, Bool, true, false, not, ◌&&◌, Option, none, some, List, [], ◌∷◌, map, Text, codes,
  text_eq, member, elem, ltb, ◌==◌, if◌then◌else◌, int32, Result, ok, err, Error,
}
use dae_wing.Cursor.{decode_cursor_batch}
use dae_wing.Dae.{Dae, parse_config}
use dae_wing.Store.Engine.{Engine}
use dae_wing.Store.Models.{Config, Node, Db}
use dae_wing.Store.Exec.{Exec, pure, lift, ◌>>=◌, configs, nodes, find, first}

-- LatencyResolver; `none` stands for a nil pointer, and for the zero time
pub record Latency : Type 0 where
  pub node_id : ℕ
  pub latency_ms : Option ℕ
  pub alive : Bool
  pub tested_at : Option ℕ
  pub message : Option Text

-- what dae answers to a probe, and what its control plane knows of a link
pub record Probe : Type 0 where
  pub alive : Bool
  pub checked_at : Option ℕ
  pub milliseconds : ℕ
  pub message : Text

pub record Snapshot : Type 0 where
  pub link : Text
  pub latency_ms : Option ℕ
  pub alive : Bool
  pub checked_at : Option ℕ
  pub message : Text

-- a call that fails with a message
pub data Attempt (A : Type 0) : Type 0 where
  failed : Text → Attempt A
  done : A → Attempt A

-- dae's dialers and its control plane; the check interval is 0 where it is not positive
pub record Prober ⦃D : Dae⦄ : Type 1 where
  pub Setting : Type 0
  pub Connection : Type 0
  pub new_global_option : D.Global → Setting
  pub new_from_link : Setting → Text → Attempt Connection
  pub probe_latency : Connection → Attempt Probe
  pub check_interval : D.Global → ℕ
  pub control_plane : Result (List Snapshot)

-- the latency cache; a map of Go as a list of its entries
pub record Cache : Type 0 where
  pub items : List (ℕ × Latency)
  pub updated_at : Option ℕ

unfoldable pub lookup : ℕ → List (ℕ × Latency) → Option Latency
lookup id [] = none
lookup id ((k, l) ∷ items) = if k == id then some l else lookup id items

-- `items[id] = l`
unfoldable pub put : ℕ → Latency → List (ℕ × Latency) → List (ℕ × Latency)
put id l [] = (id, l) ∷ []
put id l ((k, old) ∷ items) =
    let rest = put id l items in if k == id then (k, l) ∷ items else (k, old) ∷ rest

unfoldable pub put_all : List (ℕ × Latency) → List (ℕ × Latency) → List (ℕ × Latency)
put_all [] items = items
put_all ((id, l) ∷ news) items = put_all news (put id l items)

-- storeLatencyResults
unfoldable pub store_results : ℕ → List Latency → Cache → Cache
store_results now results c = record {
  items = put_all (map (λ l. (l.node_id, l)) results) c.items;
  updated_at = some now;
}

abbrev pub is_not_running : Error → Bool
is_not_running Error.not_running = true
is_not_running _ = false

-- the last node of a link, as a map from the links gives it
unfoldable pub node_by_link : Text → List Node → Option Node
node_by_link link [] = none
node_by_link link (n ∷ ns) = elim (node_by_link link ns) [
  | some m ↦ some m
  | none ↦ if text_eq n.link link then some n else none
]

abbrev is_unchecked : Snapshot → Bool
is_unchecked x = elim x.checked_at [
  | some _ ↦ false
  | none ↦ elim x.latency_ms [
    | some _ ↦ false
    | none ↦ text_eq x.message (codes "no latency result")
  ]
]

abbrev of_snapshot : Node → Snapshot → Latency
of_snapshot n x = record {
  node_id = n.id;
  latency_ms = x.latency_ms;
  alive = x.alive;
  tested_at = x.checked_at;
  message = some x.message;
}

-- the loop over the snapshots
unfoldable pub runtime_results : List Node → List Snapshot → List (ℕ × Latency) → List (ℕ × Latency)
runtime_results ns [] out = out
runtime_results ns (x ∷ xs) out =
    if is_unchecked x then runtime_results ns xs out else elim (node_by_link x.link ns) [
      | none ↦ runtime_results ns xs out
      | some n ↦ runtime_results ns xs (put n.id (of_snapshot n x) out)
    ]

unfoldable pub links_of : List Snapshot → List Text
links_of [] = []
links_of (x ∷ xs) = elim x.link [ [] ↦ links_of xs | c ∷ s ↦ (c ∷ s) ∷ links_of xs ]

-- the loop that answers
unfoldable pub answered : List Node → List (ℕ × Latency) → List Latency
answered [] items = []
answered (n ∷ ns) items = elim (lookup n.id items) [
  | some l ↦ l ∷ answered ns items
  | none ↦ answered ns items
]

-- QueryLatencies from the nodes on
unfoldable pub merged_results :
    List Node → Cache → Result (List (ℕ × Latency)) × Cache → Result (List Latency) × Cache
merged_results ns before (err e, c) = (err e, c)
merged_results ns before (ok runtime, c) = (ok (answered ns (put_all runtime before.items)), c)

module _ ⦃D : Dae⦄ (P : Prober) where
  abbrev unreachable : ℕ → Node → Text → Latency
  unreachable now n message = record {
    node_id = n.id;
    latency_ms = none;
    alive = false;
    tested_at = some now;
    message = some message;
  }

  abbrev probed : Node → Probe → Latency
  probed n p = record {
    node_id = n.id;
    latency_ms = if p.alive then some (int32 p.milliseconds) else none;
    alive = p.alive;
    tested_at = p.checked_at;
    message = if p.alive then none else elim p.message [ [] ↦ none | c ∷ s ↦ some (c ∷ s) ];
  }

  -- testSingleNodeLatency
  unfoldable pub test_single : ℕ → P.Setting → Node → Latency
  test_single now setting n = elim (P.new_from_link setting n.link) [
    | Attempt.failed message ↦ unreachable now n message
    | Attempt.done d ↦ elim (P.probe_latency d) [
      | Attempt.failed message ↦ unreachable now n message
      | Attempt.done p ↦ probed n p
    ]
  ]

  -- testLatencyResultsForNodes, by what Latency/Pool shows of its goroutines
  unfoldable pub test_nodes : ℕ → P.Setting → List Node → List Latency
  test_nodes now setting ns = map (test_single now setting) ns

  module _ ⦃E : Engine⦄ where
    -- latencyProbeOption
    unfoldable pub probe_option : Exec P.Setting
    probe_option = do
      c ← first configs (λ r. r.selected)
      parsed ← lift (parse_config (some c.global) none none)
      pure (P.new_global_option parsed.global)

    -- latencyProbeNodes
    unfoldable pub probe_nodes : Option (List Text) → Exec (List Node)
    probe_nodes none = find nodes (λ r. true)
    probe_nodes (some cursors) = do
      ids ← lift (decode_cursor_batch cursors)
      find nodes (λ r. elem r.id ids)

    abbrev probe_plan : Option (List Text) → Exec (P.Setting × List Node)
    probe_plan ids = do setting ← probe_option; ns ← probe_nodes ids; pure (setting, ns)

    -- TestLatencies: it only reads the database
    unfoldable pub test_latencies :
        ℕ → Option (List Text) → Db E → Cache → Result (List Latency) × Cache
    test_latencies now ids s c = elim (probe_plan ids s).0 [
      | err e ↦ (err e, c)
      | ok (setting, ns) ↦
          let results = test_nodes now setting ns in (ok results, store_results now results c)
    ]

    -- selectedCheckInterval
    unfoldable pub selected_check_interval : Exec ℕ
    selected_check_interval = do
      c ← first configs (λ r. r.selected)
      parsed ← lift (parse_config (some c.global) none none)
      let interval = P.check_interval parsed.global
      pure (if interval == 0 then 30000000000 else interval)

    abbrev is_fresh : ℕ → ℕ → Option ℕ → Bool
    is_fresh now interval none = false
    is_fresh now interval (some t) = ltb now (t + interval)

    -- refreshLatencyCacheIfNeeded with refreshLatencyCache; the error is dropped by its caller
    unfoldable pub refresh_if_needed : ℕ → Db E → Cache → Cache
    refresh_if_needed now s c = elim (selected_check_interval s).0 [
      | err e ↦ c
      | ok interval ↦
          if is_fresh now interval c.updated_at then c else (test_latencies now none s c).1
    ]

    -- loadRuntimeLatencyResults from the snapshots on
    unfoldable pub load_snapshots :
        ℕ → List Snapshot → Db E → Cache → Result (List (ℕ × Latency)) × Cache
    load_snapshots now snapshots s c = elim (links_of snapshots) [
      | [] ↦ (ok [], c)
      | l ∷ links ↦ elim (find nodes (λ n. member n.link (l ∷ links)) s).0 [
        | err e ↦ (err e, c)
        | ok ns ↦
            let results = runtime_results ns snapshots [] in
            (ok results, store_results now (map (λ e. e.1) results) c)
      ]
    ]

    -- loadRuntimeLatencyResults
    unfoldable pub load_runtime : ℕ → Db E → Cache → Result (List (ℕ × Latency)) × Cache
    load_runtime now s c = elim P.control_plane [
      | err e ↦ if is_not_running e then (ok [], c) else (err e, c)
      | ok snapshots ↦ load_snapshots now snapshots s c
    ]

    -- QueryLatencies
    unfoldable pub query_latencies :
        ℕ → Option (List Text) → Db E → Cache → Result (List Latency) × Cache
    query_latencies now ids s c =
        let c1 = refresh_if_needed now s c in
        elim (probe_nodes ids s).0 [
          | err e ↦ (err e, c1)
          | ok ns ↦ merged_results ns c1 (load_runtime now s c1)
        ]
