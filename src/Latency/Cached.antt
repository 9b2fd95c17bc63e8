-- ===== src/Latency/Cached.antt =====
-- What the latency cache gives back.
use dae_wing.Base.{
  ◌⊎◌, ℕ, ◌+◌, ◌<◌, ◌≡◌, refl, ap, sym, ◌∙◌, inl, inr, Bool, true, false, Option, none, some, List,
  [], ◌∷◌, map, filter_by, Text, elem, ◌==◌, ==-refl, if◌then◌else◌, Bool-cases, ok, err, Error,
  Result-cases, All, arith,
}
use dae_wing.Base.Lists.{filter_by-All}
use dae_wing.Cursor.{decode_cursor_batch}
use dae_wing.Dae.{Dae, parse_config}
use dae_wing.Latency.{
  Latency, Attempt, Prober, Cache, lookup, put, put_all, store_results, test_single, test_nodes,
  probe_option, probe_nodes, test_latencies, selected_check_interval, refresh_if_needed,
  load_runtime, answered, merged_results, query_latencies,
}
use dae_wing.Store.Engine.{Engine}
use dae_wing.Store.Models.{Node, Db}
use dae_wing.Store.Exec.{configs, first}
use dae_wing.Store.Laws.{bind-ok, lift-bind-ok, first-ok, pure-ok}

lookup-put :
    (k id : ℕ) (l : Latency) (items : List (ℕ × Latency))
    → lookup k (put id l items) ≡ (if k == id then some l else lookup k items)
unfolding lookup put
lookup-put k id l [] = ground arith
lookup-put k id l ((j, old) ∷ items) = ground (arith, lookup-put k id l items)

abbrev pub IsAbsent : ℕ → Node → Type 0
IsAbsent id n = (n.id == id) ≡ false

-- no identifier stands twice
abbrev pub IsDistinct : List Node → Type 0
IsDistinct [] = Unit
IsDistinct (n ∷ ns) = All (IsAbsent n.id) ns × IsDistinct ns

module _ (f : Node → Latency) where
  abbrev entries : List Node → List (ℕ × Latency)
  entries = map (λ n. (n.id, f n))

  lookup-put_all :
      (id : ℕ) (ns : List Node) (items : List (ℕ × Latency))
      → All (IsAbsent id) ns
      → lookup id (put_all (entries ns) items) ≡ lookup id items
  unfolding put_all
  lookup-put_all id [] items _ = refl
  lookup-put_all id (n ∷ ns) items (other, others) =
      lookup-put_all id ns (put n.id (f n) items) others
      ∙ ground (arith, other, lookup-put id n.id (f n) items)

  IsFound : List (ℕ × Latency) → Node → Type 0
  IsFound items n = lookup n.id items ≡ some (f n)

  put_all-IsFound :
      (ns : List Node) (items : List (ℕ × Latency))
      → IsDistinct ns
      → All (IsFound (put_all (entries ns) items)) ns
  unfolding put_all IsFound
  put_all-IsFound [] items _ = tt
  put_all-IsFound (n ∷ ns) items (absent, distinct) = (
    lookup-put_all n.id ns (put n.id (f n) items) absent
        ∙ ground (arith, ==-refl n.id, lookup-put n.id n.id (f n) items),
    put_all-IsFound ns (put n.id (f n) items) distinct,
  )

  answered-map :
      (ns : List Node) (items : List (ℕ × Latency))
      → All (IsFound items) ns
      → answered ns items ≡ map f ns
  unfolding answered IsFound
  answered-map [] items _ = refl
  answered-map (n ∷ ns) items (found, rest) = ground (arith, found, answered-map ns items rest)

filter_by-IsDistinct :
    (p : Node → Bool) (ns : List Node) → IsDistinct ns → IsDistinct (filter_by p ns)
filter_by-IsDistinct p [] _ = tt
filter_by-IsDistinct p (n ∷ ns) (h, hs) = elim (Bool-cases (p n)) [
  | inl picked ↦ rw picked (filter_by-All (IsAbsent n.id) p ns h, filter_by-IsDistinct p ns hs)
  | inr left ↦ rw left (filter_by-IsDistinct p ns hs)
]

attempt-cases :
    {A : Type 0} (x : Attempt A)
    → ((m : Text) × (x ≡ Attempt.failed m)) ⊎ ((a : A) × (x ≡ Attempt.done a))
attempt-cases (Attempt.failed m) = inl (m, refl)
attempt-cases (Attempt.done a) = inr (a, refl)

module _ ⦃E : Engine⦄ ⦃D : Dae⦄ (P : Prober) where
  test_single-node_id :
      (now : ℕ) (setting : P.Setting) (n : Node) → (test_single P now setting n).node_id ≡ n.id
  unfolding test_single
  test_single-node_id now setting n = elim (attempt-cases (P.new_from_link setting n.link)) [
    | inl (message, e) ↦ ground (arith, e)
    | inr (d, e) ↦ elim (attempt-cases (P.probe_latency d)) [
      | inl (message, e') ↦ ground (arith, e, e')
      | inr (p, e') ↦ ground (arith, e, e')
    ]
  ]

  probe_option-same :
      (s s1 : Db E) (setting : P.Setting) → probe_option P s ≡ (ok setting, s1) → s1 ≡ s
  unfolding probe_option
  probe_option-same s s1 setting h =
      let (c, s2, found, rest) = bind-ok (first configs (λ r. r.selected)) _ s s1 setting h in
      let (parsed, _, last) =
        lift-bind-ok (parse_config (some c.global) none none) _ s2 s1 setting rest in
      (pure-ok (P.new_global_option parsed.global) setting s2 s1 last).1
      ∙ (first-ok configs (λ r. r.selected) s s2 c found).1

  test_latencies-ok :
      (now : ℕ) (ids : Option (List Text)) (s : Db E) (c c1 : Cache) (rs : List Latency)
      → test_latencies P now ids s c ≡ (ok rs, c1)
      → (setting : P.Setting) × (ns : List Node) × ((probe_nodes P ids s).0 ≡ ok ns)
        × (rs ≡ test_nodes P now setting ns)
        × (c1 ≡ store_results now rs c)
  unfolding test_latencies
  test_latencies-ok now ids s c c1 rs h = elim (Result-cases (probe_option P s).0) [
    | inr (e, failed) ↦ absurd (ground (arith, failed))
    | inl (setting, e) ↦
        let same = probe_option-same s (probe_option P s).1 setting (ground (arith, e)) in
        elim (Result-cases (probe_nodes P ids s).0) [
          | inr (x, failed) ↦ absurd (ground (arith, e, same, failed))
          | inl (ns, found) ↦
              (setting, ns, found, ground (arith, e, same, found), ground (arith, e, same, found))
        ]
  ]

  probe_nodes-IsDistinct :
      (ids : Option (List Text)) (s : Db E) (ns : List Node)
      → (probe_nodes P ids s).0 ≡ ok ns
      → IsDistinct (E.rows s.nodes)
      → IsDistinct ns
  unfolding probe_nodes
  probe_nodes-IsDistinct none s ns h distinct =
      rw (E.find-rows s.nodes (λ r. true) ns h)
        (filter_by-IsDistinct (λ r. true) (E.rows s.nodes) distinct)
  probe_nodes-IsDistinct (some cursors) s ns h distinct =
      elim (Result-cases (decode_cursor_batch cursors)) [
        | inr (e, bad) ↦ absurd (ground (arith, bad))
        | inl (is, decoded) ↦
            let p : Node → Bool = λ r. elem r.id is in
            rw (E.find-rows s.nodes p ns (ground (arith, decoded)))
              (filter_by-IsDistinct p (E.rows s.nodes) distinct)
      ]

  stored-entries :
      (now : ℕ) (setting : P.Setting) (ns : List Node)
      → map {A = Latency} (λ l. (l.node_id, l)) (test_nodes P now setting ns)
        ≡ entries (test_single P now setting) ns
  unfolding test_nodes
  stored-entries now setting [] = refl
  stored-entries now setting (n ∷ ns) =
      let f = test_single P now setting in
      ap (λ k. (k, f n) ∷ map (λ l. (l.node_id, l)) (map f ns)) (test_single-node_id now setting n)
      ∙ ap (λ l. (n.id, f n) ∷ l) (stored-entries now setting ns)

  test_nodes-map :
      (now : ℕ) (setting : P.Setting) (ns : List Node)
      → test_nodes P now setting ns ≡ map (test_single P now setting) ns
  unfolding test_nodes
  test_nodes-map now setting ns = refl

  -- what a test leaves in the cache
  test_latencies-cache :
      (now : ℕ) (setting : P.Setting) (ns : List Node) (rs : List Latency) (c c1 : Cache)
      → rs ≡ test_nodes P now setting ns
      → c1 ≡ store_results now rs c
      → (c1.updated_at ≡ some now)
        × (c1.items ≡ put_all (entries (test_single P now setting) ns) c.items)
  unfolding store_results
  test_latencies-cache now setting ns rs c c1 results stored = (
    ap (λ (x : Cache). x.updated_at) stored,
    ap (λ (x : Cache). x.items) stored
        ∙ ap (λ l. put_all (map (λ (x : Latency). (x.node_id, x)) l) c.items) results
        ∙ ap (λ l. put_all l c.items) (stored-entries now setting ns),
  )

  -- the answer of the cache alone, where dae is not running
  idle-query :
      (later : ℕ) (ids : Option (List Text)) (s : Db E) (c : Cache) (ns : List Node)
      → P.control_plane ≡ err Error.not_running
      → refresh_if_needed P later s c ≡ c
      → (probe_nodes P ids s).0 ≡ ok ns
      → query_latencies P later ids s c ≡ (ok (answered ns c.items), c)
  unfolding query_latencies load_runtime merged_results put_all
  idle-query later ids s c ns idle fresh found = ground (arith, idle, fresh, found)

  -- within the check interval the cache is left alone
  refresh_if_needed-fresh :
      (later now interval : ℕ) (s : Db E) (c : Cache)
      → (selected_check_interval P s).0 ≡ ok interval
      → later < now + interval
      → c.updated_at ≡ some now
      → refresh_if_needed P later s c ≡ c
  unfolding refresh_if_needed
  refresh_if_needed-fresh later now interval s c interval_is soon updated =
      ground (arith, interval_is, updated)

  -- After `TestLatencies` of some nodes has succeeded, `QueryLatencies` of the same nodes answers
  -- just the results of that test, in their order, and leaves the cache as it is, as long as the
  -- check interval has not passed, if dae is not running and no two nodes have one identifier.
  pub query_latencies-tested :
      (now later interval : ℕ) (ids : Option (List Text)) (s : Db E) (c c1 : Cache)
      (rs : List Latency)
      → test_latencies P now ids s c ≡ (ok rs, c1)
      → (selected_check_interval P s).0 ≡ ok interval
      → later < now + interval
      → P.control_plane ≡ err Error.not_running
      → IsDistinct (E.rows s.nodes)
      → query_latencies P later ids s c1 ≡ (ok rs, c1)
  query_latencies-tested now later interval ids s c c1 rs h interval_is soon idle distinct =
      let (setting, ns, found, results, stored) = test_latencies-ok now ids s c c1 rs h in
      let f = test_single P now setting in
      let (updated, items) = test_latencies-cache now setting ns rs c c1 results stored in
      let fresh = refresh_if_needed-fresh later now interval s c1 interval_is soon updated in
      let all_found =
        put_all-IsFound f ns c.items (probe_nodes-IsDistinct ids s ns found distinct) in
      let answers : answered ns c1.items ≡ rs =
        ap (answered ns) items
        ∙ answered-map f ns (put_all (entries f ns) c.items) all_found
        ∙ sym (results ∙ test_nodes-map now setting ns) in
      idle-query later ids s c1 ns idle fresh found ∙ ap (λ l. (ok l, c1)) answers
