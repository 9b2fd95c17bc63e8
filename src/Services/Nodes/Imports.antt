-- ===== src/Services/Nodes/Imports.antt =====
-- What `importNode` and `Import` do to the table of nodes, and what they report.
use mathlib.Core.List.{append-nil, append_assoc}
use mathlib.Core.Path.{subst}
use dae_wing.Base.{
  ℕ, ◌≡◌, refl, ap, sym, ◌∙◌, inl, inr, Bool, true, false, ◌&&◌, ◌⊎◌, ◌==◌, Option, none, some,
  List, [], ◌∷◌, ◌++◌, map, Text, text_eq, length, any, filter_by, ltb, Bool-cases, Result, ok, err,
  Error, Result-cases, arith,
}
use dae_wing.Cursor.Validator.{ImportArgument, validate_argument_tag}
use dae_wing.Services.Nodes.{
  Dialer, ImportResult, sql_eq, is_duplicated, new_node_model, import_node, import_nodes,
}
use dae_wing.Store.Engine.{Engine}
use dae_wing.Store.Models.{Node, Db}

-- the nodes of the results that succeeded
abbrev pub added : List ImportResult → List Node
added [] = []
added (r ∷ rs) = elim r.node [ some m ↦ m ∷ added rs | none ↦ added rs ]

any-length {ℓ} :
    {A : Type ℓ} (p : A → Bool) (xs : List A) → ltb 0 (length (filter_by p xs)) ≡ any p xs
any-length p [] = refl
any-length p (x ∷ xs) = ground (arith, any-length p xs)

-- whether a node has the link, in the subscription `k`
abbrev pub is_in : ℕ → Text → Node → Bool
is_in k link r = text_eq r.link link && elim r.subscription_id [ none ↦ false | some j ↦ j == k ]

-- what a duplicate is: there is none without a subscription
abbrev pub is_duplicate : Option ℕ → Text → List Node → Bool
is_duplicate none link rows = false
is_duplicate (some k) link rows = any (is_in k link) rows

sql_eq-none : (a : Option ℕ) → sql_eq a none ≡ false
sql_eq-none none = refl
sql_eq-none (some j) = refl

sql_eq-some : (a : Option ℕ) (k : ℕ) → sql_eq a (some k) ≡ elim a [ none ↦ false | some j ↦ j == k ]
sql_eq-some none k = refl
sql_eq-some (some j) k = refl

same-is_duplicate :
    (sub : Option ℕ) (link : Text) (rows : List Node)
    → any (λ r. text_eq r.link link && sql_eq r.subscription_id sub) rows
      ≡ is_duplicate sub link rows
same-is_duplicate none link [] = refl
same-is_duplicate none link (r ∷ rs) =
    ground (arith, sql_eq-none r.subscription_id, same-is_duplicate none link rs)
same-is_duplicate (some k) link [] = refl
same-is_duplicate (some k) link (r ∷ rs) =
    ground (arith, sql_eq-some r.subscription_id k, same-is_duplicate (some k) link rs)

module _ ⦃E : Engine⦄ (d : Dialer) where
  -- A node that is imported stands at the end of the table; one that is refused leaves no trace.
  import_node-ok :
      (sub : Option ℕ) (arg : ImportArgument) (m : Node) (s s' : Db E)
      → import_node d sub arg s ≡ (ok m, s')
      → E.rows s'.nodes ≡ E.rows s.nodes ++ m ∷ []
  unfolding import_node
  import_node-ok sub arg m s s' h = elim (Result-cases (validate_argument_tag arg)) [
    | inr (e, bad) ↦ absurd (ground arith)
    | inl (u, valid) ↦ elim (Result-cases (new_node_model d arg.link arg.tag sub)) [
      | inr (e, bad) ↦ absurd (ground arith)
      | inl (m0, model) ↦
          elim (Result-cases (E.insert (λ r. r.id) s.nodes (λ id. record m0 { id = id }))) [
            | inr (e, failed) ↦ absurd (ground arith)
            | inl ((t, r), inserted) ↦
                let (id, made, rows, lt) =
                  E.insert-rows (λ r. r.id) s.nodes (λ id. record m0 { id = id }) t r inserted in
                ground (arith, rows)
          ]
    ]
  ]

  import_node-err :
      (sub : Option ℕ) (arg : ImportArgument) (e : Error) (s s' : Db E)
      → import_node d sub arg s ≡ (err e, s')
      → s' ≡ s
  unfolding import_node
  import_node-err sub arg e s s' h = ground arith

  -- What `importNode` may answer: a node that is no duplicate, at the end of the table; or an error
  -- of the tag, of the link, of a statement, or of a duplicate, with the database as it was.
  abbrev pub IsJudged : Option ℕ → ImportArgument → Db E → Result Node × Db E → Type 0
  IsJudged sub arg s (ok m, s') =
      (is_duplicate sub arg.link (E.rows s.nodes) ≡ false)
      × (E.rows s'.nodes ≡ E.rows s.nodes ++ m ∷ [])
  IsJudged sub arg s (err e, s') =
      (s' ≡ s)
      × ((validate_argument_tag arg ≡ err e)
          ⊎ ((new_node_model d arg.link arg.tag sub ≡ err e)
              ⊎ (((p : Node → Bool) × (E.find s.nodes p ≡ err e))
                  ⊎ (((mk : ℕ → Node) × (E.insert (λ r. r.id) s.nodes mk ≡ err e))
                      ⊎ ((e ≡ Error.duplicated)
                          × (is_duplicate sub arg.link (E.rows s.nodes) ≡ true))))))

  answered :
      (sub : Option ℕ) (arg : ImportArgument) (s : Db E) (q : Result Node) (s' : Db E)
      → import_node d sub arg s ≡ (q, s')
      → IsJudged sub arg s (q, s')
      → IsJudged sub arg s (import_node d sub arg s)
  answered sub arg s q s' h = subst (IsJudged sub arg s) (sym h)

  -- behind the SELECT
  checked :
      (sub : Option ℕ) (arg : ImportArgument) (s : Db E) (m : Node) (l : List Node)
      → validate_argument_tag arg ≡ ok tt
      → new_node_model d arg.link arg.tag sub ≡ ok m
      → E.find s.nodes (λ r. text_eq r.link arg.link && sql_eq r.subscription_id sub) ≡ ok l
      → IsJudged sub arg s (import_node d sub arg s)
  unfolding import_node
  checked sub arg s m l valid model found =
      let p : Node → Bool = λ r. text_eq r.link arg.link && sql_eq r.subscription_id sub in
      let mk : ℕ → Node = λ id. record m { id = id } in
      let test : ltb 0 (length l) ≡ is_duplicate sub arg.link (E.rows s.nodes) =
        ap (λ (x : List Node). ltb 0 (length x)) (E.find-rows s.nodes p l found)
        ∙ any-length p (E.rows s.nodes)
        ∙ same-is_duplicate sub arg.link (E.rows s.nodes) in
      elim (Bool-cases (ltb 0 (length l))) [
        | inl some_rows ↦
            answered sub arg s (err Error.duplicated) s
              (ground (arith, valid, model, found, some_rows))
              (refl, inr (inr (inr (inr (refl, sym test ∙ some_rows)))))
        | inr no_rows ↦ elim (Result-cases (E.insert (λ r. r.id) s.nodes mk)) [
          | inr (e, failed) ↦
              answered sub arg s (err e) s (ground (arith, valid, model, found, no_rows, failed))
                (refl, inr (inr (inr (inl (mk, failed)))))
          | inl ((t, r), inserted) ↦
              let (_, _, rows, _) = E.insert-rows (λ r. r.id) s.nodes mk t r inserted in
              answered sub arg s (ok r) (record s { nodes = t })
                (ground (arith, valid, model, found, no_rows, inserted)) (sym test ∙ no_rows, rows)
        ]
      ]

  -- For every argument: `importNode` creates a node only if its subscription has no node of that
  -- link, and refuses one as a duplicate only if it has. Without a subscription there are no
  -- duplicates, so that the same link can be imported again and again: each other error is one of
  -- the tag, of the link, or of a statement that failed. An error leaves the database as it was.
  pub import_node-IsJudged :
      (sub : Option ℕ) (arg : ImportArgument) (s : Db E)
      → IsJudged sub arg s (import_node d sub arg s)
  unfolding import_node
  import_node-IsJudged sub arg s =
      let p : Node → Bool = λ r. text_eq r.link arg.link && sql_eq r.subscription_id sub in
      elim (Result-cases (validate_argument_tag arg)) [
        | inr (e, bad) ↦ answered sub arg s (err e) s (ground (arith, bad)) (refl, inl bad)
        | inl (u, valid) ↦ elim (Result-cases (new_node_model d arg.link arg.tag sub)) [
          | inr (e, bad) ↦
              answered sub arg s (err e) s (ground (arith, valid, bad)) (refl, inr (inl bad))
          | inl (m, model) ↦ elim (Result-cases (E.find s.nodes p)) [
            | inr (e, failed) ↦
                answered sub arg s (err e) s (ground (arith, valid, model, failed))
                  (refl, inr (inr (inl (p, failed))))
            | inl (l, found) ↦ checked sub arg s m l valid model found
          ]
        ]
      ]

  abbrev pub links_of : List ImportResult → List Text
  links_of = map (λ r. r.link)

  -- `Import` that returns no error reports on each argument, in order, and the table has grown by
  -- the nodes that it reports, in order; nothing else has changed in the table.
  pub import_nodes-ok :
      (abort : Bool) (sub : Option ℕ) (args : List ImportArgument) (rs : List ImportResult)
      (s s' : Db E)
      → import_nodes d abort sub args s ≡ (ok rs, s')
      → (E.rows s'.nodes ≡ E.rows s.nodes ++ added rs) × (links_of rs ≡ map (λ a. a.link) args)
  unfolding import_nodes
  import_nodes-ok abort sub [] rs s s' h =
      (ground (arith, append-nil (E.rows s.nodes)), ground arith)
  import_nodes-ok abort sub (arg ∷ args) rs s s' h =
      let s1 = (import_node d sub arg s).1 in
      let q = import_nodes d abort sub args s1 in
      elim (Result-cases q.0) [
        | inr (e, failed) ↦ absurd (ground arith)
        | inl (rest, went) ↦
            let (rows, links) = import_nodes-ok abort sub args rest s1 q.1 (ground arith) in
            elim (Result-cases (import_node d sub arg s).0) [
              | inl (m, added_node) ↦ (
                ground (
                  arith,
                  rows,
                  append_assoc (E.rows s.nodes) (m ∷ []) (added rest),
                  import_node-ok sub arg m s s1 (ground arith),
                ),
                ground (arith, links),
              )
              | inr (e, not_added) ↦ (
                ground (arith, rows, import_node-err sub arg e s s1 (ground arith)),
                ground (arith, links),
              )
            ]
      ]

  -- `Import` returns an error only where it was asked to, and never for a duplicate.
  pub import_nodes-err :
      (abort : Bool) (sub : Option ℕ) (args : List ImportArgument) (e : Error) (s s' : Db E)
      → import_nodes d abort sub args s ≡ (err e, s')
      → (abort ≡ true) × (is_duplicated e ≡ false)
  unfolding import_nodes
  import_nodes-err abort sub [] e s s' h = absurd (ground arith)
  import_nodes-err abort sub (arg ∷ args) e s s' h =
      let s1 = (import_node d sub arg s).1 in
      let q = import_nodes d abort sub args s1 in
      ground (arith, import_nodes-err abort sub args e s1 q.1)
