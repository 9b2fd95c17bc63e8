-- ===== src/Nodes/Names.antt =====
-- `node`, `matchedNodesForGroupSubscription`, `deduplicateNodes`, `normNodeName` and
-- `uniquefyNodesName` of graphql/service/config/mutation_utils.go.
use mathlib.Core.List.{Perm}
use dae_wing.Base.{
  ℕ, zero, suc, Bool, true, false, not, ◌&&◌, ◌||◌, Option, none, some, List, [], ◌∷◌, ◌++◌, Text,
  text_eq, member, length, filter_by, ◌==◌, if◌then◌else◌, Result, ok, err,
}
use dae_wing.Base.Decimal.{decimal}
use dae_wing.Store.Models.{Node}

-- Go iterates over a map in an order of its own choice.
pub record MapOrder : Type 1 where
  pub order : {A : Type 0} → List A → List A
  pub order-perm : {A : Type 0} (l : List A) → Perm (order l) l

-- Go's `regexp`: a pattern compiles to a matcher, or does not.
pub record Regexp : Type 0 where
  pub compile : Text → Result (Text → Bool)

-- A `*db.Group` is the index of the group in the slice that `Run` has read.
pub record NodeRef : Type 0 where
  pub db_node : Node
  pub groups : List ℕ
  pub unique_name : Text

unfoldable pub matched_nodes : Regexp → Option Text → List Node → Result (List Node)
matched_nodes re none nodes = ok nodes
matched_nodes re (some filter) nodes =
    if text_eq filter [] then ok nodes else elim (re.compile filter) [
      | ok matches ↦ ok (filter_by (λ n. matches n.name) nodes)
      | err e ↦ err e
    ]

-- one round over `set`: a link that is there gets the groups of the new node
unfoldable pub merge : NodeRef → List NodeRef → List NodeRef
merge n [] = n ∷ []
merge n (o ∷ set) =
    if text_eq o.db_node.link n.db_node.link
    then record o { groups = o.groups ++ n.groups } ∷ set
    else o ∷ merge n set

unfoldable pub merge_all : List NodeRef → List NodeRef → List NodeRef
merge_all [] set = set
merge_all (n ∷ nodes) set = merge_all nodes (merge n set)

unfoldable pub deduplicate_nodes : MapOrder → List NodeRef → List NodeRef
deduplicate_nodes m nodes = m.order (merge_all nodes [])

unfoldable pub norm_rune : ℕ → ℕ
norm_rune r = if r == b':' || r == b'\'' then b'_' else r

unfoldable pub norm_node_name : Text → Text
norm_node_name [] = []
norm_node_name (r ∷ name) = norm_rune r ∷ norm_node_name name

abbrev pub has_tag : NodeRef → Bool
has_tag n = elim n.db_node.tag [ some _ ↦ true | none ↦ false ]

-- `sort.SliceStable`, an insertion sort by the comparison of the source
unfoldable pub insert_stable : NodeRef → List NodeRef → List NodeRef
insert_stable n [] = n ∷ []
insert_stable n (o ∷ l) = if has_tag o && not (has_tag n) then o ∷ insert_stable n l else n ∷ o ∷ l

unfoldable pub sort_tagged_first : List NodeRef → List NodeRef
sort_tagged_first [] = []
sort_tagged_first (n ∷ l) = insert_stable n (sort_tagged_first l)

abbrev pub base_name : Node → Text
base_name n = elim n.subscription_id [
  | some id ↦ decimal id ++ b'.' ∷ norm_node_name n.name
  | none ↦ norm_node_name n.name
]

-- The inner loop, over `wantedName` and `j`; `none` means that the fuel ran out.
unfoldable pub pick_name : ℕ → List Text → Text → Text → ℕ → Option Text
pick_name zero names base wanted j = none
pick_name (suc fuel) names base wanted j =
    let rest = pick_name fuel names base (base ++ b'.' ∷ decimal j) (suc j) in
    if member wanted names then rest else some wanted

-- `nameToNodes`, from names to positions in the sorted slice
abbrev pub NameMap : Type 0
NameMap = List (Text × ℕ)

abbrev pub keys : NameMap → List Text
keys [] = []
keys ((k, _) ∷ m) = k ∷ keys m

unfoldable pub put : Text → ℕ → NameMap → NameMap
put k i [] = (k, i) ∷ []
put k i ((j, v) ∷ m) = if text_eq j k then (k, i) ∷ m else (j, v) ∷ put k i m

unfoldable pub name_node : Node → ℕ → NameMap → Option NameMap
name_node n i m = elim n.tag [
  | some tag ↦ some (put tag i m)
  | none ↦ elim (pick_name (suc (length (keys m))) (keys m) (base_name n) (base_name n) 0) [
    | some name ↦ some (put name i m)
    | none ↦ none
  ]
]

-- the loop over the sorted slice
unfoldable pub name_nodes : List NodeRef → ℕ → NameMap → Option NameMap
name_nodes [] i m = some m
name_nodes (n ∷ l) i m = elim (name_node n.db_node i m) [
  | some m' ↦ name_nodes l (suc i) m'
  | none ↦ none
]

-- The last loop writes each name into its node. A position is the value of one entry at most, so
-- the order of the map does not matter.
unfoldable pub name_at : NameMap → ℕ → Text → Text
name_at [] i old = old
name_at ((k, v) ∷ m) i old = if v == i then k else name_at m i old

unfoldable pub write_names : NameMap → List NodeRef → ℕ → List NodeRef
write_names m [] i = []
write_names m (n ∷ l) i =
    record n { unique_name = name_at m i n.unique_name } ∷ write_names m l (suc i)

unfoldable pub uniquefy_nodes_name : List NodeRef → Option (List NodeRef)
uniquefy_nodes_name nodes =
    let sorted = sort_tagged_first nodes in
    elim (name_nodes sorted 0 []) [ some m ↦ some (write_names m sorted 0) | none ↦ none ]
