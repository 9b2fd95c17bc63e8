-- ===== src/Running/Groups.antt =====
-- The parts of `Run` (graphql/service/config/mutation_utils.go) that compute with what it has read:
-- the groups that are missing, the nodes of the groups, and the sections `group` and `node`.
use dae_wing.Base.{
  ℕ, zero, suc, ◌+◌, ◌/◌, ◌%◌, ◌^◌, Bool, true, false, not, ◌&&◌, ◌||◌, List, [], ◌∷◌, ◌++◌, map,
  Text, codes, text_eq, member, length, elem, filter_by, ltb, ◌==◌, if◌then◌else◌, Result, ok, err,
  Error, ◌>>=◌,
}
use dae_wing.Dae.{DaeGroup, Param, Policy, join}
use dae_wing.Nodes.Names.{MapOrder, Regexp, NodeRef, matched_nodes}
use dae_wing.Store.Models.{Node, Group, GroupSubscription, GroupPolicyParam}

-- A group with what `Preload` reads beside it: the bindings come with the nodes of their
-- subscription.
pub record LoadedGroup : Type 0 where
  pub group : Group
  pub params : List GroupPolicyParam
  pub bindings : List (GroupSubscription × List Node)

abbrev pub names_of : List LoadedGroup → List Text
names_of = map (λ g. g.group.name)

abbrev pub is_preset : Text → Bool
is_preset name = member name (codes "direct" ∷ codes "block" ∷ codes "must_rules" ∷ [])

-- `notFound`: the outbounds that are neither the name of a group nor preset
unfoldable pub not_found_names : MapOrder → List Text → List LoadedGroup → List Text
not_found_names m outbounds groups =
    m.order (filter_by (λ o. not (member o (names_of groups)) && not (is_preset o)) outbounds)

abbrev pub node_ref : ℕ → Node → NodeRef
node_ref i n = record { db_node = n; groups = i ∷ []; unique_name = [] }

-- the nodes that the bindings of one group bring
unfoldable pub bound_nodes :
    Regexp → ℕ → List (GroupSubscription × List Node) → Result (List NodeRef)
bound_nodes re i [] = ok []
bound_nodes re i ((binding, nodes) ∷ bindings) =
    elim (matched_nodes re binding.name_filter_regex nodes) [
      | err _ ↦ err Error.bad_regex
      | ok matched ↦ elim (bound_nodes re i bindings) [
        | err e ↦ err e
        | ok rest ↦ ok (map (node_ref i) matched ++ rest)
      ]
    ]

-- `PolicyParams` to config_parser.Param: GroupPolicyParam.Marshal
abbrev pub marshal_param : GroupPolicyParam → Param
marshal_param p = record { key = p.key; val = p.value }

abbrev pub policy_of : LoadedGroup → Policy
policy_of g = elim g.params [
  | [] ↦ Policy.plain g.group.policy
  | p ∷ ps ↦ Policy.function g.group.policy false (map marshal_param (p ∷ ps))
]

-- `mGroupNode[g]`: the nodes that stand in the group
abbrev pub nodes_in : ℕ → List NodeRef → List NodeRef
nodes_in i = filter_by (λ n. elem i n.groups)

abbrev name_param : NodeRef → Param
name_param n = record { key = []; val = n.unique_name }

-- one round of the loop over `mGroupNode`
unfoldable pub group_section : MapOrder → List NodeRef → ℕ → LoadedGroup → Result DaeGroup
group_section m nodes i g =
    let inside = m.order (nodes_in i nodes) in
    if length inside == 0
    then err (Error.empty_group g.group.name)
    else if text_eq g.group.policy (codes "fixed") && ltb 1 (length inside)
    then err Error.fixed_with_many_nodes
    else ok
        (record { name = g.group.name; filter_names = map name_param inside; policy = policy_of g })

-- the position of each group in the slice
unfoldable pub positions : ℕ → List LoadedGroup → List (ℕ × LoadedGroup)
positions i [] = []
positions i (g ∷ groups) = (i, g) ∷ positions (suc i) groups

unfoldable pub group_sections :
    MapOrder → List NodeRef → List (ℕ × LoadedGroup) → Result (List DaeGroup)
group_sections m nodes [] = ok []
group_sections m nodes ((i, g) ∷ groups) = do
  section ← group_section m nodes i g
  rest ← group_sections m nodes groups
  ok (section ∷ rest)

-- `fmt.Sprintf("%v:%v", node.uniqueName, node.dbNode.Link)`
unfoldable pub node_line : NodeRef → Text
node_line n = n.unique_name ++ b':' ∷ n.db_node.link

-- `fmt.Sprintf("%x", id)`
abbrev hex_digit : ℕ → ℕ
hex_digit d = if ltb d 10 then b'0' + d else b'W' + d

unfoldable pub hex_digits : ℕ → ℕ → Text → Text
hex_digits zero n out = out
hex_digits (suc fuel) n out =
    let out' = hex_digit (n % 16) ∷ out in
    let rest = hex_digits fuel (n / 16) out' in if n / 16 == 0 then out' else rest

unfoldable pub hex : ℕ → Text
hex n = hex_digits (suc n) n []

-- Go's `<` on strings
unfoldable pub text_lt : Text → Text → Bool
text_lt s [] = false
text_lt [] (b ∷ t) = true
text_lt (a ∷ s) (b ∷ t) = ltb a b || (a == b && text_lt s t)

unfoldable pub insert_text : Text → List Text → List Text
insert_text s [] = s ∷ []
insert_text s (t ∷ ts) = if text_lt t s then t ∷ insert_text s ts else s ∷ t ∷ ts

-- `sort.Slice` by `<`: equal strings cannot be told apart
unfoldable pub sort_texts : List Text → List Text
sort_texts [] = []
sort_texts (s ∷ ts) = insert_text s (sort_texts ts)

-- `gids`, sorted and joined
unfoldable pub group_ids_text : List Group → Text
group_ids_text groups = join (sort_texts (map (λ g. hex g.id) groups)) (codes ",")

-- `gvs`, a `uint`
unfoldable pub version_sum : List Group → ℕ
version_sum [] = 0
version_sum (g ∷ groups) = (g.version + version_sum groups) % 2 ^ 64
