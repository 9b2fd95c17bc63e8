-- ===== src/Nodes/Unique.antt =====
-- The names that `uniquefyNodesName` gives out.
use mathlib.Core.List.{append_assoc, append-nil}
use mathlib.Core.Path.{subst}
use dae_wing.Base.{
  ℕ, suc, ◌≡◌, refl, sym, ap, ◌∙◌, true, false, not, none, some, List, [], ◌∷◌, ◌++◌, map, Text,
  member, length, All, arith,
}
use dae_wing.Base.Lists.{length-append, All-filter_by}
use dae_wing.Store.Models.{Node}
use dae_wing.Nodes.Names.{
  NodeRef, has_tag, base_name, NameMap, name_node, name_nodes, write_names, uniquefy_nodes_name,
}
use dae_wing.Nodes.Search.{pick_name-free, pick_name-total}
use dae_wing.Nodes.Sorting.{tagged, untagged, tags, sort_tagged_first-partition}
use dae_wing.Nodes.Entries.{
  Distinct, enumerate, keys-enumerate, put-enumerate, name_at-enumerate, Distinct-snoc,
  Distinct-middle,
}

-- A tagged node is entered under its tag.
name_node-tagged :
    (n : Node) (t : Text) (names : List Text)
    → n.tag ≡ some t
    → member t names ≡ false
    → name_node n (length names) (enumerate 0 names) ≡ some (enumerate 0 (names ++ t ∷ []))
unfolding name_node
name_node-tagged n t names h free = ground (arith, put-enumerate t 0 names free)

-- A node without a tag is entered under a name that was free.
name_node-untagged :
    (n : Node) (names : List Text)
    → n.tag ≡ none
    → (k : Text) × (name_node n (length names) (enumerate 0 names)
        ≡ some (enumerate 0 (names ++ k ∷ [])))
      × (member k names ≡ false)
unfolding name_node
name_node-untagged n names h =
    let (k, found) = pick_name-total (base_name n) (suc (length names)) names 0 (omega arith) in
    let free = pick_name-free (suc (length names)) names (base_name n) (base_name n) 0 k found in
    (k, ground (arith, keys-enumerate 0 names, put-enumerate k 0 names free, found), free)

tag_of : (n : NodeRef) → has_tag n ≡ true → (t : Text) × (n.db_node.tag ≡ some t)
tag_of n h = ground arith

length-snoc : (names : List Text) (k : Text) → length (names ++ k ∷ []) ≡ suc (length names)
length-snoc names k = omega (arith, length-append names (k ∷ []))

snoc-append :
    (names : List Text) (k : Text) (rest : List Text)
    → (names ++ k ∷ []) ++ rest ≡ names ++ k ∷ rest
snoc-append names k rest = append_assoc names (k ∷ []) rest

name_nodes-tagged :
    (l rest : List NodeRef) (names : List Text)
    → All (λ n. has_tag n ≡ true) l
    → Distinct (names ++ tags l)
    → name_nodes (l ++ rest) (length names) (enumerate 0 names)
      ≡ name_nodes rest (length (names ++ tags l)) (enumerate 0 (names ++ tags l))
unfolding name_nodes
name_nodes-tagged [] rest names h d = rw append-nil
name_nodes-tagged (n ∷ l) rest names (hn, hl) d =
    let (t, e) = tag_of n hn in
    let d' : Distinct (names ++ t ∷ tags l) = ground arith in
    let free = Distinct-middle names t (tags l) d' in
    ground (
      arith,
      e,
      name_node-tagged n.db_node t names e free,
      name_nodes-tagged l rest (names ++ t ∷ []) hl (rw snoc-append d'),
      length-snoc names t,
      snoc-append names t (tags l),
    )

name_nodes-untagged :
    (l : List NodeRef) (names : List Text)
    → All (λ n. not (has_tag n) ≡ true) l
    → Distinct names
    → (ks : List Text) × (name_nodes l (length names) (enumerate 0 names)
        ≡ some (enumerate 0 (names ++ ks)))
      × (length ks ≡ length l)
      × Distinct (names ++ ks)
unfolding name_nodes
name_nodes-untagged [] names h d = ([], rw append-nil, refl, rw append-nil d)
name_nodes-untagged (n ∷ l) names (hn, hl) d =
    let (k, entered, free) = name_node-untagged n.db_node names (ground arith) in
    let (ks, named, len, distinct) =
      name_nodes-untagged l (names ++ k ∷ []) hl (Distinct-snoc names k d free) in
    (
      k ∷ ks,
      ground (arith, entered, named, length-snoc names k, snoc-append names k ks),
      omega arith,
      subst Distinct (snoc-append names k ks) distinct,
    )

write_names-enumerate :
    (l : List NodeRef) (names ks : List Text)
    → length ks ≡ length l
    → map (λ n. n.unique_name) (write_names (enumerate 0 (names ++ ks)) l (length names)) ≡ ks
unfolding write_names
write_names-enumerate [] names [] h = refl
write_names-enumerate [] names (k ∷ ks) h = absurd (omega arith)
write_names-enumerate (n ∷ l) names [] h = absurd (omega arith)
write_names-enumerate (n ∷ l) names (k ∷ ks) h = ground (
  arith,
  name_at-enumerate 0 names k ks n.unique_name,
  write_names-enumerate l (names ++ k ∷ []) ks,
  length-snoc names k,
  snoc-append names k ks,
)

write_names-db_node :
    (m : NameMap) (l : List NodeRef) (i : ℕ)
    → map (λ n. n.db_node) (write_names m l i) ≡ map (λ n. n.db_node) l
unfolding write_names
write_names-db_node m [] i = refl
write_names-db_node m (n ∷ l) i = rw (write_names-db_node m l (suc i))

write_names-groups :
    (m : NameMap) (l : List NodeRef) (i : ℕ)
    → map (λ n. n.groups) (write_names m l i) ≡ map (λ n. n.groups) l
unfolding write_names
write_names-groups m [] i = refl
write_names-groups m (n ∷ l) i = rw (write_names-groups m l (suc i))

tags-tagged : (l : List NodeRef) → tags (tagged l) ≡ tags l
tags-tagged [] = refl
tags-tagged (n ∷ l) = ground (arith, tags-tagged l)

length-tags : (l : List NodeRef) → length (tags (tagged l)) ≡ length (tagged l)
length-tags [] = refl
length-tags (n ∷ l) = ground (arith, length-tags l)

-- what the naming leaves of the nodes
pub record Named (nodes out : List NodeRef) : Type 0 where
  pub names : List Text
  pub same_nodes : map (λ n. n.db_node) out ≡ map (λ n. n.db_node) (tagged nodes ++ untagged nodes)
  pub same_groups : map (λ n. n.groups) out ≡ map (λ n. n.groups) (tagged nodes ++ untagged nodes)
  pub unique_names : map (λ n. n.unique_name) out ≡ tags nodes ++ names
  pub distinct : Distinct (map (λ n. n.unique_name) out)

named_names :
    (l : List NodeRef)
    → Distinct (tags l)
    → (ks : List Text) × (name_nodes (tagged l ++ untagged l) 0 []
        ≡ some (enumerate 0 (tags l ++ ks)))
      × (length ks ≡ length (untagged l))
      × Distinct (tags l ++ ks)
unfolding enumerate
named_names l d =
    let (ks, named, len, distinct) =
      name_nodes-untagged (untagged l) (tags l) (All-filter_by (λ n. not (has_tag n)) l) d in
    let first =
      name_nodes-tagged (tagged l) (untagged l) [] (All-filter_by has_tag l) (rw tags-tagged d) in
    (ks, first ∙ rw tags-tagged named, len, distinct)

-- If no two nodes have one tag, then naming ends with a result, in which the tagged nodes come
-- first and have their tags for names, the others follow in their order, no node is lost, each has
-- its row of the database and its groups as before, and no two names are equal.
pub uniquefy_nodes_name-Named :
    (nodes : List NodeRef)
    → Distinct (tags nodes)
    → (out : List NodeRef) × (uniquefy_nodes_name nodes ≡ some out) × Named nodes out
unfolding uniquefy_nodes_name
uniquefy_nodes_name-Named nodes d =
    let (ks, named, len, distinct) = named_names nodes d in
    let m = enumerate 0 (tags nodes ++ ks) in
    let sorted = tagged nodes ++ untagged nodes in
    let written : map (λ n. n.unique_name) (write_names m sorted 0) ≡ tags nodes ++ ks =
      write_names-enumerate sorted [] (tags nodes ++ ks) (
        omega (
          arith,
          length-append (tags nodes) ks,
          length-append (tagged nodes) (untagged nodes),
          ap length (tags-tagged nodes),
          length-tags nodes,
          len,
        )) in
    (
      write_names m sorted 0,
      ground (arith, sort_tagged_first-partition nodes, named),
      record {
        names = ks;
        same_nodes = write_names-db_node m sorted 0;
        same_groups = write_names-groups m sorted 0;
        unique_names = written;
        distinct = subst Distinct (sym written) distinct;
      },
    )
