-- ===== src/Nodes/Total.antt =====
-- Naming ends for all lists of nodes, with repeated tags too.
use dae_wing.Base.{ℕ, suc, ◌≡◌, Option, none, some, List, [], ◌∷◌, Text, length, arith}
use mathlib.Core.Path.{refl}
use dae_wing.Store.Models.{Node}
use dae_wing.Nodes.Names.{
  NodeRef, sort_tagged_first, base_name, NameMap, keys, put, name_node, name_nodes, write_names,
  uniquefy_nodes_name,
}
use dae_wing.Nodes.Search.{pick_name-total}

name_node-by_tag :
    (n : Node) (i : ℕ) (m : NameMap) (t : Option Text)
    → n.tag ≡ t
    → (m' : NameMap) × (name_node n i m ≡ some m')
unfolding name_node
name_node-by_tag n i m (some t) e = (put t i m, ground arith)
name_node-by_tag n i m none e =
    let (k, found) =
      pick_name-total (base_name n) (suc (length (keys m))) (keys m) 0 (omega arith) in
    (put k i m, ground (arith, found))

name_node-total : (n : Node) (i : ℕ) (m : NameMap) → (m' : NameMap) × (name_node n i m ≡ some m')
name_node-total n i m = name_node-by_tag n i m n.tag refl

name_nodes-total :
    (l : List NodeRef) (i : ℕ) (m : NameMap) → (m' : NameMap) × (name_nodes l i m ≡ some m')
unfolding name_nodes
name_nodes-total [] i m = (m, refl)
name_nodes-total (n ∷ l) i m =
    let (m1, e1) = name_node-total n.db_node i m in
    let (m2, e2) = name_nodes-total l (suc i) m1 in (m2, ground (arith, e1, e2))

-- The search for free names never goes on for ever, whatever the nodes are.
pub uniquefy_nodes_name-total :
    (nodes : List NodeRef) → (out : List NodeRef) × (uniquefy_nodes_name nodes ≡ some out)
unfolding uniquefy_nodes_name
uniquefy_nodes_name-total nodes =
    let (m, e) = name_nodes-total (sort_tagged_first nodes) 0 [] in
    (write_names m (sort_tagged_first nodes) 0, ground (arith, e))
