-- ===== src/Tests/Naming.antt =====
-- Naming and deduplication of the three nodes of the tests.
use mathlib.Core.List.{Nodup}
use dae_wing.Base.{ℕ, ◌≡◌, refl, Option, none, some, List, [], ◌∷◌, ◌++◌, map, Text, codes, text_eq}
use dae_wing.Base.Decimal.{decimal}
use dae_wing.Nodes.Names.{
  NodeRef, deduplicate_nodes, sort_tagged_first, insert_stable, uniquefy_nodes_name, name_nodes,
  name_node, name_at, put, pick_name, write_names, norm_node_name, norm_rune,
}
use dae_wing.Nodes.Unique.{Named, uniquefy_nodes_name-Named}
use dae_wing.Nodes.Dedup.{link_of, serves, deduplicate_nodes-serves}
use dae_wing.Nodes.Total.{uniquefy_nodes_name-total}
use dae_wing.Tests.Data.{slice_order, refs}

abbrev names_in : Option (List NodeRef) → List Text
names_in none = []
names_in (some l) = map (λ n. n.unique_name) l

-- The tagged node comes first, the next takes the first suffix, and the last has its subscription.
names_of_refs : names_in (uniquefy_nodes_name refs) ≡ codes "hk" ∷ codes "hk.0" ∷ codes "3.hk" ∷ []
unfolding uniquefy_nodes_name sort_tagged_first insert_stable name_nodes name_node name_at put
    pick_name write_names norm_node_name norm_rune decimal text_eq
names_of_refs = refl

uniquefy_nodes_name-Named_example :
    (out : List NodeRef) × (uniquefy_nodes_name refs ≡ some out) × Named refs out
uniquefy_nodes_name-Named_example = uniquefy_nodes_name-Named refs (refl, tt)

uniquefy_nodes_name-total_example :
    (out : List NodeRef) × (uniquefy_nodes_name (refs ++ refs) ≡ some out)
uniquefy_nodes_name-total_example = uniquefy_nodes_name-total (refs ++ refs)

deduplicate_nodes-serves_example :
    Nodup (map link_of (deduplicate_nodes slice_order (refs ++ refs)))
    × ((link : Text) (g : ℕ)
        → serves link g (deduplicate_nodes slice_order (refs ++ refs))
          ≡ serves link g (refs ++ refs))
deduplicate_nodes-serves_example = deduplicate_nodes-serves slice_order (refs ++ refs)
