-- ===== src/Nodes/Sorting.antt =====
-- The stable sort of `uniquefyNodesName`.
use dae_wing.Base.{
  ◌≡◌, refl, true, false, not, none, some, List, [], ◌∷◌, ◌++◌, Text, filter_by, All, arith,
}
use dae_wing.Base.Lists.{All-filter_by}
use dae_wing.Nodes.Names.{NodeRef, has_tag, insert_stable, sort_tagged_first}

abbrev pub tagged : List NodeRef → List NodeRef
tagged = filter_by has_tag

abbrev pub untagged : List NodeRef → List NodeRef
untagged = filter_by (λ n. not (has_tag n))

-- the tags of the tagged nodes, in order
abbrev pub tags : List NodeRef → List Text
tags [] = []
tags (n ∷ l) = elim n.db_node.tag [ some t ↦ t ∷ tags l | none ↦ tags l ]

insert_stable-tagged :
    (n : NodeRef) (l : List NodeRef) → has_tag n ≡ true → insert_stable n l ≡ n ∷ l
unfolding insert_stable
insert_stable-tagged n [] h = refl
insert_stable-tagged n (o ∷ l) h = ground arith

insert_stable-untagged :
    (n : NodeRef) (xs ys : List NodeRef)
    → has_tag n ≡ false
    → All (λ o. has_tag o ≡ true) xs
    → All (λ o. not (has_tag o) ≡ true) ys
    → insert_stable n (xs ++ ys) ≡ xs ++ n ∷ ys
unfolding insert_stable
insert_stable-untagged n [] [] h hx hy = refl
insert_stable-untagged n [] (o ∷ ys) h hx hy = ground arith
insert_stable-untagged n (o ∷ xs) ys h (ho, hx) hy =
    ground (arith, insert_stable-untagged n xs ys h hx hy)

-- The sort puts the tagged nodes first and keeps the order of either kind.
pub sort_tagged_first-partition : (l : List NodeRef) → sort_tagged_first l ≡ tagged l ++ untagged l
unfolding sort_tagged_first
sort_tagged_first-partition [] = refl
sort_tagged_first-partition (n ∷ l) = ground (
  arith,
  sort_tagged_first-partition l,
  insert_stable-tagged n (tagged l ++ untagged l),
  insert_stable-untagged n (tagged l) (untagged l),
  All-filter_by has_tag l,
  All-filter_by (λ n. not (has_tag n)) l,
)
