-- ===== src/Nodes/Dedup.antt =====
-- What `deduplicateNodes` keeps: one node for each link, with the groups of all its copies.
use mathlib.Core.List.{
  Perm, Permᴰ, Nodup, Nodup-cons, Nodup-nil, Mem, not-mem-nil, eq-or-mem_of_mem-cons,
}
use mathlib.Core.List.Perm
use mathlib.Core.Logic.Or
use mathlib.Core.Logic.{∥∥₁_elim}
use mathlib.Core.Bool.{Bool-set}
use dae_wing.Base.{
  ℕ, ◌≡◌, refl, ◌∙◌, Bool, true, ◌&&◌, ◌||◌, List, [], ◌∷◌, ◌++◌, map, Text, text_eq, text_eq-true,
  text_eq_refl, member, any, ◌==◌, arith,
}
use dae_wing.Base.Texts.{text_eq-sym}
use dae_wing.Nodes.Names.{MapOrder, NodeRef, merge, merge_all, deduplicate_nodes}
use dae_wing.Nodes.Entries.{Distinct}

abbrev pub link_of : NodeRef → Text
link_of n = n.db_node.link

-- some node of the list has the link and stands in the group
abbrev pub serves : Text → ℕ → List NodeRef → Bool
serves link g = any (λ n. text_eq (link_of n) link && any (λ h. h == g) n.groups)

Mem-member : (s : Text) (ts : List Text) → Mem s ts → member s ts ≡ true
Mem-member s [] m = absurd (not-mem-nil m)
Mem-member s (t ∷ ts) m =
    Or.elim (Bool-set _ _) (eq-or-mem_of_mem-cons m) (λ e. ground (arith, text_eq_refl s))
      (λ m'. ground (arith, Mem-member s ts m'))

Distinct-Nodup : (ts : List Text) → Distinct ts → Nodup ts
Distinct-Nodup [] d = Nodup-nil
Distinct-Nodup (t ∷ ts) (h, d) =
    Nodup-cons.1 ((λ m. absurd (cc (Mem-member t ts m))), Distinct-Nodup ts d)

pub any-append {ℓ} :
    {A : Type ℓ} (p : A → Bool) (xs ys : List A) → any p (xs ++ ys) ≡ (any p xs || any p ys)
any-append p [] ys = refl
any-append p (x ∷ xs) ys = ground (arith, any-append p xs ys)

any-permᴰ : {A : Type 0} (p : A → Bool) {xs ys : List A} → Permᴰ xs ys → any p xs ≡ any p ys
any-permᴰ p Permᴰ.nil = refl
any-permᴰ p (Permᴰ.cons {a} {b} {l₁} {l₂} e q) = ground (arith, e, any-permᴰ p q)
any-permᴰ p (Permᴰ.swap {a} {b} {a'} {b'} {l} e f) = ground (arith, e, f)
any-permᴰ p (Permᴰ.trans q r) = any-permᴰ p q ∙ any-permᴰ p r

pub any-perm : {A : Type 0} (p : A → Bool) {xs ys : List A} → Perm xs ys → any p xs ≡ any p ys
any-perm p q = ∥∥₁_elim q (Bool-set _ _) (any-permᴰ p)

member-merge :
    (s : Text) (n : NodeRef) (set : List NodeRef)
    → member s (map link_of (merge n set)) ≡ (text_eq (link_of n) s || member s (map link_of set))
unfolding merge
member-merge s n [] = ground arith
member-merge s n (o ∷ set) =
    ground (arith, member-merge s n set, text_eq-true (link_of o) (link_of n))

Distinct-merge :
    (n : NodeRef) (set : List NodeRef)
    → Distinct (map link_of set)
    → Distinct (map link_of (merge n set))
unfolding merge
Distinct-merge n [] d = (refl, tt)
Distinct-merge n (o ∷ set) (h, d) = ground (
  arith,
  Distinct-merge n set d,
  member-merge (link_of o) n set,
  text_eq-sym (link_of o) (link_of n),
)

Distinct-merge_all :
    (nodes set : List NodeRef)
    → Distinct (map link_of set)
    → Distinct (map link_of (merge_all nodes set))
unfolding merge_all
Distinct-merge_all [] set d = d
Distinct-merge_all (n ∷ nodes) set d =
    Distinct-merge_all nodes (merge n set) (Distinct-merge n set d)

serves-merge :
    (link : Text) (g : ℕ) (n : NodeRef) (set : List NodeRef)
    → serves link g (merge n set) ≡ (serves link g (n ∷ []) || serves link g set)
unfolding merge
serves-merge link g n [] = ground arith
serves-merge link g n (o ∷ set) = ground (
  arith,
  serves-merge link g n set,
  any-append (λ h. h == g) o.groups n.groups,
  text_eq-true (link_of o) (link_of n),
)

serves-merge_all :
    (link : Text) (g : ℕ) (nodes set : List NodeRef)
    → serves link g (merge_all nodes set) ≡ (serves link g nodes || serves link g set)
unfolding merge_all
serves-merge_all link g [] set = refl
serves-merge_all link g (n ∷ nodes) set =
    ground (arith, serves-merge_all link g nodes (merge n set), serves-merge link g n set)

-- Whatever the order of the map, the result has no two nodes of one link, and a link is in a group
-- exactly if some copy of it was.
pub deduplicate_nodes-serves :
    (m : MapOrder) (nodes : List NodeRef)
    → Nodup (map link_of (deduplicate_nodes m nodes))
      × ((link : Text) (g : ℕ) → serves link g (deduplicate_nodes m nodes) ≡ serves link g nodes)
unfolding deduplicate_nodes
deduplicate_nodes-serves m nodes =
    let p = m.order-perm (merge_all nodes []) in
    (
      Perm.nodup (Perm.symm (Perm.map link_of p))
          (Distinct-Nodup (map link_of (merge_all nodes [])) (Distinct-merge_all nodes [] tt)),
      λ link g.
          any-perm (λ n. text_eq (link_of n) link && any (λ h. h == g) n.groups) p
          ∙ ground (arith, serves-merge_all link g nodes []),
    )
