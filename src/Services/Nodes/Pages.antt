-- ===== src/Services/Nodes/Pages.antt =====
-- Pages of nodes: what `PageInfo` says of the page that the connection holds.
use mathlib.Core.Path.{subst}
use mathlib.Core.List.{append-nil}
use dae_wing.Base.{
  ℕ, zero, suc, ◌<◌, ◌≤◌, ◌≡◌, refl, sym, ap, ◌∙◌, inl, inr, Bool, true, not, ◌&&◌, Option, none,
  some, List, [], ◌∷◌, ◌++◌, Text, length, filter_by, All, ltb, ◌==◌, Bool-cases, Result, ok, arith,
}
use dae_wing.Services.Nodes.Connection.{
  ℤ, Connection, PageInfo, take, limited, decode_optional, base_query, behind, last_of,
  new_connection, page_from, page_info,
}
use dae_wing.Store.Engine.{Engine}
use dae_wing.Store.Laws.{bind-ok, lift-bind-ok, pure-ok, find-ok}
use dae_wing.Store.Models.{Node, Db}
use dae_wing.Store.Exec.{pure, nodes, find}

-- the order of the primary key
abbrev pub Ascending : List Node → Type 0
Ascending [] = Unit
Ascending (n ∷ l) = All (λ m. n.id < m.id) l × Ascending l

All-kept {ℓ} :
    (P : Node → Type ℓ) (p : Node → Bool) (l : List Node) → All P l → All P (filter_by p l)
All-kept P p [] h = tt
All-kept P p (n ∷ l) (hn, h) = elim (Bool-cases (p n)) [
  | inl passes ↦ rw passes (hn, All-kept P p l h)
  | inr fails ↦ rw fails (All-kept P p l h)
]

Ascending-filter_by : (p : Node → Bool) (l : List Node) → Ascending l → Ascending (filter_by p l)
Ascending-filter_by p [] h = tt
Ascending-filter_by p (n ∷ l) (hn, h) = elim (Bool-cases (p n)) [
  | inl passes ↦ rw passes (All-kept (λ m. n.id < m.id) p l hn, Ascending-filter_by p l h)
  | inr fails ↦ rw fails (Ascending-filter_by p l h)
]

-- a page with its first node, and what is left behind it
last_of-append :
    (n : Node) (l : List Node) (m : Node) (rest : List Node)
    → last_of n (l ++ m ∷ rest) ≡ last_of m rest
last_of-append n [] m rest = refl
last_of-append n (x ∷ l) m rest = last_of-append x l m rest

last_of-le : (n : Node) (l : List Node) → Ascending (n ∷ l) → n.id ≤ (last_of n l).id
last_of-le n [] h = omega arith
last_of-le n (x ∷ l) ((hx, hl), h) = omega (arith, last_of-le x l h)

last_of-lt :
    (n : Node) (l : List Node) (m : Node) (rest : List Node)
    → Ascending (n ∷ (l ++ m ∷ rest))
    → (last_of n l).id < (last_of m rest).id
last_of-lt n [] m rest ((hm, hn), h) = omega (arith, last_of-le m rest h)
last_of-lt n (x ∷ l) m rest (hn, h) = last_of-lt x l m rest h

behind-next :
    (after : Option ℕ) (b c : Node) → b.id < c.id → behind after b ≡ true → behind after c ≡ true
behind-next none b c lt h = refl
behind-next (some id) b c lt h = ground arith

-- The last row behind a cursor is the last row of all, where there is one behind it.
last_of-behind :
    (after : Option ℕ) (b : Node) (all : List Node) (n : Node) (l : List Node)
    → Ascending (b ∷ all)
    → filter_by (behind after) (b ∷ all) ≡ n ∷ l
    → last_of n l ≡ last_of b all
last_of-behind after b [] n l h e = ground arith
last_of-behind after b (c ∷ all) n l ((hc, hb), h) e = elim (Bool-cases (behind after b)) [
  | inr before ↦ last_of-behind after c all n l h (ground arith)
  | inl passes ↦
      let next = behind-next after b c hc passes in
      let same = last_of-behind after c all c (filter_by (behind after) all) h (ground arith) in
      ground arith
]

-- The comparison of `PageInfo` tells whether anything is behind the page.
has_next-rest :
    (after : Option ℕ) (b : Node) (all : List Node) (n : Node) (l rest : List Node)
    → Ascending (b ∷ all)
    → filter_by (behind after) (b ∷ all) ≡ n ∷ (l ++ rest)
    → ltb (last_of n l).id (last_of b all).id ≡ not (length rest == 0)
has_next-rest after b all n l [] h e =
    let same = last_of-behind after b all n (l ++ []) h e in ground (arith, same, append-nil l)
has_next-rest after b all n l (m ∷ rest) h e =
    let same = last_of-behind after b all n (l ++ m ∷ rest) h e in
    let lt =
      last_of-lt n l m rest (subst Ascending e (Ascending-filter_by (behind after) (b ∷ all) h)) in
    ground (arith, same, last_of-append n l m rest, lt)

filter_by-both :
    (p q : Node → Bool) (l : List Node)
    → filter_by (λ n. p n && q n) l ≡ filter_by q (filter_by p l)
filter_by-both p q [] = refl
filter_by-both p q (n ∷ l) = ground (arith, filter_by-both p q l)

take-rest : (k : ℕ) (l : List Node) → (rest : List Node) × (l ≡ take k l ++ rest)
unfolding take
take-rest k [] = ([], refl)
take-rest zero (n ∷ l) = (n ∷ l, refl)
take-rest (suc k) (n ∷ l) = let (rest, e) = take-rest k l in (rest, ap (◌∷◌ n) e)

limited-rest :
    (first : Option ℤ) (l : List Node) → (rest : List Node) × (l ≡ limited first l ++ rest)
limited-rest none l = ([], sym (append-nil l))
limited-rest (some (ℤ.pos k)) l = take-rest k l
limited-rest (some (ℤ.negsuc k)) l = ([], sym (append-nil l))

module _ ⦃E : Engine⦄ where
  page_from-has_next :
      (r : Connection) (n : Node) (l all rest : List Node) (after : Option ℕ) (p : PageInfo)
      → Ascending all
      → filter_by (behind after) all ≡ n ∷ (l ++ rest)
      → page_from r n l all ≡ ok p
      → p.has_next_page ≡ not (length rest == 0)
  page_from-has_next r n l [] rest after p asc split h = absurd (cc)
  page_from-has_next r n l (b ∷ all) rest after p asc split h =
      let made : p.has_next_page ≡ ltb (last_of n l).id (last_of b all).id = ground arith in
      made ∙ has_next-rest after b all n l rest asc split

  page_has_next :
      (base : Node → Bool) (models : List Node) (s s1 : Db E) (p : PageInfo) (after : Option ℕ)
      (rest : List Node)
      → Ascending (E.rows s.nodes)
      → filter_by (behind after) (filter_by base (E.rows s.nodes)) ≡ models ++ rest
      → page_info (record { base = base; models = models }) s ≡ (ok p, s1)
      → p.has_next_page ≡ (not (length models == 0) && not (length rest == 0))
  unfolding page_info
  page_has_next base [] s s1 p after rest asc split h = ground arith
  page_has_next base (n ∷ l) s s1 p after rest asc split h =
      let (all, s2, h1, k1) = bind-ok (find nodes base) _ s s1 p h in
      let (all_are, same) = find-ok nodes base s s2 all h1 in
      let answer : page_from (record { base = base; models = n ∷ l }) n l all ≡ ok p =
        ap (λ (x : Result PageInfo × Db E). x.0) k1 in
      let asc' : Ascending all =
        subst Ascending (sym all_are) (Ascending-filter_by base (E.rows s.nodes) asc) in
      let found =
        page_from-has_next (record { base = base; models = n ∷ l }) n l all rest after p asc'
          (ap (filter_by (behind after)) all_are ∙ split) answer in
      ground (arith, found)

  new_connection-models :
      (id_cursor sub_cursor : Option Text) (first : Option ℤ) (after_cursor : Option Text)
      (s s1 : Db E) (r : Connection)
      → new_connection id_cursor sub_cursor first after_cursor s ≡ (ok r, s1)
      → (s1 ≡ s)
        × (after : Option ℕ) × (decode_optional after_cursor ≡ ok after)
        × (r.models ≡ limited first (filter_by (behind after) (filter_by r.base (E.rows s.nodes))))
  unfolding new_connection
  new_connection-models id_cursor sub_cursor first after_cursor s s1 r h =
      let (id, e0, k0) = lift-bind-ok (decode_optional id_cursor) _ s s1 r h in
      let (sub, e1, k1) = lift-bind-ok (decode_optional sub_cursor) _ s s1 r k0 in
      let (after, e2, k2) = lift-bind-ok (decode_optional after_cursor) _ s s1 r k1 in
      let q : Node → Bool = λ n. base_query id sub n && behind after n in
      let (all, s2, h3, k3) =
        bind-ok (find nodes q)
          (λ m. pure (record { base = base_query id sub; models = limited first m })) s s1 r k2 in
      let (all_are, same) = find-ok nodes q s s2 all h3 in
      let both = filter_by-both (base_query id sub) (behind after) (E.rows s.nodes) in
      let (made, same') =
        pure-ok (record { base = base_query id sub; models = limited first all }) r s2 s1 k3 in
      (
        same' ∙ same,
        after,
        e2,
        ap (λ (x : Connection). x.models) made
            ∙ ap (limited first) (all_are ∙ both)
            ∙ ap
                (λ (x : Connection).
                  limited first (filter_by (behind after) (filter_by x.base (E.rows s.nodes))))
                (sym made),
      )

  -- Where the nodes stand in the order of their identifiers: the page of a connection is the
  -- beginning of the nodes that the query picks behind the cursor, and `PageInfo` announces a next
  -- page exactly if neither the page nor what is left behind it is empty.
  pub page_info-has_next :
      (id_cursor sub_cursor : Option Text) (first : Option ℤ) (after_cursor : Option Text)
      (s s1 s2 : Db E) (r : Connection) (p : PageInfo)
      → Ascending (E.rows s.nodes)
      → new_connection id_cursor sub_cursor first after_cursor s ≡ (ok r, s1)
      → page_info r s1 ≡ (ok p, s2)
      → (after : Option ℕ) × (decode_optional after_cursor ≡ ok after)
        × (rest : List Node) × (filter_by (behind after) (filter_by r.base (E.rows s.nodes))
            ≡ r.models ++ rest)
        × (p.has_next_page ≡ (not (length r.models == 0) && not (length rest == 0)))
  page_info-has_next id_cursor sub_cursor first after_cursor s s1 s2 r p asc made asked =
      let (same, after, decoded, models) =
        new_connection-models id_cursor sub_cursor first after_cursor s s1 r made in
      let picked = filter_by (behind after) (filter_by r.base (E.rows s.nodes)) in
      let (rest, split) = limited-rest first picked in
      let split' : picked ≡ r.models ++ rest = split ∙ ap (λ m. m ++ rest) (sym models) in
      let asked' = subst (λ x. page_info r x ≡ (ok p, s2)) same asked in
      (
        after,
        decoded,
        rest,
        split',
        page_has_next r.base r.models s s2 p after rest asc split' asked',
      )
