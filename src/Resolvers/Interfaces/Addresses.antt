-- ===== src/Resolvers/Interfaces/Addresses.antt =====
-- Which addresses and routes the resolvers of the interfaces give.
use dae_wing.Base.{
  ◌≡◌, refl, ap, ◌∙◌, inl, inr, Bool, not, ◌&&◌, ◌||◌, List, [], ◌∷◌, ◌++◌, Text, text_eq, member,
  member-append, any, Bool-cases, ok, arith,
}
use dae_wing.Resolvers.Interfaces.{
  Link, Addr, Family, Netlink, is_up, usable, addresses, link_addrs, get_if_addrs,
}

usable-member :
    (x : Text) (l : List Addr)
    → member x (usable l) ≡ any (λ a. not a.passed_over && text_eq a.ip_text x) l
unfolding usable
usable-member x [] = refl
usable-member x (a ∷ l) = ground (arith, usable-member x l)

module _ (N : Netlink) where
  -- a link that is up has the address in the family
  abbrev pub is_address : Text → Family → Link → Bool
  is_address x f l =
      is_up l && any (λ a. not a.passed_over && text_eq a.ip_text x) (addresses N f l)

  link_addrs-member :
      (x : Text) (f : Family) (ls : List Link)
      → member x (link_addrs N f ls) ≡ any (is_address x f) ls
  unfolding link_addrs
  link_addrs-member x f [] = refl
  link_addrs-member x f (l ∷ ls) = elim (Bool-cases (is_up l)) [
    | inr down ↦ ground (arith, down, link_addrs-member x f ls)
    | inl working ↦
        let here = member-append x (usable (addresses N f l)) (link_addrs N f ls) in
        let one = usable-member x (addresses N f l) in
        ground (arith, working, here, one, link_addrs-member x f ls)
  ]

  -- If `GetIfAddrs` succeeds, it gives just the texts of the addresses, of either family, of the
  -- links that are up, without the unspecified ones and those of a multicast kind.
  pub get_if_addrs-member :
      (x : Text) (ls : List Link) (l : List Text)
      → N.link_list ≡ ok ls
      → get_if_addrs N ≡ ok l
      → member x l ≡ (any (is_address x Family.inet) ls || any (is_address x Family.inet6) ls)
  unfolding get_if_addrs
  get_if_addrs-member x ls l links h =
      let four = link_addrs N Family.inet ls in
      let six = link_addrs N Family.inet6 ls in
      let l_is : l ≡ N.deduplicate (four ++ six) = ground (arith, links) in
      ap (member x) l_is
      ∙ N.deduplicate-member x (four ++ six)
      ∙ member-append x four six
      ∙ ap (λ b. b || member x six) (link_addrs-member x Family.inet ls)
      ∙ ap (λ b. any (is_address x Family.inet) ls || b) (link_addrs-member x Family.inet6 ls)
