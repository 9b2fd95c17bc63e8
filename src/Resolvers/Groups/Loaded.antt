-- ===== src/Resolvers/Groups/Loaded.antt =====
-- The bindings of one group, read alone or with those of other groups.
use dae_wing.Base.{
  ℕ, suc, zero, ◌≡◌, refl, ap, sym, ◌∙◌, Bool, true, ◌||◌, Option, none, some, List, [], ◌∷◌, map,
  get_elem?, elem, any, All, filter_by, ◌==◌, ==-true, ==-refl, arith,
}
use dae_wing.Services.Nodes.{sql_eq}
use dae_wing.Store.Models.{Node, Subscription, GroupSubscription}
use dae_wing.Base.Lists.{filter_by-All}
use dae_wing.Resolvers.Groups.{with_nodes}

-- a wider filter before a narrower one
pub filter_by-narrow :
    {A : Type 0} (q p : A → Bool) (l : List A)
    → ((a : A) → q a ≡ true → p a ≡ true)
    → filter_by q (filter_by p l) ≡ filter_by q l
filter_by-narrow q p [] h = refl
filter_by-narrow q p (a ∷ l) h = ground (arith, filter_by-narrow q p l h, h a)

filter_by-agree :
    {A : Type 0} (q p p' : A → Bool) (l : List A)
    → ((a : A) → q a ≡ true → p a ≡ p' a)
    → filter_by q (filter_by p l) ≡ filter_by q (filter_by p' l)
filter_by-agree q p p' [] h = refl
filter_by-agree q p p' (a ∷ l) h = ground (arith, filter_by-agree q p p' l h, h a)

any-narrow :
    {A : Type 0} (q p : A → Bool) (l : List A)
    → ((a : A) → q a ≡ true → p a ≡ true)
    → any q (filter_by p l) ≡ any q l
any-narrow q p [] h = refl
any-narrow q p (a ∷ l) h = ground (arith, any-narrow q p l h, h a)

map-agree : {A B : Type 0} (f g : A → B) (l : List A) → All (λ a. f a ≡ g a) l → map f l ≡ map g l
map-agree f g [] h = refl
map-agree f g (a ∷ l) (e, h) = ground (arith, map-agree f g l h)

pub get_elem?-map :
    {A B : Type 0} (f : A → B) (l : List A) (i : ℕ) (b : B)
    → get_elem? (map f l) i ≡ some b
    → (a : A) × (get_elem? l i ≡ some a) × (f a ≡ b)
get_elem?-map f [] i b h = absurd (ground arith)
get_elem?-map f (a ∷ l) zero b h = (a, refl, ground arith)
get_elem?-map f (a ∷ l) (suc i) b h = get_elem?-map f l i b h

pub elem-get_elem? :
    {A : Type 0} (key : A → ℕ) (l : List A) (i : ℕ) (a : A)
    → get_elem? l i ≡ some a
    → elem (key a) (map key l) ≡ true
elem-get_elem? key [] i a h = absurd (ground arith)
elem-get_elem? key (x ∷ l) zero a h =
    let same : x ≡ a = ground arith in
    ap (λ y. (key y == key a) || elem (key a) (map key l)) same ∙ ground (arith, ==-refl (key a))
elem-get_elem? key (x ∷ l) (suc i) a h = ground (arith, elem-get_elem? key l i a h)

-- a subscription of one of the bindings
abbrev Has : List GroupSubscription → GroupSubscription → Type 0
Has bs b = any (λ c. c.subscription_id == b.subscription_id) bs ≡ true

Has-later :
    (c : GroupSubscription) (bs l : List GroupSubscription) → All (Has bs) l → All (Has (c ∷ bs)) l
Has-later c bs [] h = tt
Has-later c bs (b ∷ l) (hb, h) = (ground (arith, hb), Has-later c bs l h)

Has-All : (bs : List GroupSubscription) → All (Has bs) bs
Has-All [] = tt
Has-All (b ∷ bs) = (ground (arith, ==-refl b.subscription_id), Has-later b bs bs (Has-All bs))

abbrev of_one : GroupSubscription → Node → Bool
of_one b n = sql_eq n.subscription_id (some b.subscription_id)

abbrev pub of_any : List Subscription → Node → Bool
of_any subs n = any (λ r. sql_eq n.subscription_id (some r.id)) subs

-- the subscriptions that `Preload` reads, and the nodes
abbrev pub read_subscriptions : List GroupSubscription → List Subscription → List Subscription
read_subscriptions bs = filter_by (λ r. any (λ b. b.subscription_id == r.id) bs)

of_any-read :
    (bs : List GroupSubscription) (rs : List Subscription) (b : GroupSubscription) (n : Node)
    → Has bs b
    → of_one b n ≡ true
    → of_any (read_subscriptions bs rs) n ≡ of_any rs n
of_any-read bs rs b n has of_b =
    any-narrow (λ (r : Subscription). sql_eq n.subscription_id (some r.id))
      (λ r. any (λ b. b.subscription_id == r.id) bs) rs (λ r same. subscribed r same)
  where
    id_of : (o : Option ℕ) (i j : ℕ) → sql_eq o (some i) ≡ true → sql_eq o (some j) ≡ true → i ≡ j
    id_of none i j h k = absurd (ground arith)
    id_of (some a) i j h k = sym (==-true a i h) ∙ ==-true a j k

    subscribed :
        (r : Subscription)
        → sql_eq n.subscription_id (some r.id) ≡ true
        → any (λ c. c.subscription_id == r.id) bs ≡ true
    subscribed r same =
        ap (λ i. any (λ (c : GroupSubscription). c.subscription_id == i) bs)
          (id_of n.subscription_id r.id b.subscription_id same of_b)
        ∙ has

-- The nodes of one binding do not depend on the other bindings that are read with it.
with_nodes-read :
    (bs : List GroupSubscription) (rs : List Subscription) (ns : List Node) (b : GroupSubscription)
    → Has bs b
    → with_nodes (filter_by (of_any (read_subscriptions bs rs)) ns) b
      ≡ with_nodes (filter_by (of_any rs) ns) b
with_nodes-read bs rs ns b has =
    ap (λ l. (b, l))
      (filter_by-agree (of_one b) (of_any (read_subscriptions bs rs)) (of_any rs) ns
        (λ n of_b. of_any-read bs rs b n has of_b))

All-read :
    (bs l : List GroupSubscription) (rs : List Subscription) (ns : List Node)
    → All (Has bs) l
    → All
        (λ b.
          with_nodes (filter_by (of_any (read_subscriptions bs rs)) ns) b
          ≡ with_nodes (filter_by (of_any rs) ns) b)
        l
All-read bs [] rs ns h = tt
All-read bs (b ∷ l) rs ns (hb, h) = (with_nodes-read bs rs ns b hb, All-read bs l rs ns h)

-- the bindings of one group, read alone or among those of others
pub bindings-agree :
    (p q : GroupSubscription → Bool) (rows : List GroupSubscription) (rs : List Subscription)
    (ns : List Node)
    → ((b : GroupSubscription) → q b ≡ true → p b ≡ true)
    → map
        (with_nodes (filter_by (of_any (read_subscriptions (filter_by p rows) rs)) ns))
        (filter_by q (filter_by p rows))
      ≡ map
          (with_nodes (filter_by (of_any (read_subscriptions (filter_by q rows) rs)) ns))
          (filter_by q rows)
bindings-agree p q rows rs ns wider =
    let wide = filter_by p rows in
    let one = filter_by q rows in
    let ideal = with_nodes (filter_by (of_any rs) ns) in
    map-agree (with_nodes (filter_by (of_any (read_subscriptions wide rs)) ns)) ideal
      (filter_by q wide)
      (All-read wide (filter_by q wide) rs ns (filter_by-All (Has wide) q wide (Has-All wide)))
    ∙ ap (map ideal) (filter_by-narrow q p rows wider)
    ∙ sym (
        map-agree (with_nodes (filter_by (of_any (read_subscriptions one rs)) ns)) ideal one
          (All-read one one rs ns (Has-All one)))
