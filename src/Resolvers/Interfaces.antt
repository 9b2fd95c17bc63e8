-- ===== src/Resolvers/Interfaces.antt =====
-- The network interfaces: `Interfaces` of graphql/service/general/resolver.go, the resolvers of
-- graphql/service/general/interface_resolver.go, and `GetIfAddrs` of common/utils.go, over netlink.
pub mod Addresses
use dae_wing.Base.{
  ℕ, ◌%◌, ◌≡◌, Bool, true, false, not, ◌&&◌, ◌||◌, Option, none, some, List, [], ◌∷◌, ◌++◌, Text,
  codes, member, ◌==◌, if◌then◌else◌, int32, Result, ok, err, ◌>>=◌,
}

-- netlink.Link: its name, its index, and its flags as a bit pattern
pub record Link : Type 0 where
  pub name : Text
  pub index : ℕ
  pub flags : ℕ

-- netlink.Addr: whether its scope is the universe, the text of its network and of its address, and
-- whether the address is missing or of a kind that GetIfAddrs passes over (unspecified or multicast)
pub record Addr : Type 0 where
  pub universe : Bool
  pub net_text : Text
  pub ip_text : Text
  pub passed_over : Bool

-- netlink.Route; the destination of a default route is nil
pub record Route : Type 0 where
  pub has_destination : Bool
  pub gateway : Option Text
  pub source : Option Text

pub data Family : Type 0 where
  inet inet6 : Family

pub record Netlink : Type 0 where
  pub link_list : Result (List Link)
  pub addr_list : Link → Family → Result (List Addr)
  pub route_list : Link → Family → Result (List Route)
  -- daeCommon.Deduplicate
  pub deduplicate : List Text → List Text
  pub deduplicate-member : (s : Text) (l : List Text) → member s (deduplicate l) ≡ member s l

-- `Flags & RTF_UP == RTF_UP`, where RTF_UP is 1
abbrev pub is_up : Link → Bool
is_up l = l.flags % 2 == 1

-- Up
unfoldable pub up : Link → Bool
up l = is_up l

-- Ifindex
unfoldable pub ifindex : Link → ℕ
ifindex l = int32 l.index

abbrev same_bool : Bool → Bool → Bool
same_bool true b = b
same_bool false b = not b

-- the loop of Interfaces
unfoldable pub listed : Option Bool → List Link → List Link
listed wanted [] = []
listed none (l ∷ ls) = l ∷ listed none ls
listed (some b) (l ∷ ls) =
    if same_bool (is_up l) b then l ∷ listed (some b) ls else listed (some b) ls

-- the loop of Ip over the addresses of a family
unfoldable pub ips : Bool → List Addr → List Text
ips only_global [] = []
ips only_global (a ∷ rest) =
    if not a.universe && only_global
    then ips only_global rest
    else a.net_text ∷ ips only_global rest

-- DefaultRoute
pub record DefaultRoute : Type 0 where
  pub ip_version : Text
  pub gateway : Option Text
  pub source : Option Text

abbrev version_of : Family → Text
version_of Family.inet = codes "4"
version_of Family.inet6 = codes "6"

-- the loop of Default over the routes of a family
unfoldable pub default_routes : Family → List Route → List DefaultRoute
default_routes f [] = []
default_routes f (r ∷ rs) =
    if r.has_destination
    then default_routes f rs
    else record { ip_version = version_of f; gateway = r.gateway; source = r.source }
      ∷ default_routes f rs

-- a pointer to an empty list is made nil
abbrev pub some_or_nil : List DefaultRoute → Option (List DefaultRoute)
some_or_nil [] = none
some_or_nil (r ∷ rs) = some (r ∷ rs)

-- the loop of GetIfAddrs over the addresses of a link
unfoldable pub usable : List Addr → List Text
usable [] = []
usable (a ∷ rest) = if a.passed_over then usable rest else a.ip_text ∷ usable rest

-- `OnlyGlobalScope != nil && *OnlyGlobalScope`
abbrev asked : Option Bool → Bool
asked none = false
asked (some b) = b

module _ (N : Netlink) where
  -- Interfaces
  unfoldable pub interfaces : Option Bool → Result (List Link)
  interfaces wanted = N.link_list >>= λ ls. ok (listed wanted ls)

  -- Ip
  unfoldable pub ip : Link → Option Bool → Result (List Text)
  ip l only = do
    let global = asked only
    four ← N.addr_list l Family.inet
    six ← N.addr_list l Family.inet6
    ok (ips global four ++ ips global six)

  -- Default
  unfoldable pub default_of : Link → Result (Option (List DefaultRoute))
  default_of l = do
    four ← N.route_list l Family.inet
    six ← N.route_list l Family.inet6
    ok (some_or_nil (default_routes Family.inet four ++ default_routes Family.inet6 six))

  -- the addresses of a link; one whose list cannot be read is passed over
  abbrev pub addresses : Family → Link → List Addr
  addresses f l = elim (N.addr_list l f) [ err e ↦ [] | ok found ↦ found ]

  -- the loop of GetIfAddrs over the links
  unfoldable pub link_addrs : Family → List Link → List Text
  link_addrs f [] = []
  link_addrs f (l ∷ ls) =
      if is_up l then usable (addresses f l) ++ link_addrs f ls else link_addrs f ls

  -- GetIfAddrs
  unfoldable pub get_if_addrs : Result (List Text)
  get_if_addrs = N.link_list >>= λ ls.
      ok (N.deduplicate (link_addrs Family.inet ls ++ link_addrs Family.inet6 ls))
