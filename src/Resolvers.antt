-- ===== src/Resolvers.antt =====
-- The texts that graphql/service/dns/resolver.go and graphql/service/routing/resolver.go give back
-- of a stored section: `String`.
pub mod RoundTrip
pub mod Groups
pub mod Interfaces
pub mod Rules
use mathlib.Core.List.{reverse}
use dae_wing.Base.{Text, codes}
use dae_wing.Cursor.{trim_prefix}
use dae_wing.Services.Groups.{trim_space}

-- `strings.TrimSuffix`
unfoldable pub trim_suffix : Text → Text → Text
trim_suffix suffix s = reverse (trim_prefix (reverse suffix) (reverse s))

-- DnsResolver.String
unfoldable pub dns_string : Text → Text
dns_string raw = trim_space (trim_suffix (codes "}") (trim_prefix (codes "dns {") raw))

-- DaeResolver.String
unfoldable pub routing_string : Text → Text
routing_string raw =
    trim_space (trim_suffix (codes "}") (trim_prefix (codes "routing {") (trim_space raw)))
