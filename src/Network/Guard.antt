-- ===== src/Network/Guard.antt =====
-- infrastructure/url_guard.py: which addresses may be connected to.
-- urlsplit and ipaddress are parameters: an address as `ipaddress.ip_address` reads it, and the parts
-- of a URL with the address that its host is, if it is one.
use crawl_viz.Base.{
  String, Bool, true, false, not, ◌||◌, Option, none, some, List, [], ◌∷◌, if◌then◌else◌, str_eq,
}
use crawl_viz.Base.Texts.{contains}

pub record Address : Type 0 where
  pub is_multicast : Bool
  pub is_global : Bool

-- An address, and for one of IPv6 the IPv4 address that it carries, if any.
pub record IpAddress : Type 0 where
  pub own : Address
  pub ipv4_mapped : Option Address

pub record UrlParts : Type 0 where
  pub scheme : String
  pub hostname : Option String
  pub address : Option IpAddress

pub data Refusal : Type 0 where
  bad_scheme no_host not_public resolves_to_private : Refusal

abbrev pub allowed_schemes : List String
allowed_schemes = "http" ∷ "https" ∷ []

unfoldable pub judged : IpAddress → Address
judged ip = elim ip.ipv4_mapped [ none ↦ ip.own | some v4 ↦ v4 ]

unfoldable pub is_blocked_address : IpAddress → Bool
unfolding judged
is_blocked_address ip = (judged ip).is_multicast || not (judged ip).is_global

-- `not host`
unfoldable pub no_hostname : Option String → Bool
no_hostname none = true
no_hostname (some host) = str_eq host ""

-- `none`: the URL may be fetched.
unfoldable pub ensure_public_url : UrlParts → Option Refusal
unfolding no_hostname is_blocked_address
ensure_public_url parts =
    if not (contains allowed_schemes parts.scheme)
    then some bad_scheme
    else if no_hostname parts.hostname
    then some no_host
    else elim parts.address [
      | none ↦ none
      | some ip ↦ if is_blocked_address ip then some not_public else none
    ]

unfoldable pub any_blocked : List IpAddress → Bool
unfolding is_blocked_address
any_blocked [] = false
any_blocked (ip ∷ ips) = is_blocked_address ip || any_blocked ips

-- `PublicAddressResolver.resolve`: the answers, or a refusal.
unfoldable pub resolve : List IpAddress → Option (List IpAddress)
unfolding any_blocked
resolve results = if any_blocked results then none else some results
