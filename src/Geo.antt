-- ===== src/Geo.antt =====
-- crates/border-dns-geoip/src/lib.rs: where an address is. An address is the list of its octets, and a
-- segment of an IPv6 address is two of them.
pub mod Scopes
use border_dns.Prelude.{
  ℕ, ◌+◌, ◌*◌, ◌/◌, Bool, true, false, not, ◌&&◌, ◌||◌, Option, none, some, List, [], ◌∷◌, get_or,
  drop, ltb, leb, ◌==◌, if◌then◌else◌,
}
use border_dns.Types.Route.{
  IpGeoScope, scope_cn, scope_foreign, scope_private, scope_reserved, scope_unknown,
}

pub data IpAddr : Type 0 where
  v4 v6 : List ℕ → IpAddr

pub record GeoIpResult : Type 0 where
  pub scope : IpGeoScope
  pub country_code : Option (List ℕ)

abbrev pub octet : List ℕ → ℕ → ℕ
octet octets i = get_or octets i 0

unfoldable pub between : ℕ → ℕ → ℕ → Bool
between low high n = leb low n && leb n high

unfoldable pub one_of : List ℕ → ℕ → Bool
one_of [] n = false
one_of (m ∷ ms) n = (n == m) || one_of ms n

unfoldable pub is_reserved_v4 : List ℕ → Bool
is_reserved_v4 o =
    one_of (0 ∷ 127 ∷ []) (octet o 0)
    || ((octet o 0 == 169) && (octet o 1 == 254))
    || ((octet o 0 == 192) && ((octet o 1 == 0) && (octet o 2 == 0)))
    || ((octet o 0 == 192) && ((octet o 1 == 0) && (octet o 2 == 2)))
    || ((octet o 0 == 198) && one_of (18 ∷ 19 ∷ []) (octet o 1))
    || between 224 239 (octet o 0)
    || between 240 255 (octet o 0)

unfoldable pub is_private_v4 : List ℕ → Bool
is_private_v4 o =
    (octet o 0 == 10)
    || ((octet o 0 == 172) && between 16 31 (octet o 1))
    || ((octet o 0 == 192) && (octet o 1 == 168))

-- The first octets that are enough.
abbrev pub china_blocks : List ℕ
china_blocks =
    14 ∷ 36 ∷ 39 ∷ 42 ∷ 49 ∷ 58 ∷ 59 ∷ 60 ∷ 61 ∷ 101 ∷ 106 ∷ 110 ∷ 111 ∷ 112 ∷ 113 ∷ 114 ∷ 115 ∷ 116
    ∷ 117 ∷ 118 ∷ 119 ∷ 120 ∷ 121 ∷ 122 ∷ 123 ∷ 124 ∷ 125 ∷ 180 ∷ 182 ∷ 183 ∷ 210 ∷ 211 ∷ 218 ∷ 219
    ∷ 220 ∷ 221 ∷ 222 ∷ 223 ∷ []

unfoldable pub is_likely_china_v4 : List ℕ → Bool
is_likely_china_v4 o =
    ((octet o 0 == 1) && ((octet o 1 == 0) && between 1 3 (octet o 2)))
    || ((octet o 0 == 1) && ((octet o 1 == 0) && (octet o 2 == 8)))
    || ((octet o 0 == 27) && leb (octet o 1) 63)
    || ((octet o 0 == 103) && leb 224 (octet o 1))
    || ((octet o 0 == 202) && between 96 127 (octet o 1))
    || one_of china_blocks (octet o 0)

abbrev pub located : IpGeoScope → GeoIpResult
located scope = record { scope = scope; country_code = none }

abbrev pub in_cn : GeoIpResult
in_cn = record { scope = scope_cn; country_code = some (b'C' ∷ b'N' ∷ []) }

unfoldable pub lookup_v4 : List ℕ → GeoIpResult
lookup_v4 octets =
    if is_reserved_v4 octets
    then located scope_reserved
    else if is_private_v4 octets
    then located scope_private
    else if is_likely_china_v4 octets
    then in_cn
    else located scope_foreign

unfoldable pub segment : List ℕ → ℕ → ℕ
segment octets i = octet octets (2 * i) * 256 + octet octets (2 * i + 1)

unfoldable pub zero_segments : List ℕ → List ℕ → Bool
zero_segments octets [] = true
zero_segments octets (i ∷ is) = (segment octets i == 0) && zero_segments octets is

-- The indices of all segments but the last.
abbrev pub first_seven : List ℕ
first_seven = 0 ∷ 1 ∷ 2 ∷ 3 ∷ 4 ∷ 5 ∷ 6 ∷ []

-- `is_loopback` and `is_unspecified`
unfoldable pub is_loopback : List ℕ → Bool
is_loopback octets = zero_segments octets first_seven && (segment octets 7 == 1)

unfoldable pub is_unspecified : List ℕ → Bool
is_unspecified octets = zero_segments octets first_seven && (segment octets 7 == 0)

-- `to_ipv4_mapped`, for the addresses of `::ffff:0:0/96`.
unfoldable pub to_ipv4_mapped : List ℕ → Option (List ℕ)
to_ipv4_mapped octets =
    if zero_segments octets (0 ∷ 1 ∷ 2 ∷ 3 ∷ 4 ∷ []) && (segment octets 5 == 65535)
    then some (drop 12 octets)
    else none

-- The masks of the source leave the ten, and the seven, high bits of the first segment.
unfoldable pub is_private_v6 : List ℕ → Bool
is_private_v6 octets =
    (segment octets 0 / 64 == 1018)
    || (segment octets 0 / 512 == 126)
    || is_unspecified octets
    || is_loopback octets

unfoldable pub lookup_v6 : List ℕ → GeoIpResult
lookup_v6 octets =
    if is_loopback octets || is_unspecified octets
    then located scope_reserved
    else elim (to_ipv4_mapped octets) [
      | some mapped ↦ lookup_v4 mapped
      | none ↦
          if is_private_v6 octets
          then located scope_private
          else if leb 9216 (segment octets 0) && ltb (segment octets 0) 9472
          then in_cn
          else located scope_foreign
    ]

unfoldable pub lookup : IpAddr → GeoIpResult
lookup (v4 octets) = lookup_v4 octets
lookup (v6 octets) = lookup_v6 octets
