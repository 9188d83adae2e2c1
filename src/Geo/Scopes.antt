-- ===== src/Geo/Scopes.antt =====
-- What the lookup of an address says.
use border_dns.Prelude.{
  ℕ, ◌≡◌, ◌≢◌, refl, ◌&&◌, ◌||◌, List, ◌∷◌, ltb, leb, Bool-cases, Option-cases, inl, inr,
}
use border_dns.Types.Route.{
  IpGeoScope, scope_cn, scope_foreign, scope_private, scope_reserved, scope_unknown,
}
use border_dns.Geo.{
  IpAddr, v4, v6, GeoIpResult, is_reserved_v4, is_private_v4, is_likely_china_v4, located, in_cn,
  lookup_v4, segment, zero_segments, is_loopback, is_unspecified, to_ipv4_mapped, is_private_v6,
  lookup_v6, lookup,
}

-- `::ffff:0:0/96`
abbrev pub mapped : List ℕ → List ℕ
mapped octets = 0 ∷ 0 ∷ 0 ∷ 0 ∷ 0 ∷ 0 ∷ 0 ∷ 0 ∷ 0 ∷ 0 ∷ 255 ∷ 255 ∷ octets

-- An IPv6 address of `::ffff:0:0/96` is found where the IPv4 address that it maps is.
pub lookup-mapped : (octets : List ℕ) → lookup (v6 (mapped octets)) ≡ lookup (v4 octets)
unfolding lookup lookup_v6 is_loopback is_unspecified to_ipv4_mapped zero_segments segment
lookup-mapped octets = refl

-- A scope that is known, with a country exactly for China.
pub data IsKnown : GeoIpResult → Type 0 where
  in_china : IsKnown in_cn
  elsewhere :
      (scope : IpGeoScope) → scope ≢ scope_unknown → scope ≢ scope_cn → IsKnown (located scope)

v4-IsKnown : (octets : List ℕ) → IsKnown (lookup_v4 octets)
unfolding lookup_v4
v4-IsKnown octets = elim (Bool-cases (is_reserved_v4 octets)) [
  | inl r ↦ rw r (elsewhere scope_reserved (λ e. cc) (λ e. cc))
  | inr r ↦ rw r (elim (Bool-cases (is_private_v4 octets)) [
    | inl p ↦ rw p (elsewhere scope_private (λ e. cc) (λ e. cc))
    | inr p ↦ rw p (elim (Bool-cases (is_likely_china_v4 octets)) [
      | inl c ↦ rw c in_china
      | inr c ↦ rw c (elsewhere scope_foreign (λ e. cc) (λ e. cc))
    ])
  ])
]

v6-IsKnown : (octets : List ℕ) → IsKnown (lookup_v6 octets)
unfolding lookup_v6
v6-IsKnown octets = elim (Bool-cases (is_loopback octets || is_unspecified octets)) [
  | inl r ↦ rw r (elsewhere scope_reserved (λ e. cc) (λ e. cc))
  | inr r ↦ rw r (elim (Option-cases (to_ipv4_mapped octets)) [
    | inr (m, e) ↦ rw e (v4-IsKnown m)
    | inl e ↦ rw e (elim (Bool-cases (is_private_v6 octets)) [
      | inl p ↦ rw p (elsewhere scope_private (λ e. cc) (λ e. cc))
      | inr p ↦
          rw p (elim (Bool-cases (leb 9216 (segment octets 0) && ltb (segment octets 0) 9472)) [
            | inl c ↦ rw c in_china
            | inr c ↦ rw c (elsewhere scope_foreign (λ e. cc) (λ e. cc))
          ])
    ])
  ])
]

-- Every address has a scope, never the unknown one, and a country, CN, exactly where the scope is
-- China.
pub lookup-IsKnown : (ip : IpAddr) → IsKnown (lookup ip)
unfolding lookup
lookup-IsKnown (v4 octets) = v4-IsKnown octets
lookup-IsKnown (v6 octets) = v6-IsKnown octets
