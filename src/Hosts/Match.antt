-- ===== src/Hosts/Match.antt =====
-- Which addresses a lookup returns.
use border_dns.Prelude.{
  ℕ, ◌≡◌, refl, Bool, true, false, not, ◌&&◌, ◌||◌, List, [], ◌∷◌, All, AnyOf, if◌then◌else◌,
  if-elim, arith, Bool-cases, inl, inr,
}
use border_dns.Text.{Text, text_eq, to_lowercase, strip_last}
use border_dns.Text.Equality.{text_eq_refl, eq_of_text_eq}
use border_dns.Types.Codes.{QType, exact, a, aaaa}
use border_dns.Geo.{IpAddr, v4, v6}
use border_dns.Hosts.{HostEntry, HostsTable, is_ipv4, wants_v4, wants_v6, matching, match_domain}

-- One of the entries is the name's, with the address.
abbrev pub HasEntry : Text → List HostEntry → IpAddr → Type 0
HasEntry name entries ip = AnyOf (λ (e : HostEntry). (e.domain ≡ name) × (e.ip ≡ ip)) entries

abbrev family_wanted : Bool → Bool → IpAddr → Bool
family_wanted want_v4 want_v6 ip = if is_ipv4 ip then want_v4 else want_v6

All-map :
    {P Q : IpAddr → Type 0} (ips : List IpAddr)
    → ((ip : IpAddr) → P ip → Q ip)
    → All P ips
    → All Q ips
All-map [] f v = v
All-map (ip ∷ ips) f (p, v) = (f ip p, All-map ips f v)

matching-All :
    (want_v4 want_v6 : Bool) (name : Text) (entries : List HostEntry)
    → All
        (λ ip. HasEntry name entries ip × (family_wanted want_v4 want_v6 ip ≡ true))
        (matching want_v4 want_v6 name entries)
unfolding matching
matching-All want_v4 want_v6 name [] = tt
matching-All want_v4 want_v6 name (e ∷ entries) =
    let rest : All
        (λ ip. HasEntry name (e ∷ entries) ip × (family_wanted want_v4 want_v6 ip ≡ true))
        (matching want_v4 want_v6 name entries) =
      All-map (matching want_v4 want_v6 name entries) (λ ip (h, w). (inr h, w))
        (matching-All want_v4 want_v6 name entries) in
    if-elim (All (λ ip. HasEntry name (e ∷ entries) ip × (family_wanted want_v4 want_v6 ip ≡ true)))
      (text_eq e.domain name && ((want_v4 && is_ipv4 e.ip) || (want_v6 && not (is_ipv4 e.ip))))
      (λ h. ((inl (eq_of_text_eq e.domain name (ground arith), refl), ground arith), rest))
      (λ _. rest)

matching_complete :
    (want_v4 want_v6 : Bool) (name : Text) (entries : List HostEntry) (ip : IpAddr)
    → HasEntry name entries ip
    → family_wanted want_v4 want_v6 ip ≡ true
    → AnyOf (λ found. found ≡ ip) (matching want_v4 want_v6 name entries)
unfolding matching
matching_complete want_v4 want_v6 name [] ip h w = h
matching_complete want_v4 want_v6 name (e ∷ entries) ip (inl (n, i)) w =
    let taken : (text_eq e.domain name
          && ((want_v4 && is_ipv4 e.ip) || (want_v6 && not (is_ipv4 e.ip))))
        ≡ true =
      rw (n, i, text_eq_refl name) (ground arith) in
    rw taken (inl i)
matching_complete want_v4 want_v6 name (e ∷ entries) ip (inr h) w =
    if-elim (AnyOf (λ found. found ≡ ip))
      (text_eq e.domain name && ((want_v4 && is_ipv4 e.ip) || (want_v6 && not (is_ipv4 e.ip))))
      (λ _. inr (matching_complete want_v4 want_v6 name entries ip h w))
      (λ _. matching_complete want_v4 want_v6 name entries ip h w)

-- The addresses that a type asks for: IPv4 for A, IPv6 for AAAA, and none for another type.
pub data IsAsked : QType → IpAddr → Type 0 where
  v4_for_a : (octets : List ℕ) → IsAsked (exact a) (v4 octets)
  v6_for_aaaa : (octets : List ℕ) → IsAsked (exact aaaa) (v6 octets)

IsAsked-family_wanted :
    {qtype : QType} {ip : IpAddr}
    → IsAsked qtype ip
    → family_wanted (wants_v4 qtype) (wants_v6 qtype) ip ≡ true
unfolding wants_v4 wants_v6
IsAsked-family_wanted (v4_for_a octets) = refl
IsAsked-family_wanted (v6_for_aaaa octets) = refl

family_wanted-IsAsked :
    (qtype : QType) (ip : IpAddr)
    → family_wanted (wants_v4 qtype) (wants_v6 qtype) ip ≡ true
    → IsAsked qtype ip
unfolding wants_v4 wants_v6
family_wanted-IsAsked (exact a) (v4 octets) h = v4_for_a octets
family_wanted-IsAsked (exact a) (v6 octets) h = cc
family_wanted-IsAsked (exact aaaa) (v4 octets) h = cc
family_wanted-IsAsked (exact aaaa) (v6 octets) h = v6_for_aaaa octets
family_wanted-IsAsked (exact _) (v4 octets) h = cc
family_wanted-IsAsked (exact _) (v6 octets) h = cc
family_wanted-IsAsked _ (v4 octets) h = cc
family_wanted-IsAsked _ (v6 octets) h = cc

match_domain-wanted :
    (domain : Text) (qtype : QType) (t : HostsTable)
    → All
        (λ ip.
          HasEntry (to_lowercase (strip_last b'.' domain)) t.entries ip
          × (family_wanted (wants_v4 qtype) (wants_v6 qtype) ip ≡ true))
        (match_domain domain qtype t)
      × ((ip : IpAddr)
          → HasEntry (to_lowercase (strip_last b'.' domain)) t.entries ip
          → family_wanted (wants_v4 qtype) (wants_v6 qtype) ip ≡ true
          → AnyOf (λ found. found ≡ ip) (match_domain domain qtype t))
unfolding match_domain
match_domain-wanted domain qtype t =
    let name = to_lowercase (strip_last b'.' domain) in
    elim (Bool-cases (not (wants_v4 qtype) && not (wants_v6 qtype))) [
      | inl e ↦ rw e (tt, λ ip h w. absurd (cc (neither (wants_v4 qtype) (wants_v6 qtype) ip e, w)))
      | inr e ↦ rw e (
        matching-All (wants_v4 qtype) (wants_v6 qtype) name t.entries,
        matching_complete (wants_v4 qtype) (wants_v6 qtype) name t.entries,
      )
    ]
  where
    neither : (x y : Bool) (ip : IpAddr) → (not x && not y) ≡ true → family_wanted x y ip ≡ false
    neither x y ip e = ground arith

-- A lookup returns exactly the addresses that the table has for the name, with its case and a last
-- dot aside, of the family that the type asks for: each address returned is that of an entry of the
-- name and an IPv4 address when the type is A, an IPv6 address when it is AAAA, every such address
-- is returned, and no address is for another type.
pub match_domain-entries :
    (domain : Text) (qtype : QType) (t : HostsTable)
    → All
        (λ ip. HasEntry (to_lowercase (strip_last b'.' domain)) t.entries ip × IsAsked qtype ip)
        (match_domain domain qtype t)
      × ((ip : IpAddr)
          → HasEntry (to_lowercase (strip_last b'.' domain)) t.entries ip
          → IsAsked qtype ip
          → AnyOf (λ found. found ≡ ip) (match_domain domain qtype t))
match_domain-entries domain qtype t =
    let (sound, complete) = match_domain-wanted domain qtype t in
    (
      All-map (match_domain domain qtype t) (λ ip (h, w). (h, family_wanted-IsAsked qtype ip w))
          sound,
      λ ip h w. complete ip h (IsAsked-family_wanted w),
    )
