-- ===== src/Types/Names.antt =====
-- crates/dns-types/src/record_type.rs: the names of the record types.
use border_dns.Prelude.{ℕ, List, [], ◌∷◌}
use border_dns.Types.Codes.{
  RecordType, a, ns, cname, soa, ptr, mx, txt, aaaa, srv, svcb, https, opt, unknown,
}

-- `RecordType::as_str`
unfoldable pub type_name : RecordType → List ℕ
type_name a = b'A' ∷ []
type_name ns = b'N' ∷ b'S' ∷ []
type_name cname = b'C' ∷ b'N' ∷ b'A' ∷ b'M' ∷ b'E' ∷ []
type_name soa = b'S' ∷ b'O' ∷ b'A' ∷ []
type_name ptr = b'P' ∷ b'T' ∷ b'R' ∷ []
type_name mx = b'M' ∷ b'X' ∷ []
type_name txt = b'T' ∷ b'X' ∷ b'T' ∷ []
type_name aaaa = b'A' ∷ b'A' ∷ b'A' ∷ b'A' ∷ []
type_name srv = b'S' ∷ b'R' ∷ b'V' ∷ []
type_name svcb = b'S' ∷ b'V' ∷ b'C' ∷ b'B' ∷ []
type_name https = b'H' ∷ b'T' ∷ b'T' ∷ b'P' ∷ b'S' ∷ []
type_name opt = b'O' ∷ b'P' ∷ b'T' ∷ []
type_name (unknown v) = b'T' ∷ b'Y' ∷ b'P' ∷ b'E' ∷ b'?' ∷ []
