-- ===== src/Types/Codes/Examples.antt =====
-- A type code that has a name.
use border_dns.Prelude.{◌≡◌, refl}
use border_dns.Types.Codes.{qtype_from_u16, exact, aaaa, record_type_from_u16}

qtype_aaaa : qtype_from_u16 28 ≡ exact aaaa
unfolding qtype_from_u16 record_type_from_u16
qtype_aaaa = refl
