-- ===== src/Protocol/Header/Examples.antt =====
-- A run of the header codec, and its theorem at a concrete header.
use border_dns.Prelude.{◌≡◌, refl, [], ◌∷◌, length, true, arith}
use border_dns.Types.Error.{ok}
use border_dns.Protocol.Wire.{write_u16, new}
use border_dns.Protocol.Wire.Laws.{advance}
use border_dns.Protocol.Header.{
  response_header, read, write, flags_of_header, set_flag, opcode_as_u8, response_code_as_u8,
  opcode_from_u8, response_code_from_u8,
}
use border_dns.Protocol.Header.RoundTrip.{IsValid, read-write}

-- A response to a query that asked for recursion: the flags are 0x8180.
response_bytes :
    write (response_header 0x1234 true) []
    ≡ 0x12 ∷ 0x34 ∷ 0x81 ∷ 0x80 ∷ 0 ∷ 0 ∷ 0 ∷ 0 ∷ 0 ∷ 0 ∷ 0 ∷ 0 ∷ []
unfolding write response_header write_u16 flags_of_header set_flag opcode_as_u8 response_code_as_u8
response_bytes = refl

response-IsValid : IsValid (response_header 0x1234 true)
unfolding response_header opcode_as_u8 response_code_as_u8 opcode_from_u8 response_code_from_u8
response-IsValid = record {
  id_small = omega arith;
  opcode_value = refl;
  z_small = omega arith;
  rcode_small = omega arith;
  rcode_value = refl;
  qdcount_small = omega arith;
  ancount_small = omega arith;
  nscount_small = omega arith;
  arcount_small = omega arith;
}

read-write_example :
    (read (new (write (response_header 0x1234 true) []))
      ≡ ok (response_header 0x1234 true, advance 12 (new (write (response_header 0x1234 true) []))))
    × (length (write (response_header 0x1234 true) []) ≡ 12)
unfolding new write response_header write_u16 flags_of_header set_flag opcode_as_u8
    response_code_as_u8
read-write_example =
    read-write (response_header 0x1234 true) (new (write (response_header 0x1234 true) [])) []
      response-IsValid refl
