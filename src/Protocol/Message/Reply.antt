-- ===== src/Protocol/Message/Reply.antt =====
-- Queries and the empty responses to them.
use border_dns.Prelude.{ℕ, ◌%◌, ◌^◌, ◌<◌, ◌≡◌, refl, Bool, true, [], ◌∷◌, length, All, arith}
use border_dns.Types.Error.{ok}
use border_dns.Protocol.Header.{
  query_header, response_header, opcode_as_u8, opcode_from_u8, response_code_as_u8,
  response_code_from_u8,
}
use border_dns.Protocol.Header.RoundTrip as Header
use border_dns.Protocol.Question.{DnsQuestion}
use border_dns.Protocol.Question.RoundTrip as Question
use border_dns.Protocol.Message.{DnsMessage, query, response, from_wire, to_wire}
use border_dns.Protocol.Message.RoundTrip.{from_wire-to_wire-bare}

query_header-IsValid :
    (id : ℕ) → id < 2 ^ 16 → Header.IsValid (record (query_header id) { qdcount = 1 })
unfolding query_header opcode_as_u8 response_code_as_u8 opcode_from_u8 response_code_from_u8
query_header-IsValid id h = record {
  id_small = h;
  opcode_value = refl;
  z_small = omega arith;
  rcode_small = omega arith;
  rcode_value = refl;
  qdcount_small = omega arith;
  ancount_small = omega arith;
  nscount_small = omega arith;
  arcount_small = omega arith;
}

response_header-IsValid :
    (id : ℕ) (rd : Bool) (count : ℕ)
    → id < 2 ^ 16
    → Header.IsValid (record (response_header id rd) { qdcount = count % 65536 })
unfolding response_header opcode_as_u8 response_code_as_u8 opcode_from_u8 response_code_from_u8
response_header-IsValid id rd count h = record {
  id_small = h;
  opcode_value = refl;
  z_small = omega arith;
  rcode_small = omega arith;
  rcode_value = refl;
  qdcount_small = omega arith;
  ancount_small = omega arith;
  nscount_small = omega arith;
  arcount_small = omega arith;
}

-- A query with a 16-bit identifier and a well-formed question is read back from its wire form.
pub from_wire-query :
    (id : ℕ) (q : DnsQuestion)
    → id < 2 ^ 16
    → Question.IsValid q
    → from_wire (to_wire (query id q)) ≡ ok (query id q)
unfolding query query_header
from_wire-query id q h v =
    from_wire-to_wire-bare (record (query_header id) { qdcount = 1 }) (q ∷ [])
      (query_header-IsValid id h) (v, tt)
      (record {
        questions_counted = refl;
        no_answers = refl;
        no_authorities = refl;
        no_additionals = refl;
      })

-- The response to any message with a 16-bit identifier and fewer than 65536 questions, all of them
-- well formed, is read back from its wire form, and it is a response with the identifier, the
-- questions and the RD bit of the message.
pub from_wire-response :
    (m : DnsMessage)
    → m.header.id < 2 ^ 16
    → length m.questions < 2 ^ 16
    → All Question.IsValid m.questions
    → (from_wire (to_wire (response m)) ≡ ok (response m))
      × ((response m).header.id ≡ m.header.id)
      × ((response m).questions ≡ m.questions)
      × ((response m).header.rd ≡ m.header.rd)
      × ((response m).header.qr ≡ true)
unfolding response response_header
from_wire-response m h l v = (
  from_wire-to_wire-bare
      (record (response_header m.header.id m.header.rd) { qdcount = length m.questions % 65536 })
      m.questions (response_header-IsValid m.header.id m.header.rd (length m.questions) h) v
      (record {
        questions_counted = omega arith;
        no_answers = refl;
        no_authorities = refl;
        no_additionals = refl;
      }),
  refl,
  refl,
  refl,
  refl,
)
