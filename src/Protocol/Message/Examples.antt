-- ===== src/Protocol/Message/Examples.antt =====
-- The message theorems on a query for the addresses of `a.b`.
use border_dns.Prelude.{◌≡◌, refl, true, [], ◌∷◌, arith}
use border_dns.Types.Error.{ok}
use border_dns.Types.Codes.{qtype_from_u16, qclass_from_u16}
use border_dns.Protocol.Header.{query_header}
use border_dns.Protocol.Question.{DnsQuestion}
use border_dns.Protocol.Question.RoundTrip as Question
use border_dns.Protocol.Message.{query, response, from_wire, to_wire}
use border_dns.Protocol.Message.Sound.{SoundMessage, from_wire-Sound}
use border_dns.Protocol.Message.Reply.{from_wire-query, from_wire-response}

abbrev question : DnsQuestion
question = record {
  qname = record { buf = 97 ∷ 98 ∷ []; ends = 1 ∷ 2 ∷ [] };
  qtype = qtype_from_u16 1;
  qclass = qclass_from_u16 1;
}

question-IsValid : Question.IsValid question
question-IsValid = record {
  qname_valid = record {
    rising = (omega arith, omega arith, (omega arith, omega arith, refl));
    short = omega arith;
  };
  qtype_code = record { code = 1; small = omega arith; is_code = refl };
  qclass_code = record { code = 1; small = omega arith; is_code = refl };
}

from_wire-query_example : from_wire (to_wire (query 7 question)) ≡ ok (query 7 question)
from_wire-query_example = from_wire-query 7 question (omega arith) question-IsValid

from_wire-response_example :
    (from_wire (to_wire (response (query 7 question))) ≡ ok (response (query 7 question)))
    × ((response (query 7 question)).header.id ≡ (query 7 question).header.id)
    × ((response (query 7 question)).questions ≡ (query 7 question).questions)
    × ((response (query 7 question)).header.rd ≡ (query 7 question).header.rd)
    × ((response (query 7 question)).header.qr ≡ true)
unfolding query query_header
from_wire-response_example =
    from_wire-response (query 7 question) (omega arith) (omega arith) (question-IsValid, tt)

from_wire-Sound_example : SoundMessage (query 7 question)
from_wire-Sound_example =
    from_wire-Sound (to_wire (query 7 question)) (query 7 question) from_wire-query_example
