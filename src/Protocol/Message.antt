-- ===== src/Protocol/Message.antt =====
-- crates/dns-protocol/src/message.rs: whole messages. The capacity that `to_wire` asks for is an
-- optimisation, and `wire_size_estimate`, which only serves it, stands alone.
pub mod RoundTrip
pub mod Reply
pub mod Sound
pub mod Front
mod Examples
use border_dns.Prelude.{
  ℕ, zero, suc, ◌+◌, ◌%◌, max, Bool, true, false, Option, none, some, List, [], ◌∷◌, ◌++◌, length,
  ltb, if◌then◌else◌,
}
use border_dns.Types.Error.{Result, ok, err, buffer_underflow}
use border_dns.Protocol.Wire.{WireReader, WireWriter, Read, ◌>>=◌, pure}
use border_dns.Protocol.Wire
use border_dns.Protocol.Header.{DnsHeader, wire_size, query_header, response_header}
use border_dns.Protocol.Header
use border_dns.Protocol.Name.{wire_len}
use border_dns.Protocol.Question.{DnsQuestion, read_question, write_question, question_wire_len}
use border_dns.Protocol.Rr.{ResourceRecord, read_record, write_record}

abbrev pub max_message_size : ℕ
max_message_size = 512

abbrev pub max_edns_message_size : ℕ
max_edns_message_size = 4096

pub record DnsMessage : Type 0 where
  pub header : DnsHeader
  pub questions : List DnsQuestion
  pub answers : List ResourceRecord
  pub authorities : List ResourceRecord
  pub additionals : List ResourceRecord

unfoldable pub query : ℕ → DnsQuestion → DnsMessage
query id question = record {
  header = record (query_header id) { qdcount = 1 };
  questions = question ∷ [];
  answers = [];
  authorities = [];
  additionals = [];
}

unfoldable pub response : DnsMessage → DnsMessage
response q = record {
  header = record (response_header q.header.id q.header.rd) {
    qdcount = length q.questions % 65536;
  };
  questions = q.questions;
  answers = [];
  authorities = [];
  additionals = [];
}

-- A section: so many entries, one after the other.
unfoldable pub read_section {ℓ} : {A : Type ℓ} → Read A → ℕ → Read (List A)
read_section m zero = pure []
read_section m (suc count) =
    m >>= λ entry. read_section m count >>= λ section. pure (entry ∷ section)

unfoldable pub read_message : List ℕ → Read DnsMessage
read_message data_bytes = do
  header ← Header.read
  questions ← read_section (read_question data_bytes) header.qdcount
  answers ← read_section (read_record data_bytes) header.ancount
  authorities ← read_section (read_record data_bytes) header.nscount
  additionals ← read_section (read_record data_bytes) header.arcount
  pure (record {
    header = header;
    questions = questions;
    answers = answers;
    authorities = authorities;
    additionals = additionals;
  })

-- The reader is dropped.
abbrev pub value {ℓ} : {A : Type ℓ} → Result (A × WireReader) → Result A
value (ok (a, _)) = ok a
value (err e) = err e

unfoldable pub from_wire : List ℕ → Result DnsMessage
from_wire data_bytes =
    if ltb (length data_bytes) wire_size
    then err (buffer_underflow wire_size (length data_bytes))
    else value (read_message data_bytes (Wire.new data_bytes))

unfoldable pub write_section {ℓ} :
    {A : Type ℓ} → (A → WireWriter → WireWriter) → List A → WireWriter → WireWriter
write_section write_entry [] w = w
write_section write_entry (entry ∷ section) w =
    write_section write_entry section (write_entry entry w)

unfoldable pub write_to : DnsMessage → WireWriter → WireWriter
write_to m w =
    let w = write_section write_question m.questions (Header.write m.header w) in
    let w = write_section write_record m.authorities (write_section write_record m.answers w) in
    write_section write_record m.additionals w

unfoldable pub to_wire : DnsMessage → List ℕ
to_wire m = write_to m []

unfoldable pub questions_size : List DnsQuestion → ℕ
questions_size [] = 0
questions_size (q ∷ questions) = question_wire_len q + questions_size questions

unfoldable pub records_size : List ResourceRecord → ℕ
records_size [] = 0
records_size (rr ∷ records) = wire_len rr.name + 10 + 64 + records_size records

unfoldable pub wire_size_estimate : DnsMessage → ℕ
wire_size_estimate m =
    max
      (12
        + questions_size m.questions
        + records_size m.answers
        + records_size m.authorities
        + records_size m.additionals)
      512

unfoldable pub update_counts : DnsMessage → DnsMessage
update_counts m = record m {
  header = record m.header {
    qdcount = length m.questions % 65536;
    ancount = length m.answers % 65536;
    nscount = length m.authorities % 65536;
    arcount = length m.additionals % 65536;
  };
}

abbrev pub is_response : DnsMessage → Bool
is_response m = m.header.qr

abbrev pub is_truncated : DnsMessage → Bool
is_truncated m = m.header.tc

unfoldable pub first_question : DnsMessage → Option DnsQuestion
first_question m = elim m.questions [ [] ↦ none | q ∷ _ ↦ some q ]

unfoldable pub add_answer : ResourceRecord → DnsMessage → DnsMessage
add_answer rr m =
    let answers = m.answers ++ (rr ∷ []) in
    record m { answers = answers; header = record m.header { ancount = length answers % 65536 } }

unfoldable pub add_authority : ResourceRecord → DnsMessage → DnsMessage
add_authority rr m =
    let authorities = m.authorities ++ (rr ∷ []) in
    record m {
      authorities = authorities;
      header = record m.header { nscount = length authorities % 65536 };
    }

unfoldable pub add_additional : ResourceRecord → DnsMessage → DnsMessage
add_additional rr m =
    let additionals = m.additionals ++ (rr ∷ []) in
    record m {
      additionals = additionals;
      header = record m.header { arcount = length additionals % 65536 };
    }
