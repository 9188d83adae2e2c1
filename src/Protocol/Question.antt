-- ===== src/Protocol/Question.antt =====
-- crates/dns-protocol/src/question.rs: the entries of the question section.
pub mod RoundTrip
use border_dns.Prelude.{ℕ, ◌+◌, List}
use border_dns.Types.Codes.{
  QType, QClass, qtype_from_u16, qtype_as_u16, qclass_from_u16, qclass_as_u16,
}
use border_dns.Protocol.Wire.{WireWriter, Read, ◌>>=◌, pure, read_u16, write_u16}
use border_dns.Protocol.Name.{DomainName, read_name, write_wire_uncompressed, wire_len}

pub record DnsQuestion : Type 0 where
  pub qname : DomainName
  pub qtype : QType
  pub qclass : QClass

unfoldable pub read_question : List ℕ → Read DnsQuestion
read_question message = do
  qname ← read_name message
  qtype_raw ← read_u16
  qclass_raw ← read_u16
  pure (record {
    qname = qname;
    qtype = qtype_from_u16 qtype_raw;
    qclass = qclass_from_u16 qclass_raw;
  })

unfoldable pub write_question : DnsQuestion → WireWriter → WireWriter
write_question q w =
    write_u16 (qclass_as_u16 q.qclass)
      (write_u16 (qtype_as_u16 q.qtype) (write_wire_uncompressed q.qname w))

unfoldable pub question_wire_len : DnsQuestion → ℕ
question_wire_len q = wire_len q.qname + 4
