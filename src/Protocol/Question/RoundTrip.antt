-- ===== src/Protocol/Question/RoundTrip.antt =====
-- A question that is written is read back.
use border_dns.Prelude.{ℕ, ◌≡◌, List, [], ◌++◌, append_assoc}
use border_dns.Types.Codes.{qtype_as_u16, qclass_as_u16}
use border_dns.Types.Codes.RoundTrip.{
  IsQType, IsQClass, qtype_from_u16-as_u16, qclass_from_u16-as_u16,
}
use border_dns.Protocol.Wire.{write_u16, u16_to_be_bytes, WireWriter}
use border_dns.Protocol.Wire.Laws.{Decodes, Decodes-pure_eq, Decodes->>=, read_u16-Decodes}
use border_dns.Protocol.Name.Valid
use border_dns.Protocol.Name.RoundTrip.{name_bytes, write-name_bytes, read_name-name_bytes}
use border_dns.Protocol.Question.{DnsQuestion, read_question, write_question}

-- A well-formed name, and codes that a number stands for.
pub record IsValid (q : DnsQuestion) : Type 0 where
  pub qname_valid : Valid.IsValid q.qname
  pub qtype_code : IsQType q.qtype
  pub qclass_code : IsQClass q.qclass

pub question_bytes : DnsQuestion → List ℕ
question_bytes q =
    name_bytes q.qname
    ++ (u16_to_be_bytes (qtype_as_u16 q.qtype) ++ (u16_to_be_bytes (qclass_as_u16 q.qclass) ++ []))

pub write-question_bytes :
    (q : DnsQuestion) (w : WireWriter) → IsValid q → write_question q w ≡ w ++ question_bytes q
unfolding write_question write_u16 question_bytes
write-question_bytes q w v = rw (write-name_bytes q.qname w v.qname_valid) (simp append_assoc)

pub read_question-Decodes :
    (q : DnsQuestion) (message : List ℕ)
    → IsValid q
    → Decodes (read_question message) (question_bytes q) q
unfolding read_question question_bytes
read_question-Decodes q message v =
    let (t, ts) = qtype_from_u16-as_u16 q.qtype v.qtype_code in
    let (c, cs) = qclass_from_u16-as_u16 q.qclass v.qclass_code in
    Decodes->>= _ (read_name-name_bytes q.qname message v.qname_valid) (
      Decodes->>= _ (read_u16-Decodes (qtype_as_u16 q.qtype) ts) (
        Decodes->>= _ (read_u16-Decodes (qclass_as_u16 q.qclass) cs)
          (Decodes-pure_eq (λ i. record { qname = q.qname; qtype = t i; qclass = c i }))))
