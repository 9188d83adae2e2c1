-- ===== src/Protocol/Message/Sound.antt =====
-- What holds of every message that is decoded, whatever the bytes.
use border_dns.Prelude.{
  ℕ, zero, suc, ◌≡◌, refl, ap, List, length, ltb, All, if◌then◌else◌, Bool, true, false, arith,
}
use border_dns.Types.Error.{ProtocolError, Result, ok, err}
use border_dns.Protocol.Wire.{WireReader, Read, new}
use border_dns.Protocol.Wire.Bounds.{Safe, Safe->>=, Safe-pure, Safe-value, Anything, read_u16-Safe}
use border_dns.Protocol.Header.{DnsHeader, read}
use border_dns.Protocol.Name.Valid.{IsValid}
use border_dns.Protocol.Name.Decode.{read_name-Safe}
use border_dns.Protocol.Question.{DnsQuestion, read_question}
use border_dns.Protocol.Rr.{ResourceRecord}
use border_dns.Protocol.Rr.Sound.{Sound, read_record-Safe}
use border_dns.Protocol.Message.{DnsMessage, read_section, read_message, from_wire, value}

abbrev pub SoundQuestion : DnsQuestion → Type 0
SoundQuestion q = IsValid q.qname

abbrev pub SoundRecord : ResourceRecord → Type 0
SoundRecord rr = IsValid rr.name × Sound rr.rdata

-- A section of the counted length, with the property for each entry.
abbrev pub Section {ℓ} : {A : Type ℓ} → (A → Type 0) → ℕ → List A → Type 0
Section P count xs = (length xs ≡ count) × All P xs

pub record SoundMessage (m : DnsMessage) : Type 0 where
  pub questions_sound : Section SoundQuestion m.header.qdcount m.questions
  pub answers_sound : Section SoundRecord m.header.ancount m.answers
  pub authorities_sound : Section SoundRecord m.header.nscount m.authorities
  pub additionals_sound : Section SoundRecord m.header.arcount m.additionals

read_section-Safe {ℓ} :
    {A : Type ℓ} {P : A → Type 0} {m : Read A}
    → Safe P m
    → (count : ℕ) → Safe (Section P count) (read_section m count)
unfolding read_section
read_section-Safe sm zero = Safe-pure (refl, tt)
read_section-Safe sm (suc count) =
    Safe->>= sm
      (λ _ p. Safe->>= (read_section-Safe sm count) (λ xs (l, ps). Safe-pure (ap suc l, (p, ps))))

read_question-Safe : (message : List ℕ) → Safe SoundQuestion (read_question message)
unfolding read_question
read_question-Safe message =
    Safe->>= (read_name-Safe message)
      (λ _ v. Safe->>= read_u16-Safe (λ _ _. Safe->>= read_u16-Safe (λ _ _. Safe-pure v)))

read-Safe : Safe (Anything {A = DnsHeader}) read
unfolding read Anything
read-Safe = Safe->>= read_u16-Safe (λ _ _. Safe->>= read_u16-Safe (λ _ _.
    Safe->>= read_u16-Safe (λ _ _.
      Safe->>= read_u16-Safe
        (λ _ _. Safe->>= read_u16-Safe (λ _ _. Safe->>= read_u16-Safe (λ _ _. Safe-pure tt))))))

read_message-Safe : (message : List ℕ) → Safe SoundMessage (read_message message)
unfolding read_message
read_message-Safe message = Safe->>= read-Safe (λ h _.
    Safe->>= (read_section-Safe (read_question-Safe message) h.qdcount) (λ _ q.
      Safe->>= (read_section-Safe (read_record-Safe message) h.ancount) (λ _ a.
        Safe->>= (read_section-Safe (read_record-Safe message) h.nscount) (λ _ n.
          Safe->>= (read_section-Safe (read_record-Safe message) h.arcount) (λ _ r.
            Safe-pure (record {
              questions_sound = q;
              answers_sound = a;
              authorities_sound = n;
              additionals_sound = r;
            }))))))

value_ok {ℓ} :
    {A : Type ℓ} {a : A} (b : Bool) (e : ProtocolError) (x : Result (A × WireReader))
    → (if b then err e else value x) ≡ ok a
    → (s : WireReader) × (x ≡ ok (a, s))
value_ok true e x h = cc
value_ok false e (ok (a, s)) h = (s, cc)
value_ok false e (err _) h = cc

-- Whatever the bytes, a message that `from_wire` returns has in each section as many entries as its
-- header counts, every name in it, owner names, question names and those inside the record data, is
-- well formed, and every address has the octets of its family.
pub from_wire-Sound : (bytes : List ℕ) (m : DnsMessage) → from_wire bytes ≡ ok m → SoundMessage m
unfolding from_wire new
from_wire-Sound bytes m e =
    let (s, k) = value_ok (ltb (length bytes) 12) _ (read_message bytes (new bytes)) e in
    Safe-value (new bytes) (read_message-Safe bytes) (omega arith) k
