-- ===== src/Protocol/Message/RoundTrip.antt =====
-- A message that is written is read back, section by section.
use border_dns.Prelude.{
  ℕ, false, ◌≡◌, refl, sym, ap, ◌∙◌, List, [], ◌∷◌, ◌++◌, append_assoc, append-nil, length, All,
  length-append, ltb, le→ltb, arith,
}
use border_dns.Types.Error.{ok}
use border_dns.Protocol.Wire.{WireWriter, Read, ◌>>=◌, pure, new}
use border_dns.Protocol.Wire.Laws.{Decodes, Decodes-pure, Decodes->>=, Decodes-along}
use border_dns.Protocol.Header.{DnsHeader}
use border_dns.Protocol.Header.RoundTrip as Header
use border_dns.Protocol.Question.{DnsQuestion, read_question, write_question}
use border_dns.Protocol.Question.RoundTrip.{
  question_bytes, write-question_bytes, read_question-Decodes,
}
use border_dns.Protocol.Question.RoundTrip as Question
use border_dns.Protocol.Rr.{read_record}
use border_dns.Protocol.Message.{
  DnsMessage, read_section, write_section, read_message, from_wire, write_to, to_wire,
}

abbrev section_bytes {ℓ} : {A : Type ℓ} → (A → List ℕ) → List A → List ℕ
section_bytes enc [] = []
section_bytes enc (x ∷ xs) = enc x ++ section_bytes enc xs

module _ {ℓ κ} {A : Type ℓ} {Valid : A → Type κ} {m : Read A} {enc : A → List ℕ} where
  read_section-Decodes :
      ((x : A) → Valid x → Decodes m (enc x) x)
      → (xs : List A) → All Valid xs
      → Decodes (read_section m (length xs)) (section_bytes enc xs) xs
  unfolding read_section
  read_section-Decodes d [] v = Decodes-pure []
  read_section-Decodes d (x ∷ xs) (v, vs) = Decodes->>= _ (d x v) (
      Decodes-along (append-nil (section_bytes enc xs))
        (Decodes->>= _ (read_section-Decodes d xs vs) (Decodes-pure (x ∷ xs))))

write_section-bytes {ℓ κ} :
    {A : Type ℓ} {Valid : A → Type κ} {write_entry : A → WireWriter → WireWriter} {enc : A → List ℕ}
    → ((x : A) (w : WireWriter) → Valid x → write_entry x w ≡ w ++ enc x)
    → (xs : List A) (w : WireWriter) → All Valid xs
    → write_section write_entry xs w ≡ w ++ section_bytes enc xs
unfolding write_section
write_section-bytes e [] w v = sym (append-nil w)
write_section-bytes {write_entry} {enc} e (x ∷ xs) w (v, vs) =
    ap (write_section write_entry xs) (e x w v)
    ∙ write_section-bytes e xs (w ++ enc x) vs
    ∙ append_assoc w (enc x) (section_bytes enc xs)

-- A message with questions and no records, such as a query or a refusal.
abbrev pub bare : DnsHeader → List DnsQuestion → DnsMessage
bare h questions = record {
  header = h;
  questions = questions;
  answers = [];
  authorities = [];
  additionals = [];
}

-- What a header says of such a message.
pub record Counts (h : DnsHeader) (questions : List DnsQuestion) : Type 0 where
  pub questions_counted : h.qdcount ≡ length questions
  pub no_answers : h.ancount ≡ 0
  pub no_authorities : h.nscount ≡ 0
  pub no_additionals : h.arcount ≡ 0

bare_bytes : DnsHeader → List DnsQuestion → List ℕ
bare_bytes h questions = Header.bytes h ++ section_bytes question_bytes questions

-- The sections after the header, over the counts.
read_sections-bare :
    (h : DnsHeader) (questions : List DnsQuestion) (message : List ℕ)
    {qdcount ancount nscount arcount : ℕ}
    → All Question.IsValid questions
    → qdcount ≡ length questions
    → ancount ≡ 0
    → nscount ≡ 0
    → arcount ≡ 0
    → Decodes
        (do
          questions ← read_section (read_question message) qdcount
          answers ← read_section (read_record message) ancount
          authorities ← read_section (read_record message) nscount
          additionals ← read_section (read_record message) arcount
          pure (record {
            header = h;
            questions = questions;
            answers = answers;
            authorities = authorities;
            additionals = additionals;
          }))
        (section_bytes question_bytes questions)
        (bare h questions)
unfolding read_section
read_sections-bare h questions message vs q a n r =
    rw (q, a, n, r)
      (Decodes-along (append-nil (section_bytes question_bytes questions)) (
        Decodes->>= _ (read_section-Decodes (λ q u. read_question-Decodes q message u) questions vs)
          (Decodes-pure (bare h questions))))

read_message-bare :
    (h : DnsHeader) (questions : List DnsQuestion) (message : List ℕ)
    → Header.IsValid h
    → All Question.IsValid questions
    → Counts h questions
    → Decodes (read_message message) (bare_bytes h questions) (bare h questions)
unfolding read_message bare_bytes
read_message-bare h questions message v vs c = Decodes->>= _ (Header.read-bytes h v) (
    read_sections-bare h questions message vs c.questions_counted c.no_answers c.no_authorities
      c.no_additionals)

write_to-bare :
    (h : DnsHeader) (questions : List DnsQuestion)
    → All Question.IsValid questions
    → to_wire (bare h questions) ≡ bare_bytes h questions
unfolding to_wire write_to write_section bare_bytes
write_to-bare h questions vs =
    ap (write_section write_question questions) (Header.write-bytes h [])
    ∙ write_section-bytes write-question_bytes questions (Header.bytes h) vs

-- A message of a header in range, whose counts are those of the sections, and well-formed questions,
-- without records, is read back from its wire form.
pub from_wire-to_wire-bare :
    (h : DnsHeader) (questions : List DnsQuestion)
    → Header.IsValid h
    → All Question.IsValid questions
    → Counts h questions
    → from_wire (to_wire (bare h questions)) ≡ ok (bare h questions)
unfolding from_wire bare_bytes new
from_wire-to_wire-bare h questions v vs c =
    let bytes = bare_bytes h questions in
    let long : ltb (length bytes) 12 ≡ false = le→ltb _ _ (
      omega (
        arith,
        Header.length-bytes h,
        length-append (Header.bytes h) (section_bytes question_bytes questions),
      )) in
    let d =
      (read_message-bare h questions bytes v vs c).apply (new bytes) [] (sym (append-nil bytes)) in
    rw (write_to-bare h questions vs, long, d) refl
