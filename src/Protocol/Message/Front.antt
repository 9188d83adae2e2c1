-- ===== src/Protocol/Message/Front.antt =====
-- What the writers put behind the bytes that are there: the first bytes of a wire form, which are the
-- identifier, stay as the header wrote them, so that they can be replaced afterwards.
use border_dns.Prelude.{
  ℕ, suc, ◌+◌, ◌-◌, ◌/◌, ◌%◌, ◌≡◌, refl, sym, ap, ◌∙◌, drop, List, [], ◌∷◌, ◌++◌, length, set,
  arith,
}
use border_dns.Types.Codes.{record_type_as_u16, record_class_as_u16}
use border_dns.Protocol.Wire.{WireWriter, write_u8, write_u16, write_u32, write_bytes}
use border_dns.Protocol.Header
use border_dns.Protocol.Name.{DomainName, write_labels, write_wire_uncompressed}
use border_dns.Protocol.Question.{DnsQuestion, write_question}
use border_dns.Protocol.Rr.{
  RData, a_data, aaaa_data, cname_data, ns_data, ptr_data, mx_data, txt_data, soa_data, srv_data,
  svcb_data, https_data, opt_data, unknown_data, ResourceRecord, write_mx, write_strings, write_soa,
  write_srv, write_svcb, write_rdata, write_opt, write_plain, write_record,
}
use border_dns.Protocol.Message.{DnsMessage, write_section, write_to, to_wire}

-- A writer that leaves the first byte alone and does not look at it.
abbrev Skips : (WireWriter → WireWriter) → Type 0
Skips write = (b : ℕ) (w : WireWriter) → write (b ∷ w) ≡ b ∷ write w

write_labels-Skips :
    (buf : List ℕ) (prev_end : ℕ) (ends : List ℕ) → Skips (write_labels buf prev_end ends)
unfolding write_labels write_bytes write_u8
write_labels-Skips buf prev_end [] b w = refl
write_labels-Skips buf prev_end (end ∷ ends) b w = write_labels-Skips buf end ends b _

write_wire_uncompressed-Skips : (n : DomainName) → Skips (write_wire_uncompressed n)
unfolding write_wire_uncompressed write_u8
write_wire_uncompressed-Skips n b w =
    ap (λ (x : List ℕ). x ++ (0 ∷ [])) (write_labels-Skips n.buf 0 n.ends b w)

write_strings-Skips : (strings : List (List ℕ)) → Skips (write_strings strings)
unfolding write_strings write_bytes write_u8
write_strings-Skips [] b w = refl
write_strings-Skips (s ∷ strings) b w = write_strings-Skips strings b _

write_rdata-Skips : (rdata : RData) → Skips (write_rdata rdata)
unfolding write_rdata write_mx write_soa write_srv write_svcb write_bytes write_u16 write_u32
write_rdata-Skips (a_data octets) b w = refl
write_rdata-Skips (aaaa_data octets) b w = refl
write_rdata-Skips (cname_data n) b w = write_wire_uncompressed-Skips n b w
write_rdata-Skips (ns_data n) b w = write_wire_uncompressed-Skips n b w
write_rdata-Skips (ptr_data n) b w = write_wire_uncompressed-Skips n b w
write_rdata-Skips (mx_data m) b w = simp write_wire_uncompressed-Skips
write_rdata-Skips (txt_data strings) b w = write_strings-Skips strings b w
write_rdata-Skips (soa_data s) b w = simp write_wire_uncompressed-Skips
write_rdata-Skips (srv_data s) b w = simp write_wire_uncompressed-Skips
write_rdata-Skips (svcb_data s) b w = simp write_wire_uncompressed-Skips
write_rdata-Skips (https_data s) b w = simp write_wire_uncompressed-Skips
write_rdata-Skips (opt_data o) b w = refl
write_rdata-Skips (unknown_data v bytes) b w = refl

write_opt-Skips : (rr : ResourceRecord) (o : _) → Skips (write_opt rr o)
unfolding write_opt write_bytes write_u16 write_u32
write_opt-Skips rr o b w = refl

-- The length that is put right afterwards.
abbrev patched : (w from filled : List ℕ) → List ℕ
patched w from filled =
    let rdata_len = (length filled - length from) % 65536 in
    set (set filled (length w) (rdata_len / 256)) (length w + 1) (rdata_len % 256)

-- It stands one byte further on, with the same value.
patched-Skips :
    (b : ℕ) (w from filled : List ℕ)
    → patched (b ∷ w) (b ∷ from) (b ∷ filled) ≡ b ∷ patched w from filled
patched-Skips b w from filled =
    let same : suc (length filled) - suc (length from) ≡ length filled - length from =
      omega arith in
    let next : suc (length w) + 1 ≡ suc (length w + 1) = omega arith in rw (same, next) refl

write_plain-Skips : (rr : ResourceRecord) → Skips (write_plain rr)
unfolding write_plain write_u16 write_u32
write_plain-Skips rr b w =
    let fixed =
      write_u32 rr.ttl
        (write_u16 (record_class_as_u16 rr.class) (write_u16 (record_type_as_u16 rr.rr_type) w)) in
    ap (patched (b ∷ fixed) (b ∷ write_u16 0 fixed))
      (write_rdata-Skips rr.rdata b (write_u16 0 fixed))
    ∙ patched-Skips b fixed (write_u16 0 fixed) (write_rdata rr.rdata (write_u16 0 fixed))

-- A record behind its name.
abbrev write_behind_name : ResourceRecord → RData → WireWriter → WireWriter
write_behind_name rr rdata w = elim rdata [ opt_data o ↦ write_opt rr o w | _ ↦ write_plain rr w ]

write_behind_name-Skips : (rr : ResourceRecord) (rdata : RData) → Skips (write_behind_name rr rdata)
write_behind_name-Skips rr (opt_data o) b w = write_opt-Skips rr o b w
write_behind_name-Skips rr _ b w = write_plain-Skips rr b w

write_record-Skips : (rr : ResourceRecord) → Skips (write_record rr)
unfolding write_record
write_record-Skips rr b w =
    ap (write_behind_name rr rr.rdata) (write_wire_uncompressed-Skips rr.name b w)
    ∙ write_behind_name-Skips rr rr.rdata b _

write_question-Skips : (q : DnsQuestion) → Skips (write_question q)
unfolding write_question write_u16
write_question-Skips q b w = simp write_wire_uncompressed-Skips

write_section-Skips {ℓ} :
    {A : Type ℓ} (write_entry : A → WireWriter → WireWriter)
    → ((x : A) → Skips (write_entry x))
    → (section : List A) → Skips (write_section write_entry section)
unfolding write_section
write_section-Skips write_entry s [] b w = refl
write_section-Skips write_entry s (x ∷ section) b w =
    ap (write_section write_entry section) (s x b w) ∙ write_section-Skips write_entry s section b _

-- The sections, behind a header.
sections : DnsMessage → WireWriter → WireWriter
sections m w = write_section write_record m.additionals (
    write_section write_record m.authorities
      (write_section write_record m.answers (write_section write_question m.questions w)))

sections-Skips : (m : DnsMessage) → Skips (sections m)
unfolding sections
sections-Skips m b w =
    let records = write_section-Skips write_record write_record-Skips in
    let additionals = write_section write_record m.additionals in
    let authorities = write_section write_record m.authorities in
    let answers = write_section write_record m.answers in
    ap (λ w. additionals (authorities (answers w)))
      (write_section-Skips write_question write_question-Skips m.questions b w)
    ∙ ap (λ w. additionals (authorities w)) (records m.answers b _)
    ∙ ap additionals (records m.authorities b _)
    ∙ records m.additionals b _

-- The wire form without the two bytes of the identifier.
behind_id : DnsMessage → List ℕ
behind_id m = sections m (drop 2 (Header.write m.header []))

to_wire-front :
    (m : DnsMessage) → to_wire m ≡ (m.header.id / 256) ∷ (m.header.id % 256) ∷ behind_id m
unfolding to_wire write_to sections behind_id Header.write write_u16
to_wire-front m =
    sections-Skips m (m.header.id / 256) _
    ∙ ap (λ w. (m.header.id / 256) ∷ w) (sections-Skips m (m.header.id % 256) _)

-- Replacing the first two bytes of a wire form by those of an identifier gives the wire form of the
-- message under that identifier.
pub set-to_wire :
    (id : ℕ) (m : DnsMessage)
    → set (set (to_wire m) 0 (id / 256 % 256)) 1 (id % 256)
      ≡ to_wire (record m { header = record m.header { id = id % 65536 } })
unfolding behind_id sections write_section Header.write Header.flags_of_header write_u16
set-to_wire id m =
    let high : id / 256 % 256 ≡ id % 65536 / 256 = omega arith in
    let low : id % 256 ≡ id % 65536 % 256 = omega arith in
    ap (λ (w : List ℕ). set (set w 0 (id / 256 % 256)) 1 (id % 256)) (to_wire-front m)
    ∙ (λ i. high i ∷ low i ∷ behind_id m)
    ∙ sym (to_wire-front (record m { header = record m.header { id = id % 65536 } }))
