-- ===== src/Protocol/Header/RoundTrip.antt =====
-- A header that is written is read back.
use border_dns.Prelude.{
  ℕ, suc, ◌+◌, ◌*◌, ◌/◌, ◌%◌, ◌^◌, ◌≤◌, ◌<◌, ◌≡◌, refl, ap, ◌∙◌, Bool, true, false, ◌==◌, bit_or,
  bit_or_above, arith, List, [], ◌++◌, append_assoc, length,
}
use native.Mathlib.Nat.{pow-suc, one-le-pow}
use border_dns.Protocol.Wire.{WireReader, write_u16, u16_to_be_bytes}
use border_dns.Protocol.Wire.Laws.{
  ahead, advance, Decodes, Decodes-pure_eq, Decodes->>=, read_u16-Decodes,
}
use border_dns.Types.Error.{ok}
use border_dns.Protocol.Header.{
  OpCode, opcode_from_u8, opcode_as_u8, response_code_from_u8, response_code_as_u8, DnsHeader,
  header_of_flags, read, set_flag, flags_of_header, write,
}

abbrev bit : Bool → ℕ
bit true = 1
bit false = 0

or_power : (k value : ℕ) → value % 2 ^ suc k ≡ 0 → bit_or value (2 ^ k) ≡ value + 1 * 2 ^ k
or_power k value h =
    bit_or_above (suc k) value (2 ^ k) h (omega (arith, pow-suc 2 k, one-le-pow k 2 (omega arith)))
    ∙ omega arith

bit_small : (b : Bool) → bit b ≤ 1
bit_small b = ground arith

-- One step of the ladder, over what the flags are worth so far.
set_flag_sum :
    (set : Bool) (k : ℕ) {flags value : ℕ}
    → flags ≡ value
    → value % 2 ^ suc k ≡ 0
    → set_flag set k flags ≡ value + bit set * 2 ^ k
unfolding set_flag
set_flag_sum true k {flags} {value} e h = rw e (or_power k value h)
set_flag_sum false k e h = omega arith

or_sum :
    (k b : ℕ) {flags value : ℕ}
    → flags ≡ value
    → value % 2 ^ k ≡ 0
    → b < 2 ^ k
    → bit_or flags b ≡ value + b
or_sum k b {flags} {value} e h l = rw e (bit_or_above k value b h l)

-- Fields in range: the counts and the identifier fit sixteen bits, `z` three, and the codes are
-- such as `read` makes.
pub record IsValid (h : DnsHeader) : Type 0 where
  pub id_small : h.id < 2 ^ 16
  pub opcode_value : opcode_from_u8 (opcode_as_u8 h.opcode) ≡ h.opcode
  pub z_small : h.z < 8
  pub rcode_small : response_code_as_u8 h.rcode < 16
  pub rcode_value : response_code_from_u8 (response_code_as_u8 h.rcode) ≡ h.rcode
  pub qdcount_small : h.qdcount < 2 ^ 16
  pub ancount_small : h.ancount < 2 ^ 16
  pub nscount_small : h.nscount < 2 ^ 16
  pub arcount_small : h.arcount < 2 ^ 16

opcode_small : (o : OpCode) → opcode_as_u8 o < 16
unfolding opcode_as_u8
opcode_small o = ground arith

flags_sum :
    (h : DnsHeader)
    → IsValid h
    → flags_of_header h
      ≡ bit h.qr * 2 ^ 15
        + opcode_as_u8 h.opcode * 2 ^ 11
        + bit h.aa * 2 ^ 10
        + bit h.tc * 2 ^ 9
        + bit h.rd * 2 ^ 8
        + bit h.ra * 2 ^ 7
        + h.z * 2 ^ 4
        + response_code_as_u8 h.rcode
unfolding flags_of_header
flags_sum h v =
    let s1 = set_flag_sum h.qr 15 {value = 0} refl refl in
    let s2 =
      or_sum 15 (opcode_as_u8 h.opcode * 2 ^ 11 % 65536) s1 (omega arith)
        (omega (arith, opcode_small h.opcode)) in
    let s3 = set_flag_sum h.aa 10 s2 (omega arith) in
    let s4 = set_flag_sum h.tc 9 s3 (omega arith) in
    let s5 = set_flag_sum h.rd 8 s4 (omega arith) in
    let s6 = set_flag_sum h.ra 7 s5 (omega arith) in
    let s7 = or_sum 7 (h.z * 2 ^ 4 % 65536) s6 (omega arith) (omega (arith, v.z_small)) in
    let s8 =
      or_sum 4 (response_code_as_u8 h.rcode) s7 (omega arith) (omega (arith, v.rcode_small)) in
    s8 ∙ omega (arith, v.z_small, opcode_small h.opcode)

pub bytes : DnsHeader → List ℕ
bytes h =
    u16_to_be_bytes h.id
    ++ (u16_to_be_bytes (flags_of_header h)
        ++ (u16_to_be_bytes h.qdcount
            ++ (u16_to_be_bytes h.ancount
                ++ (u16_to_be_bytes h.nscount ++ (u16_to_be_bytes h.arcount ++ [])))))

flags_small : (h : DnsHeader) → IsValid h → flags_of_header h < 2 ^ 16
flags_small h v = omega (
  arith,
  flags_sum h v,
  opcode_small h.opcode,
  bit_small h.qr,
  bit_small h.aa,
  bit_small h.tc,
  bit_small h.rd,
  bit_small h.ra,
  v.rcode_small,
  v.z_small,
)

test_bit : (b : Bool) {n : ℕ} → n ≡ bit b → (n == 1) ≡ b
test_bit b e = ground arith

fields_of_sum :
    (qr op aa tc rd ra z rc flags : ℕ)
    → flags
      ≡ qr * 2 ^ 15
        + op * 2 ^ 11
        + aa * 2 ^ 10
        + tc * 2 ^ 9
        + rd * 2 ^ 8
        + ra * 2 ^ 7
        + z * 2 ^ 4
        + rc
    → qr ≤ 1
    → op < 16
    → aa ≤ 1
    → tc ≤ 1
    → rd ≤ 1
    → ra ≤ 1
    → z < 8
    → rc < 16
    → (flags / 2 ^ 15 % 2 ≡ qr)
      × (flags / 2 ^ 11 % 16 ≡ op)
      × (flags / 2 ^ 10 % 2 ≡ aa)
      × (flags / 2 ^ 9 % 2 ≡ tc)
      × (flags / 2 ^ 8 % 2 ≡ rd)
      × (flags / 2 ^ 7 % 2 ≡ ra)
      × (flags / 2 ^ 4 % 8 ≡ z)
      × (flags % 16 ≡ rc)
fields_of_sum qr op aa tc rd ra z rc flags e h1 h2 h3 h4 h5 h6 h7 h8 = omega arith

-- Each field is taken from where it was put.
header_of_flags-flags :
    (h : DnsHeader)
    → IsValid h
    → header_of_flags h.id (flags_of_header h) h.qdcount h.ancount h.nscount h.arcount ≡ h
unfolding header_of_flags
header_of_flags-flags h v =
    let (qr, op, aa, tc, rd, ra, z, rc) =
      fields_of_sum (bit h.qr) (opcode_as_u8 h.opcode) (bit h.aa) (bit h.tc) (bit h.rd) (bit h.ra)
        h.z (response_code_as_u8 h.rcode) (flags_of_header h) (flags_sum h v) (bit_small h.qr)
        (opcode_small h.opcode) (bit_small h.aa) (bit_small h.tc) (bit_small h.rd) (bit_small h.ra)
        v.z_small v.rcode_small in
    λ i. record {
      id = h.id;
      qr = test_bit h.qr qr i;
      opcode = (ap opcode_from_u8 op ∙ v.opcode_value) i;
      aa = test_bit h.aa aa i;
      tc = test_bit h.tc tc i;
      rd = test_bit h.rd rd i;
      ra = test_bit h.ra ra i;
      z = z i;
      rcode = (ap response_code_from_u8 rc ∙ v.rcode_value) i;
      qdcount = h.qdcount;
      ancount = h.ancount;
      nscount = h.nscount;
      arcount = h.arcount;
    }

pub read-bytes : (h : DnsHeader) → IsValid h → Decodes read (bytes h) h
unfolding read bytes
read-bytes h v = Decodes->>= _ (read_u16-Decodes h.id v.id_small) (
    Decodes->>= _ (read_u16-Decodes (flags_of_header h) (flags_small h v)) (
      Decodes->>= _ (read_u16-Decodes h.qdcount v.qdcount_small) (
        Decodes->>= _ (read_u16-Decodes h.ancount v.ancount_small) (
          Decodes->>= _ (read_u16-Decodes h.nscount v.nscount_small) (
            Decodes->>= _ (read_u16-Decodes h.arcount v.arcount_small)
              (Decodes-pure_eq (header_of_flags-flags h v)))))))

pub length-bytes : (h : DnsHeader) → length (bytes h) ≡ 12
unfolding bytes
length-bytes h = refl

pub write-bytes : (h : DnsHeader) (w : List ℕ) → write h w ≡ w ++ bytes h
unfolding write write_u16 bytes
write-bytes h w = simp append_assoc

-- A header whose fields are in range is read back from what `write` appends to any output, wherever
-- that output ends up ahead of a reader; the reader moves on by the twelve bytes written.
pub read-write :
    (h : DnsHeader) (r : WireReader) (rest : List ℕ)
    → IsValid h
    → ahead r ≡ write h [] ++ rest
    → (read r ≡ ok (h, advance 12 r)) × (length (write h []) ≡ 12)
unfolding bytes
read-write h r rest v e = (
  (read-bytes h v).apply r rest (e ∙ ap (λ w. w ++ rest) (write-bytes h [])),
  ap length (write-bytes h []),
)
