-- ===== src/Protocol/Header.antt =====
-- crates/dns-protocol/src/header.rs: the twelve bytes at the front of a message.
-- In `read`, `x >> k & (2^j - 1)` is `x / 2^k % 2^j`, and `x & 2^k != 0` is a test of that one bit.
pub mod RoundTrip
mod Examples
use border_dns.Prelude.{ℕ, ◌+◌, ◌*◌, ◌/◌, ◌%◌, ◌^◌, Bool, true, false, ◌==◌, if◌then◌else◌, bit_or}
use border_dns.Protocol.Wire.{WireReader, Read, ◌>>=◌, pure, read_u16, WireWriter, write_u16}

pub data OpCode : Type 0 where
  query iquery status notify update : OpCode
  unknown : ℕ → OpCode

unfoldable pub opcode_from_u8 : ℕ → OpCode
opcode_from_u8 value =
    if value == 0
    then query
    else if value == 1
    then iquery
    else if value == 2
    then status
    else if value == 4
    then notify
    else if value == 5
    then update
    else unknown (value % 16)

unfoldable pub opcode_as_u8 : OpCode → ℕ
opcode_as_u8 query = 0
opcode_as_u8 iquery = 1
opcode_as_u8 status = 2
opcode_as_u8 notify = 4
opcode_as_u8 update = 5
opcode_as_u8 (unknown v) = v % 16

pub data ResponseCode : Type 0 where
  no_error form_err serv_fail nx_domain not_imp refused : ResponseCode
  unknown : ℕ → ResponseCode

unfoldable pub response_code_from_u8 : ℕ → ResponseCode
response_code_from_u8 value =
    if value == 0
    then no_error
    else if value == 1
    then form_err
    else if value == 2
    then serv_fail
    else if value == 3
    then nx_domain
    else if value == 4
    then not_imp
    else if value == 5
    then refused
    else ResponseCode.unknown value

unfoldable pub response_code_as_u8 : ResponseCode → ℕ
response_code_as_u8 no_error = 0
response_code_as_u8 form_err = 1
response_code_as_u8 serv_fail = 2
response_code_as_u8 nx_domain = 3
response_code_as_u8 not_imp = 4
response_code_as_u8 refused = 5
response_code_as_u8 (ResponseCode.unknown v) = v

pub record DnsHeader : Type 0 where
  pub id : ℕ
  pub qr : Bool
  pub opcode : OpCode
  pub aa : Bool
  pub tc : Bool
  pub rd : Bool
  pub ra : Bool
  pub z : ℕ
  pub rcode : ResponseCode
  pub qdcount : ℕ
  pub ancount : ℕ
  pub nscount : ℕ
  pub arcount : ℕ

abbrev pub wire_size : ℕ
wire_size = 12

-- `DnsHeader::query`
unfoldable pub query_header : ℕ → DnsHeader
query_header id = record {
  id = id;
  qr = false;
  opcode = query;
  aa = false;
  tc = false;
  rd = true;
  ra = false;
  z = 0;
  rcode = no_error;
  qdcount = 0;
  ancount = 0;
  nscount = 0;
  arcount = 0;
}

-- `DnsHeader::response`
unfoldable pub response_header : ℕ → Bool → DnsHeader
response_header id rd = record {
  id = id;
  qr = true;
  opcode = query;
  aa = false;
  tc = false;
  rd = rd;
  ra = true;
  z = 0;
  rcode = no_error;
  qdcount = 0;
  ancount = 0;
  nscount = 0;
  arcount = 0;
}

-- `flags & 2^k != 0`
abbrev pub has_bit : ℕ → ℕ → Bool
has_bit flags k = flags / 2 ^ k % 2 == 1

-- The fields of the second sixteen bits.
unfoldable pub header_of_flags : ℕ → ℕ → ℕ → ℕ → ℕ → ℕ → DnsHeader
header_of_flags id flags qdcount ancount nscount arcount = record {
  id = id;
  qr = has_bit flags 15;
  opcode = opcode_from_u8 (flags / 2 ^ 11 % 16);
  aa = has_bit flags 10;
  tc = has_bit flags 9;
  rd = has_bit flags 8;
  ra = has_bit flags 7;
  z = flags / 2 ^ 4 % 8;
  rcode = response_code_from_u8 (flags % 16);
  qdcount = qdcount;
  ancount = ancount;
  nscount = nscount;
  arcount = arcount;
}

unfoldable pub read : Read DnsHeader
read = do
  id ← read_u16
  flags ← read_u16
  qdcount ← read_u16
  ancount ← read_u16
  nscount ← read_u16
  arcount ← read_u16
  pure (header_of_flags id flags qdcount ancount nscount arcount)

-- `if set { flags |= 2^k; }`
unfoldable pub set_flag : Bool → ℕ → ℕ → ℕ
set_flag set k flags = if set then bit_or flags (2 ^ k) else flags

-- The shifted fields wrap at sixteen bits.
unfoldable pub flags_of_header : DnsHeader → ℕ
flags_of_header h =
    let flags = set_flag h.qr 15 0 in
    let flags = bit_or flags (opcode_as_u8 h.opcode * 2 ^ 11 % 65536) in
    let flags = set_flag h.aa 10 flags in
    let flags = set_flag h.tc 9 flags in
    let flags = set_flag h.rd 8 flags in
    let flags = set_flag h.ra 7 flags in
    let flags = bit_or flags (h.z * 2 ^ 4 % 65536) in bit_or flags (response_code_as_u8 h.rcode)

unfoldable pub write : DnsHeader → WireWriter → WireWriter
write h w =
    let w = write_u16 h.id w in
    let w = write_u16 (flags_of_header h) w in
    let w = write_u16 h.qdcount w in
    let w = write_u16 h.ancount w in let w = write_u16 h.nscount w in write_u16 h.arcount w
