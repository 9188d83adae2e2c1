-- ===== src/Protocol/Rr.antt =====
-- crates/dns-protocol/src/rr.rs: resource records. An IP address is the list of its octets.
pub mod Sound
pub mod Extent
mod Examples
mod Fields
unfoldable pub use Fields.*
use border_dns.Prelude.{
  ℕ, zero, suc, ◌+◌, ◌-◌, ◌*◌, ◌/◌, ◌%◌, ◌^◌, Bool, true, false, List, [], ◌∷◌, ◌++◌, length, set,
  ltb, leb, ◌==◌, if◌then◌else◌, bit_or,
}
use border_dns.Types.Error.{err, ok, rd_length_exceeds_buffer, malformed_rdata}
use border_dns.Types.Codes.{
  RecordType, a, ns, cname, soa, ptr, mx, txt, aaaa, srv, svcb, https, opt, unknown, RecordClass,
  record_type_from_u16, record_type_as_u16, record_class_from_u16, record_class_as_u16,
}
use border_dns.Protocol.Wire.{
  WireReader, WireWriter, Read, ◌>>=◌, ◌>>◌, pure, remaining, read_u8, read_u16, read_u32,
  read_bytes, write_u8, write_u16, write_u32, write_bytes,
}
use border_dns.Protocol.Name.{DomainName, read_name, write_wire_uncompressed}

unfoldable pub pos_of : Read ℕ
pos_of r = ok (r.pos, r)

unfoldable pub read_svcb : List ℕ → ℕ → Read SvcbRecord
read_svcb message rdata_end = do
  priority ← read_u16
  target ← read_name message
  pos ← pos_of
  svc_params ← read_bytes (rdata_end - pos)
  pure (record { priority = priority; target = target; svc_params = svc_params })

-- A round takes a byte at least, so `rdata_end` less the position bounds the rounds.
unfoldable pub txt_loop : ℕ → ℕ → List (List ℕ) → Read (List (List ℕ))
txt_loop zero rdata_end strings r = ok (strings, r)
txt_loop (suc fuel) rdata_end strings r =
    let more =
      (read_u8 >>= λ len.
      read_bytes len >>= λ bytes. txt_loop fuel rdata_end (strings ++ (bytes ∷ [])))
        r in
    if ltb r.pos rdata_end then more else ok (strings, r)

-- The length that a malformed address names at the end of its message is left out.
unfoldable pub read_body : RecordType → ℕ → ℕ → List ℕ → Read RData
read_body a rdlength rdata_end message =
    if rdlength == 4 then (read_bytes 4 >>= λ octets. pure (a_data octets)) else λ _.
    err (malformed_rdata 1 "A record RDLENGTH must be 4")
read_body aaaa rdlength rdata_end message =
    if rdlength == 16 then (read_bytes 16 >>= λ octets. pure (aaaa_data octets)) else λ _.
    err (malformed_rdata 28 "AAAA record RDLENGTH must be 16")
read_body cname rdlength rdata_end message = read_name message >>= λ n. pure (cname_data n)
read_body ns rdlength rdata_end message = read_name message >>= λ n. pure (ns_data n)
read_body ptr rdlength rdata_end message = read_name message >>= λ n. pure (ptr_data n)
read_body mx rdlength rdata_end message = read_mx message >>= λ m. pure (mx_data m)
read_body soa rdlength rdata_end message = read_soa message >>= λ s. pure (soa_data s)
read_body txt rdlength rdata_end message = txt_loop rdlength rdata_end [] >>= λ s. pure (txt_data s)
read_body srv rdlength rdata_end message = read_srv message >>= λ s. pure (srv_data s)
read_body svcb rdlength rdata_end message = read_svcb message rdata_end >>= λ s. pure (svcb_data s)
read_body https rdlength rdata_end message =
    read_svcb message rdata_end >>= λ s. pure (https_data s)
read_body opt rdlength rdata_end message = read_bytes rdlength >>= λ options. pure (
    opt_data (record {
      udp_payload_size = 0;
      extended_rcode = 0;
      version = 0;
      do_flag = false;
      options = options;
    }))
read_body (unknown v) rdlength rdata_end message =
    read_bytes rdlength >>= λ bytes. pure (unknown_data v bytes)

-- What `rdata` left of its `rdlength` bytes from `start` on is skipped.
unfoldable pub skip_rest : ℕ → ℕ → RData → Read RData
skip_rest start rdlength rdata r =
    let skip = rdlength - (r.pos - start) in
    if r.pos - start == rdlength
    then ok (rdata, r)
    else if ltb 0 skip
    then (read_bytes skip >> pure rdata) r
    else ok (rdata, r)

unfoldable pub read_rdata : RecordType → ℕ → List ℕ → Read RData
read_rdata rr_type rdlength message r =
    let rdata_end = r.pos + rdlength in
    if ltb (length message) rdata_end
    then err (rd_length_exceeds_buffer rdlength (remaining r))
    else (read_body rr_type rdlength rdata_end message >>= skip_rest r.pos rdlength) r

unfoldable pub write_strings : List (List ℕ) → WireWriter → WireWriter
write_strings [] w = w
write_strings (s ∷ strings) w = write_strings strings (write_bytes s (write_u8 (length s % 256) w))

unfoldable pub write_svcb : SvcbRecord → WireWriter → WireWriter
write_svcb s w =
    write_bytes s.svc_params (write_wire_uncompressed s.target (write_u16 s.priority w))

unfoldable pub write_rdata : RData → WireWriter → WireWriter
write_rdata (a_data octets) w = write_bytes octets w
write_rdata (aaaa_data octets) w = write_bytes octets w
write_rdata (cname_data n) w = write_wire_uncompressed n w
write_rdata (ns_data n) w = write_wire_uncompressed n w
write_rdata (ptr_data n) w = write_wire_uncompressed n w
write_rdata (mx_data m) w = write_mx m w
write_rdata (txt_data strings) w = write_strings strings w
write_rdata (soa_data s) w = write_soa s w
write_rdata (srv_data s) w = write_srv s w
write_rdata (svcb_data s) w = write_svcb s w
write_rdata (https_data s) w = write_svcb s w
write_rdata (opt_data o) w = write_bytes o.options w
write_rdata (unknown_data v bytes) w = write_bytes bytes w

pub record ResourceRecord : Type 0 where
  pub name : DomainName
  pub rr_type : RecordType
  pub class : RecordClass
  pub ttl : ℕ
  pub rdata : RData

unfoldable pub is_opt : RecordType → Bool
is_opt opt = true
is_opt _ = false

-- The OPT pseudo-record takes its fields from the class and the TTL.
unfoldable pub read_opt : ℕ → ℕ → ℕ → Read RData
read_opt class_raw ttl rdlength = read_bytes rdlength >>= λ options. pure (
    opt_data (record {
      udp_payload_size = class_raw;
      extended_rcode = ttl / 2 ^ 24 % 256;
      version = ttl / 2 ^ 16 % 256;
      do_flag = ttl / 2 ^ 15 % 2 == 1;
      options = options;
    }))

unfoldable pub read_record : List ℕ → Read ResourceRecord
read_record message = do
  name ← read_name message
  rr_type_raw ← read_u16
  class_raw ← read_u16
  ttl ← read_u32
  rdlength ← read_u16
  let rr_type = record_type_from_u16 rr_type_raw
  rdata ←
      if is_opt rr_type
      then read_opt class_raw ttl rdlength
      else read_rdata rr_type rdlength message
  pure (record {
    name = name;
    rr_type = rr_type;
    class = record_class_from_u16 class_raw;
    ttl = ttl;
    rdata = rdata;
  })

unfoldable pub opt_ttl_field : OptRecord → ℕ
opt_ttl_field o =
    let ttl_field = bit_or (o.extended_rcode * 2 ^ 24) (o.version * 2 ^ 16) in
    if o.do_flag then bit_or ttl_field 0x8000 else ttl_field

unfoldable pub write_opt : ResourceRecord → OptRecord → WireWriter → WireWriter
write_opt rr o w =
    let w = write_u16 o.udp_payload_size (write_u16 (record_type_as_u16 rr.rr_type) w) in
    let w = write_u16 (length o.options % 65536) (write_u32 (opt_ttl_field o) w) in
    write_bytes o.options w

-- RDLENGTH is written as zero, and put right once the data is there.
unfoldable pub write_plain : ResourceRecord → WireWriter → WireWriter
write_plain rr w =
    let w =
      write_u16 (record_class_as_u16 rr.class) (write_u16 (record_type_as_u16 rr.rr_type) w) in
    let w = write_u32 rr.ttl w in
    let filled = write_rdata rr.rdata (write_u16 0 w) in
    let rdata_len = (length filled - length (write_u16 0 w)) % 65536 in
    set (set filled (length w) (rdata_len / 256)) (length w + 1) (rdata_len % 256)

unfoldable pub write_record : ResourceRecord → WireWriter → WireWriter
write_record rr w =
    let w = write_wire_uncompressed rr.name w in
    elim rr.rdata [ opt_data o ↦ write_opt rr o w | _ ↦ write_plain rr w ]
