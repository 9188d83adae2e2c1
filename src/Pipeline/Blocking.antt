-- ===== src/Pipeline/Blocking.antt =====
-- The responses that are made on the spot: for static addresses, for a blocked domain, for a query that
-- cannot be read.
use border_dns.Prelude.{
  ℕ, Bool, false, ◌||◌, Option, none, some, List, [], ◌∷◌, if◌then◌else◌, unwrap_or,
}
use border_dns.Text.{Text, eq_ignore_ascii_case}
use border_dns.Types.Error.{ok, err}
use border_dns.Types.Codes.{QType, exact, RecordType, a, aaaa, soa, inet, as_record_type}
use border_dns.Types.Names.{type_name}
use border_dns.Protocol.Header.{response_header, form_err, no_error}
use border_dns.Protocol.Name.{DomainName, root}
use border_dns.Protocol.Name.Display.{from_str}
use border_dns.Protocol.Rr.{ResourceRecord, RData, a_data, aaaa_data, soa_data}
use border_dns.Protocol.Message.{DnsMessage, response, add_answer, add_authority}
use border_dns.Geo.{IpAddr, v4, v6}
use border_dns.Pipeline.Build.{BlockConfig}

abbrev pub address_data : IpAddr → RData
address_data (v4 octets) = a_data octets
address_data (v6 octets) = aaaa_data octets

unfoldable pub add_addresses : DomainName → RecordType → ℕ → List IpAddr → DnsMessage → DnsMessage
add_addresses domain rr_type ttl [] resp = resp
add_addresses domain rr_type ttl (ip ∷ ips) resp = add_addresses domain rr_type ttl ips (
    add_answer
      (record {
        name = domain;
        rr_type = rr_type;
        class = inet;
        ttl = ttl;
        rdata = address_data ip;
      })
      resp)

-- The response of the hosts override.
unfoldable pub hosts_response : QType → DomainName → ℕ → List IpAddr → DnsMessage → DnsMessage
hosts_response qtype domain ttl ips query =
    add_addresses domain (unwrap_or (as_record_type qtype) a) ttl ips (response query)

-- `block.borderdns.local`
abbrev pub soa_text : Text
soa_text =
    b'b' ∷ b'l' ∷ b'o' ∷ b'c' ∷ b'k' ∷ b'.' ∷ b'b' ∷ b'o' ∷ b'r' ∷ b'd' ∷ b'e' ∷ b'r' ∷ b'd' ∷ b'n'
    ∷ b's' ∷ b'.' ∷ b'l' ∷ b'o' ∷ b'c' ∷ b'a' ∷ b'l' ∷ []

unfoldable pub soa_name : DomainName
soa_name = elim (from_str soa_text) [ ok name ↦ name | err _ ↦ root ]

unfoldable pub build_soa_suppress_response : DnsMessage → DomainName → DnsMessage
build_soa_suppress_response resp domain =
    let fresh_response = response resp in
    add_authority
      (record {
        name = domain;
        rr_type = soa;
        class = inet;
        ttl = 60;
        rdata = soa_data (record {
          mname = soa_name;
          rname = soa_name;
          serial = 1;
          refresh = 900;
          retry = 900;
          expire = 1800;
          minimum = 60;
        });
      })
      (record fresh_response { header = record fresh_response.header { rcode = no_error } })

unfoldable pub named_in : List ℕ → List Text → Bool
named_in name [] = false
named_in name (s ∷ names) = eq_ignore_ascii_case s name || named_in name names

unfoldable pub qtype_suppressed : BlockConfig → QType → Bool
qtype_suppressed block qtype = elim (as_record_type qtype) [
  | some rt ↦ named_in (type_name rt) block.suppress_qtypes
  | none ↦ false
]

abbrev pub sinkhole_record : DomainName → RecordType → RData → ResourceRecord
sinkhole_record domain rr_type rdata = record {
  name = domain;
  rr_type = rr_type;
  class = inet;
  ttl = 60;
  rdata = rdata;
}

-- `LOCALHOST` and `UNSPECIFIED`
abbrev pub localhost : List ℕ
localhost = 127 ∷ 0 ∷ 0 ∷ 1 ∷ []

abbrev pub unspecified : List ℕ
unspecified = 0 ∷ 0 ∷ 0 ∷ 0 ∷ 0 ∷ 0 ∷ 0 ∷ 0 ∷ 0 ∷ 0 ∷ 0 ∷ 0 ∷ 0 ∷ 0 ∷ 0 ∷ 0 ∷ []

module _ (parse_ipv4 parse_ipv6 : Text → Option (List ℕ)) where
  unfoldable pub blackhole_response : BlockConfig → DomainName → QType → DnsMessage → DnsMessage
  blackhole_response block domain (exact a) resp =
      add_answer
        (sinkhole_record domain a (a_data (unwrap_or (parse_ipv4 block.blackhole_ipv4) localhost)))
        resp
  blackhole_response block domain (exact aaaa) resp =
      add_answer
        (sinkhole_record domain aaaa
          (aaaa_data (unwrap_or (parse_ipv6 block.blackhole_ipv6) unspecified)))
        resp
  blackhole_response block domain _ resp = build_soa_suppress_response resp domain

  unfoldable pub build_block_response : BlockConfig → DnsMessage → QType → DomainName → DnsMessage
  build_block_response block query qtype domain =
      if qtype_suppressed block qtype
      then build_soa_suppress_response (response query) domain
      else blackhole_response block domain qtype (response query)

unfoldable pub malformed_response : DnsMessage
malformed_response = record {
  header = record (response_header 0 false) { rcode = form_err };
  questions = [];
  answers = [];
  authorities = [];
  additionals = [];
}
