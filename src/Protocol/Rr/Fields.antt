-- ===== src/Protocol/Rr/Fields.antt =====
-- crates/dns-protocol/src/rr.rs: the fields of the record types.
use border_dns.Prelude.{ℕ, Bool, List}
use border_dns.Protocol.Wire.{
  WireWriter, Read, ◌>>=◌, pure, read_u16, read_u32, write_u16, write_u32,
}
use border_dns.Protocol.Name.{DomainName, read_name, write_wire_uncompressed}

pub record SoaRecord : Type 0 where
  pub mname : DomainName
  pub rname : DomainName
  pub serial : ℕ
  pub refresh : ℕ
  pub retry : ℕ
  pub expire : ℕ
  pub minimum : ℕ

unfoldable pub read_soa : List ℕ → Read SoaRecord
read_soa message = do
  mname ← read_name message
  rname ← read_name message
  serial ← read_u32
  refresh ← read_u32
  retry ← read_u32
  expire ← read_u32
  minimum ← read_u32
  pure (record {
    mname = mname;
    rname = rname;
    serial = serial;
    refresh = refresh;
    retry = retry;
    expire = expire;
    minimum = minimum;
  })

unfoldable pub write_soa : SoaRecord → WireWriter → WireWriter
write_soa s w =
    let w = write_wire_uncompressed s.rname (write_wire_uncompressed s.mname w) in
    let w = write_u32 s.refresh (write_u32 s.serial w) in
    write_u32 s.minimum (write_u32 s.expire (write_u32 s.retry w))

pub record MxRecord : Type 0 where
  pub preference : ℕ
  pub exchange : DomainName

unfoldable pub read_mx : List ℕ → Read MxRecord
read_mx message = do
  preference ← read_u16
  exchange ← read_name message
  pure (record { preference = preference; exchange = exchange })

unfoldable pub write_mx : MxRecord → WireWriter → WireWriter
write_mx m w = write_wire_uncompressed m.exchange (write_u16 m.preference w)

pub record SrvRecord : Type 0 where
  pub priority : ℕ
  pub weight : ℕ
  pub port : ℕ
  pub target : DomainName

unfoldable pub read_srv : List ℕ → Read SrvRecord
read_srv message = do
  priority ← read_u16
  weight ← read_u16
  port ← read_u16
  target ← read_name message
  pure (record { priority = priority; weight = weight; port = port; target = target })

unfoldable pub write_srv : SrvRecord → WireWriter → WireWriter
write_srv s w =
    write_wire_uncompressed s.target
      (write_u16 s.port (write_u16 s.weight (write_u16 s.priority w)))

pub record SvcbRecord : Type 0 where
  pub priority : ℕ
  pub target : DomainName
  pub svc_params : List ℕ

pub record OptRecord : Type 0 where
  pub udp_payload_size : ℕ
  pub extended_rcode : ℕ
  pub version : ℕ
  pub do_flag : Bool
  pub options : List ℕ

pub data RData : Type 0 where
  a_data aaaa_data : List ℕ → RData
  cname_data ns_data ptr_data : DomainName → RData
  mx_data : MxRecord → RData
  txt_data : List (List ℕ) → RData
  soa_data : SoaRecord → RData
  srv_data : SrvRecord → RData
  svcb_data https_data : SvcbRecord → RData
  opt_data : OptRecord → RData
  unknown_data : (rr_type : ℕ) (bytes : List ℕ) → RData
