-- ===== src/Types/Codes.antt =====
-- crates/dns-types/src/record_type.rs and record_class.rs: type and class codes.
pub mod RoundTrip
mod Examples
use border_dns.Prelude.{ℕ, Option, some, none, ◌==◌, if◌then◌else◌, Bool, true, false}

pub data RecordType : Type 0 where
  a ns cname soa ptr mx txt aaaa srv svcb https opt : RecordType
  unknown : ℕ → RecordType

unfoldable pub record_type_from_u16 : ℕ → RecordType
record_type_from_u16 value =
    if value == 1
    then a
    else if value == 2
    then ns
    else if value == 5
    then cname
    else if value == 6
    then soa
    else if value == 12
    then ptr
    else if value == 15
    then mx
    else if value == 16
    then txt
    else if value == 28
    then aaaa
    else if value == 33
    then srv
    else if value == 41
    then opt
    else if value == 64
    then svcb
    else if value == 65
    then https
    else unknown value

unfoldable pub record_type_as_u16 : RecordType → ℕ
record_type_as_u16 a = 1
record_type_as_u16 ns = 2
record_type_as_u16 cname = 5
record_type_as_u16 soa = 6
record_type_as_u16 ptr = 12
record_type_as_u16 mx = 15
record_type_as_u16 txt = 16
record_type_as_u16 aaaa = 28
record_type_as_u16 srv = 33
record_type_as_u16 opt = 41
record_type_as_u16 svcb = 64
record_type_as_u16 https = 65
record_type_as_u16 (unknown v) = v

pub has_name_rdata : RecordType → Bool
has_name_rdata cname = true
has_name_rdata ns = true
has_name_rdata ptr = true
has_name_rdata mx = true
has_name_rdata soa = true
has_name_rdata srv = true
has_name_rdata _ = false

pub data QType : Type 0 where
  exact : RecordType → QType
  all axfr mailb maila : QType

unfoldable pub qtype_from_u16 : ℕ → QType
qtype_from_u16 value =
    if value == 252
    then axfr
    else if value == 253
    then mailb
    else if value == 254
    then maila
    else if value == 255
    then all
    else exact (record_type_from_u16 value)

unfoldable pub qtype_as_u16 : QType → ℕ
qtype_as_u16 (exact rt) = record_type_as_u16 rt
qtype_as_u16 all = 255
qtype_as_u16 axfr = 252
qtype_as_u16 mailb = 253
qtype_as_u16 maila = 254

pub as_record_type : QType → Option RecordType
as_record_type (exact rt) = some rt
as_record_type _ = none

pub data RecordClass : Type 0 where
  inet ch hs : RecordClass
  unknown : ℕ → RecordClass

unfoldable pub record_class_from_u16 : ℕ → RecordClass
record_class_from_u16 value =
    if value == 1
    then inet
    else if value == 3
    then ch
    else if value == 4
    then hs
    else RecordClass.unknown value

unfoldable pub record_class_as_u16 : RecordClass → ℕ
record_class_as_u16 inet = 1
record_class_as_u16 ch = 3
record_class_as_u16 hs = 4
record_class_as_u16 (RecordClass.unknown v) = v

pub data QClass : Type 0 where
  class : RecordClass → QClass
  any : QClass

unfoldable pub qclass_from_u16 : ℕ → QClass
qclass_from_u16 value = if value == 255 then any else class (record_class_from_u16 value)

unfoldable pub qclass_as_u16 : QClass → ℕ
qclass_as_u16 (class rc) = record_class_as_u16 rc
qclass_as_u16 any = 255
