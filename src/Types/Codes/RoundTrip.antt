-- ===== src/Types/Codes/RoundTrip.antt =====
-- Numbers to codes and back.
use border_dns.Prelude.{ℕ, ◌≡◌, refl, arith, ◌<◌, ◌^◌}
use border_dns.Types.Codes.{
  RecordType, record_type_from_u16, record_type_as_u16, QType, qtype_from_u16, qtype_as_u16,
  RecordClass, record_class_from_u16, record_class_as_u16, QClass, qclass_from_u16, qclass_as_u16,
}

-- A code keeps its number: what the constructors stand for is disjoint from what `unknown` holds.
pub record_type_as_u16-from_u16 : (v : ℕ) → record_type_as_u16 (record_type_from_u16 v) ≡ v
unfolding record_type_as_u16 record_type_from_u16
record_type_as_u16-from_u16 v = ground arith

pub record_class_as_u16-from_u16 : (v : ℕ) → record_class_as_u16 (record_class_from_u16 v) ≡ v
unfolding record_class_as_u16 record_class_from_u16
record_class_as_u16-from_u16 v = ground arith

-- No number is lost by a round through `QType`.
pub qtype_as_u16-from_u16 : (v : ℕ) → qtype_as_u16 (qtype_from_u16 v) ≡ v
unfolding qtype_as_u16 qtype_from_u16
qtype_as_u16-from_u16 v = ground (arith, record_type_as_u16-from_u16 v)

-- No number is lost by a round through `QClass`.
pub qclass_as_u16-from_u16 : (v : ℕ) → qclass_as_u16 (qclass_from_u16 v) ≡ v
unfolding qclass_as_u16 qclass_from_u16
qclass_as_u16-from_u16 v = ground (arith, record_class_as_u16-from_u16 v)

-- A value that some number stands for, so `unknown` does not hold a known code.
pub record IsQType (q : QType) : Type 0 where
  pub code : ℕ
  pub small : code < 2 ^ 16
  pub is_code : q ≡ qtype_from_u16 code

pub record IsQClass (q : QClass) : Type 0 where
  pub code : ℕ
  pub small : code < 2 ^ 16
  pub is_code : q ≡ qclass_from_u16 code

pub record IsRecordType (t : RecordType) : Type 0 where
  pub code : ℕ
  pub small : code < 2 ^ 16
  pub is_code : t ≡ record_type_from_u16 code

pub record IsRecordClass (c : RecordClass) : Type 0 where
  pub code : ℕ
  pub small : code < 2 ^ 16
  pub is_code : c ≡ record_class_from_u16 code

pub qtype_from_u16-as_u16 :
    (q : QType) → IsQType q → (qtype_from_u16 (qtype_as_u16 q) ≡ q) × (qtype_as_u16 q < 2 ^ 16)
qtype_from_u16-as_u16 q v = rw (v.is_code, qtype_as_u16-from_u16) (refl, v.small)

pub qclass_from_u16-as_u16 :
    (q : QClass) → IsQClass q → (qclass_from_u16 (qclass_as_u16 q) ≡ q) × (qclass_as_u16 q < 2 ^ 16)
qclass_from_u16-as_u16 q v = rw (v.is_code, qclass_as_u16-from_u16) (refl, v.small)

pub record_type_from_u16-as_u16 :
    (t : RecordType)
    → IsRecordType t
    → (record_type_from_u16 (record_type_as_u16 t) ≡ t) × (record_type_as_u16 t < 2 ^ 16)
record_type_from_u16-as_u16 t v = rw (v.is_code, record_type_as_u16-from_u16) (refl, v.small)

pub record_class_from_u16-as_u16 :
    (c : RecordClass)
    → IsRecordClass c
    → (record_class_from_u16 (record_class_as_u16 c) ≡ c) × (record_class_as_u16 c < 2 ^ 16)
record_class_from_u16-as_u16 c v = rw (v.is_code, record_class_as_u16-from_u16) (refl, v.small)
