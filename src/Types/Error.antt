-- ===== src/Types/Error.antt =====
-- crates/dns-types/src/error.rs: the errors of the protocol operations.
use Prim.Native.String.{String}
use border_dns.Prelude.{ℕ, ◌≡◌, refl, ◌⊎◌, inl, inr}

-- `SectionCountMismatch` names its section; the static string is the first field.
pub data ProtocolError : Type 0 where
  buffer_underflow : (need have : ℕ) → ProtocolError
  name_too_long : ℕ → ProtocolError
  label_too_long : ℕ → ProtocolError
  too_many_labels : ℕ → ProtocolError
  pointer_out_of_bounds : (pointer message_len : ℕ) → ProtocolError
  pointer_loop : (offset depth : ℕ) → ProtocolError
  pointer_chain_depth_exceeded : (depth max_depth : ℕ) → ProtocolError
  invalid_pointer_marker : (offset byte : ℕ) → ProtocolError
  rd_length_exceeds_buffer : (rdlength available : ℕ) → ProtocolError
  malformed_rdata : (rr_type : ℕ) (reason : String) → ProtocolError
  unsupported_record_type : ℕ → ProtocolError
  section_count_mismatch : (section : String) (expected decoded : ℕ) → ProtocolError
  unsupported_edns_version : ℕ → ProtocolError
  message_too_large : (size limit : ℕ) → ProtocolError
  svcb_malformed : String → ProtocolError
  soa_malformed : String → ProtocolError
  mx_malformed : String → ProtocolError
  tcp_frame_too_large : (length limit : ℕ) → ProtocolError
  decode_error : String → ProtocolError

-- Rust's `Result<A, ProtocolError>`.
pub data Result {ℓ} (A : Type ℓ) : Type ℓ where
  ok : A → Result A
  err : ProtocolError → Result A

-- The `?` operator.
infixl 5 ◌>>=◌
abbrev pub ◌>>=◌ {ℓ κ} : {A : Type ℓ} {B : Type κ} → Result A → (A → Result B) → Result B
ok a >>= f = f a
err e >>= f = err e

pub Result-cases {ℓ} :
    {A : Type ℓ} (r : Result A) → ((a : A) × (r ≡ ok a)) ⊎ ((e : ProtocolError) × (r ≡ err e))
Result-cases (ok a) = inl (a, refl)
Result-cases (err e) = inr (e, refl)
