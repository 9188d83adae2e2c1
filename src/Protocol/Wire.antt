-- ===== src/Protocol/Wire.antt =====
-- crates/dns-protocol/src/wire.rs: the reader over a message and the writer.
-- A byte slice is a list of numbers. The reader is passed through explicitly; on an error the
-- callers return it at once, so an error carries no reader.
pub mod Laws
pub mod Bounds
use border_dns.Prelude.{
  ℕ, ◌+◌, ◌-◌, ◌*◌, ◌/◌, ◌%◌, ◌^◌, ◌<◌, Bool, true, false, List, [], ◌∷◌, ◌++◌, length, get_or,
  take, drop, ltb, leb, ◌==◌, if◌then◌else◌,
}
use border_dns.Types.Error.{ProtocolError, Result, ok, err, buffer_underflow, decode_error}

pub record WireReader : Type 0 where
  pub buf : List ℕ
  pub pos : ℕ
  pub saved_pos : List ℕ

-- A method that may fail: the value and the reader after it.
abbrev pub Read {ℓ} : Type ℓ → Type ℓ
Read A = WireReader → Result (A × WireReader)

infixl 5 ◌>>=◌ ◌>>◌
abbrev pub ◌>>=◌ {ℓ κ} : {A : Type ℓ} {B : Type κ} → Read A → (A → Read B) → Read B
◌>>=◌ m f r = elim (m r) [ ok (a, s) ↦ f a s | err e ↦ err e ]

abbrev pub ◌>>◌ {ℓ κ} : {A : Type ℓ} {B : Type κ} → Read A → Read B → Read B
m >> k = m >>= λ _. k

abbrev pub pure {ℓ} : {A : Type ℓ} → A → Read A
pure a r = ok (a, r)

unfoldable pub new : List ℕ → WireReader
new buf = record { buf = buf; pos = 0; saved_pos = [] }

abbrev pub remaining : WireReader → ℕ
remaining r = length r.buf - r.pos

unfoldable pub set_pos : ℕ → Read (Unit {0})
set_pos new_pos r =
    if ltb (length r.buf) new_pos
    then err (buffer_underflow 0 (length r.buf - r.pos))
    else ok (tt, record r { pos = new_pos })

unfoldable pub save_position : WireReader → WireReader
save_position r = record r { saved_pos = r.pos ∷ r.saved_pos }

-- The head of `saved_pos` is the end of the source's vector.
unfoldable pub restore_position : Read (Unit {0})
restore_position r = elim r.saved_pos [
  | [] ↦ err (decode_error "no saved position to restore")
  | saved ∷ rest ↦ ok (tt, record r { pos = saved; saved_pos = rest })
]

unfoldable pub read_u8 : Read ℕ
read_u8 r =
    if leb (length r.buf) r.pos
    then err (buffer_underflow 1 0)
    else ok (get_or r.buf r.pos 0, record r { pos = r.pos + 1 })

abbrev pub u16_from_be_bytes : ℕ → ℕ → ℕ
u16_from_be_bytes a b = a * 256 + b

abbrev pub u32_from_be_bytes : ℕ → ℕ → ℕ → ℕ → ℕ
u32_from_be_bytes a b c d = ((a * 256 + b) * 256 + c) * 256 + d

unfoldable pub read_u16 : Read ℕ
read_u16 r =
    if ltb (remaining r) 2
    then err (buffer_underflow 2 (remaining r))
    else ok (
      u16_from_be_bytes (get_or r.buf r.pos 0) (get_or r.buf (r.pos + 1) 0),
      record r { pos = r.pos + 2 },
    )

unfoldable pub read_u32 : Read ℕ
read_u32 r =
    if ltb (remaining r) 4
    then err (buffer_underflow 4 (remaining r))
    else ok (
      u32_from_be_bytes (get_or r.buf r.pos 0) (get_or r.buf (r.pos + 1) 0)
          (get_or r.buf (r.pos + 2) 0) (get_or r.buf (r.pos + 3) 0),
      record r { pos = r.pos + 4 },
    )

unfoldable pub read_bytes : ℕ → Read (List ℕ)
read_bytes len r =
    if ltb (remaining r) len
    then err (buffer_underflow len (remaining r))
    else ok (take len (drop r.pos r.buf), record r { pos = r.pos + len })

unfoldable pub peek_u8 : Read ℕ
peek_u8 r =
    if leb (length r.buf) r.pos then err (buffer_underflow 1 0) else ok (get_or r.buf r.pos 0, r)

-- `b & 0xC0 == 0xC0` on a byte: the two top bits are set.
unfoldable pub is_compression_pointer : WireReader → Bool
is_compression_pointer r = elim (peek_u8 r) [ ok (b, _) ↦ b / 64 == 3 | err _ ↦ false ]

-- The writer is its buffer; every write appends.
abbrev pub WireWriter : Type 0
WireWriter = List ℕ

unfoldable pub write_u8 : ℕ → WireWriter → WireWriter
write_u8 val w = w ++ (val ∷ [])

abbrev pub u16_to_be_bytes : ℕ → List ℕ
u16_to_be_bytes v = (v / 256) ∷ (v % 256) ∷ []

abbrev pub u32_to_be_bytes : ℕ → List ℕ
u32_to_be_bytes v = (v / 256 / 256 / 256) ∷ (v / 256 / 256 % 256) ∷ (v / 256 % 256) ∷ (v % 256) ∷ []

unfoldable pub write_u16 : ℕ → WireWriter → WireWriter
write_u16 val w = w ++ u16_to_be_bytes val

unfoldable pub write_u32 : ℕ → WireWriter → WireWriter
write_u32 val w = w ++ u32_to_be_bytes val

unfoldable pub write_bytes : List ℕ → WireWriter → WireWriter
write_bytes bytes w = w ++ bytes
