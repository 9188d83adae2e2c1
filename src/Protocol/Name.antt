-- ===== src/Protocol/Name.antt =====
-- crates/dns-protocol/src/name.rs: domain names, their wire format and compression pointers.
pub mod Valid
pub mod RoundTrip
pub mod Decode
pub mod Termination
pub mod Pointers
pub mod Build
pub mod Hierarchy
pub mod Display
mod Examples
use Prim.Native.Nat.{bit_xor}
use border_dns.Prelude.{
  ℕ, zero, suc, ◌+◌, ◌-◌, ◌*◌, ◌/◌, ◌%◌, ◌^◌, Bool, true, false, List, [], ◌∷◌, ◌++◌, Option, some,
  none, length, get_or, take, drop, ltb, leb, ◌==◌, ◌&&◌, if◌then◌else◌, map,
}
use border_dns.Types.Error.{
  ProtocolError, Result, ok, err, buffer_underflow, label_too_long, too_many_labels,
  pointer_out_of_bounds, pointer_loop, invalid_pointer_marker,
}
use border_dns.Types.Error
use border_dns.Protocol.Wire.{
  WireReader, WireWriter, Read, ◌>>=◌, ◌>>◌, pure, new, set_pos, remaining, peek_u8, read_u8,
  read_bytes, write_u8, write_bytes,
}

abbrev pub max_label_length : ℕ
max_label_length = 63

abbrev pub max_label_count : ℕ
max_label_count = 128

-- `buf` holds the bytes of all labels, and `ends` where each label ends in it.
pub record DomainName : Type 0 where
  pub buf : List ℕ
  pub ends : List ℕ

unfoldable pub root : DomainName
root = record { buf = []; ends = [] }

-- `ends.push(u8::try_from(end).map_err(|_| TooManyLabels(ends.len()))?)`
unfoldable pub push_end : ℕ → List ℕ → Result (List ℕ)
push_end end ends =
    if ltb end 256 then ok (ends ++ (end ∷ [])) else err (too_many_labels (length ends))

-- The loop of `from_labels` and of `from_str`, over what is left of the labels.
unfoldable pub collect_labels : List (List ℕ) → List ℕ → List ℕ → Result DomainName
collect_labels [] buf ends = ok (record { buf = buf; ends = ends })
collect_labels (bytes ∷ labels) buf ends =
    let skipped = collect_labels labels buf ends in
    let taken =
      Error.◌>>=◌ (push_end (length (buf ++ bytes)) ends) (collect_labels labels (buf ++ bytes)) in
    if ltb max_label_length (length bytes)
    then err (label_too_long (length bytes))
    else if length bytes == 0
    then skipped
    else taken

unfoldable pub check_label_count : DomainName → Result DomainName
check_label_count n =
    if ltb max_label_count (length n.ends) then err (too_many_labels (length n.ends)) else ok n

unfoldable pub from_labels : List (List ℕ) → Result DomainName
from_labels labels = Error.◌>>=◌ (collect_labels labels [] []) check_label_count

abbrev pub is_root : DomainName → Bool
is_root n = length n.ends == 0

abbrev pub label_count : DomainName → ℕ
label_count n = length n.ends

-- The slice `buf[start..end]`.
abbrev pub slice : List ℕ → ℕ → ℕ → List ℕ
slice buf start end = take (end - start) (drop start buf)

unfoldable pub label_start : DomainName → ℕ → ℕ
label_start n index = if index == 0 then 0 else get_or n.ends (index - 1) 0

unfoldable pub label : DomainName → ℕ → Option (List ℕ)
label n index =
    if leb (length n.ends) index
    then none
    else some (slice n.buf (label_start n index) (get_or n.ends index 0))

unfoldable pub label_len : DomainName → ℕ → ℕ
label_len n index = get_or n.ends index 0 - label_start n index

-- The labels between `prev_end` and the ends that follow.
unfoldable pub labels_from : List ℕ → ℕ → List ℕ → List (List ℕ)
labels_from buf prev_end [] = []
labels_from buf prev_end (end ∷ ends) = slice buf prev_end end ∷ labels_from buf end ends

unfoldable pub labels : DomainName → List (List ℕ)
labels n = labels_from n.buf 0 n.ends

unfoldable pub wire_len : DomainName → ℕ
wire_len n = if length n.ends == 0 then 1 else length n.buf + length n.ends + 1

unfoldable pub write_labels : List ℕ → ℕ → List ℕ → WireWriter → WireWriter
write_labels buf prev_end [] w = w
write_labels buf prev_end (end ∷ ends) w =
    write_labels buf end ends
      (write_bytes (slice buf prev_end end) (write_u8 ((end - prev_end) % 256) w))

unfoldable pub write_wire_uncompressed : DomainName → WireWriter → WireWriter
write_wire_uncompressed n w = write_u8 0 (write_labels n.buf 0 n.ends w)

unfoldable pub to_wire : DomainName → List ℕ
to_wire n = write_wire_uncompressed n []

unfoldable pub append_label : DomainName → List ℕ → Result DomainName
append_label n bytes =
    if ltb max_label_length (length bytes)
    then err (label_too_long (length bytes))
    else Error.◌>>=◌ (push_end (length (n.buf ++ bytes)) n.ends) λ ends.
      if ltb max_label_count (length ends)
      then err (too_many_labels (length ends))
      else ok (record { buf = n.buf ++ bytes; ends = ends })

-- `e - first_end as u8`; the ends grow, so the subtraction does not go below zero.
unfoldable pub parent_of : List ℕ → List ℕ → DomainName
parent_of buf [] = root
parent_of buf (first_end ∷ ends) = record {
  buf = drop first_end buf;
  ends = map (λ e. e - first_end) ends;
}

unfoldable pub parent : DomainName → DomainName
unfolding parent_of
parent n = parent_of n.buf n.ends

abbrev pub bytes_eq : List ℕ → List ℕ → Bool
bytes_eq [] [] = true
bytes_eq [] (y ∷ ys) = false
bytes_eq (x ∷ xs) [] = false
bytes_eq (x ∷ xs) (y ∷ ys) = x == y && bytes_eq xs ys

unfoldable pub is_suffix_of : DomainName → DomainName → Bool
is_suffix_of n other =
    if length n.ends == 0
    then true
    else if ltb (length other.ends) (length n.ends)
    then false
    else if ltb (length other.buf) (length n.buf)
    then false
    else bytes_eq n.buf (drop (length other.buf - length n.buf) other.buf)

-- `ends.push(..)` for each end of the name that a pointer leads to.
unfoldable pub push_suffix : ℕ → List ℕ → List ℕ → Result (List ℕ)
push_suffix buf_start [] ends = ok ends
push_suffix buf_start (end ∷ suffix_ends) ends =
    Error.◌>>=◌ (push_end (buf_start + end) ends) (push_suffix buf_start suffix_ends)

-- The labels read so far with those of the suffix behind them.
unfoldable pub join_suffix : List ℕ → List ℕ → DomainName → Result DomainName
join_suffix buf ends suffix =
    Error.◌>>=◌ (push_suffix (length buf) suffix.ends ends)
      λ all_ends. ok (record { buf = buf ++ suffix.buf; ends = all_ends })

-- A step that fails without touching the reader.
abbrev pub lift {ℓ} : {A : Type ℓ} → Result A → Read A
lift m r = Error.◌>>=◌ m λ a. ok (a, r)

-- The arms of the match on the length byte.
pub data LengthByte : Type 0 where
  pointer root_label regular reserved : LengthByte

unfoldable pub classify : ℕ → LengthByte
classify byte =
    if leb 0xC0 byte
    then pointer
    else if byte == 0
    then root_label
    else if leb byte 0x3F
    then regular
    else reserved

-- `follow offset` reads the name at `offset` of the message, one level deeper. The second byte
-- fills the eight bits below the shifted first.
unfoldable pub read_pointer :
    (ℕ → Result DomainName) → List ℕ → List ℕ → List ℕ → ℕ → Read DomainName
read_pointer follow message buf ends byte = do
  _ ← read_u8
  pointer_byte2 ← read_u8
  let offset = byte % 64 * 256 + pointer_byte2
  if leb (length message) offset
      then lift (err (pointer_out_of_bounds offset (length message)))
      else (lift (follow offset) >>= λ suffix. lift (join_suffix buf ends suffix))

-- A regular label of the peeked length, behind those that `buf` and `ends` hold.
unfoldable pub read_label : ℕ → List ℕ → List ℕ → Read (List ℕ × List ℕ)
read_label label_len buf ends = do
  _ ← read_u8
  label_data ← read_bytes label_len
  all_ends ← lift (push_end (length (buf ++ label_data)) ends)
  pure (buf ++ label_data, all_ends)

-- A round takes a byte at least, so with the bytes left for fuel the first clause is reached where
-- none remains, and gives what the loop gives there.
unfoldable pub labels_loop :
    (ℕ → Result DomainName) → ℕ → List ℕ → List ℕ → List ℕ → Read DomainName
labels_loop follow zero message buf ends r = err (buffer_underflow 1 0)
labels_loop follow (suc fuel) message buf ends r =
    let next =
      λ (byte : ℕ). (read_label byte buf ends >>= λ p. labels_loop follow fuel message p.0 p.1) r in
    if remaining r == 0 then err (buffer_underflow 1 0) else elim (peek_u8 r) [
      | err e ↦ err e
      | ok (byte, _) ↦ elim (classify byte) [
        | pointer ↦ read_pointer follow message buf ends byte r
        | root_label ↦ (read_u8 >> pure (record { buf = buf; ends = ends })) r
        | regular ↦ next byte
        | reserved ↦ err (invalid_pointer_marker r.pos byte)
      ]
    ]

-- The first argument counts down to the depth that is refused: the source's `depth` is 64 less
-- it, and `depth > MAX_LABEL_LENGTH` holds from 64 on.
unfoldable pub read_name_with_depth : ℕ → List ℕ → Read DomainName
read_name_with_depth zero message r = err (pointer_loop r.pos 64)
read_name_with_depth (suc levels) message r =
    labels_loop
      (λ offset.
        Error.◌>>=◌ ((set_pos offset >> read_name_with_depth levels message) (new message))
          (λ p. ok p.0))
      (remaining r) message [] [] r

unfoldable pub read_name : List ℕ → Read DomainName
read_name = read_name_with_depth 64

unfoldable pub read_name_at : List ℕ → ℕ → Result (DomainName × ℕ)
read_name_at message offset =
    Error.◌>>=◌ ((set_pos offset >> read_name message) (new message)) λ p. ok (p.0, p.1.pos)
