-- ===== src/Protocol/TcpFrame/Stream.antt =====
-- The streaming decoder is a queue of bytes: what it answers depends on the bytes not yet
-- consumed alone, and not on where the buffer was compacted or how the stream was cut.
use border_dns.Prelude.{
  ℕ, ◌+◌, ◌-◌, ◌*◌, split_append, drop-append_le, ◌⊎◌, inl, inr, ◌≤◌, ◌<◌, ◌≡◌, refl, sym, ap, ◌∙◌,
  List, [], ◌∷◌, ◌++◌, length, take, drop, get_or, arith, length-drop, ltb, if◌then◌else◌, Option,
  some, none, get_or-drop, drop-drop,
}
use native.Mathlib.Decide.{dec_le}
use border_dns.Types.Error.{Result, ok, err, tcp_frame_too_large}
use border_dns.Protocol.TcpFrame.{encode_tcp_frame, TcpFrameDecoder, feed, compact, try_decode}
use border_dns.Protocol.TcpFrame.Frames.{Fits}

abbrev pub pending : TcpFrameDecoder → List ℕ
pending d = drop d.read_pos d.buf

-- The read cursor never passes the end of the buffer.
abbrev pub IsValid : TcpFrameDecoder → Type 0
IsValid d = d.read_pos ≤ length d.buf

-- One step of the abstract decoder: what stands at the front of the bytes, and what is left.
unfoldable pub parse : ℕ → List ℕ → Result (Option (List ℕ × ℕ)) × List ℕ
parse limit [] = (ok none, [])
parse limit (a ∷ []) = (ok none, a ∷ [])
parse limit (a ∷ b ∷ rest) =
    let len = a * 256 + b in
    if ltb limit len
    then (err (tcp_frame_too_large len limit), a ∷ b ∷ rest)
    else if ltb (length rest) len
    then (ok none, a ∷ b ∷ rest)
    else (ok (some (take len rest, 2 + len)), drop len rest)

pending-compact : (d : TcpFrameDecoder) → pending (compact d) ≡ pending d
unfolding compact
pending-compact d = ground arith

compact-IsValid : (d : TcpFrameDecoder) → IsValid d → IsValid (compact d)
unfolding compact
compact-IsValid d v = ground arith

max-compact : (d : TcpFrameDecoder) → (compact d).max_frame_size ≡ d.max_frame_size
unfolding compact
max-compact d = ground arith

pub length_left :
    (d : TcpFrameDecoder) (bytes : List ℕ)
    → pending d ≡ bytes
    → length d.buf - d.read_pos ≡ length bytes
length_left d bytes h = sym (length-drop d.read_pos d.buf) ∙ ap length h

nth_left :
    (d : TcpFrameDecoder) (i : ℕ) (bytes : List ℕ)
    → pending d ≡ bytes
    → get_or d.buf (d.read_pos + i) 0 ≡ get_or bytes i 0
nth_left d i bytes h = sym (get_or-drop d.read_pos i d.buf 0) ∙ ap (λ ys. get_or ys i 0) h

first_left :
    (d : TcpFrameDecoder) (bytes : List ℕ)
    → pending d ≡ bytes
    → get_or d.buf d.read_pos 0 ≡ get_or bytes 0 0
first_left d bytes h =
    ap (λ (p : ℕ). get_or d.buf p 0) (let e : d.read_pos ≡ d.read_pos + 0 = omega arith in e)
    ∙ nth_left d 0 bytes h

behind :
    (d : TcpFrameDecoder) (n : ℕ) (bytes : List ℕ)
    → pending d ≡ bytes
    → drop (d.read_pos + n) d.buf ≡ drop n bytes
behind d n bytes h = sym (drop-drop n d.read_pos d.buf) ∙ ap (drop n) h

-- What `try_decode` answers, and what it leaves pending, is the abstract step on what was pending.
pub try_decode-parse :
    (d : TcpFrameDecoder) (bytes : List ℕ)
    → pending d ≡ bytes
    → ((try_decode d).0 ≡ (parse d.max_frame_size bytes).0)
      × (pending (try_decode d).1 ≡ (parse d.max_frame_size bytes).1)
unfolding try_decode parse
try_decode-parse d [] h = ground (arith, length_left d [] h)
try_decode-parse d (a ∷ []) h = ground (arith, length_left d _ h)
try_decode-parse d (a ∷ b ∷ rest) h = ground (
  arith,
  length_left d _ h,
  first_left d _ h,
  nth_left d 1 _ h,
  ap (take (a * 256 + b)) (behind d 2 _ h),
  behind d (2 + (a * 256 + b)) _ h,
  drop-drop (a * 256 + b) 2 (a ∷ b ∷ rest),
  pending-compact (record d { read_pos = d.read_pos + (2 + (a * 256 + b)) }),
)

pub try_decode-IsValid : (d : TcpFrameDecoder) → IsValid d → IsValid (try_decode d).1
unfolding try_decode
try_decode-IsValid d v = ground arith

pub max-try_decode : (d : TcpFrameDecoder) → (try_decode d).1.max_frame_size ≡ d.max_frame_size
unfolding try_decode
max-try_decode d = ground arith

pub pending-feed :
    (d : TcpFrameDecoder) (bytes : List ℕ) → IsValid d → pending (feed bytes d) ≡ pending d ++ bytes
unfolding feed
pending-feed d bytes v = drop-append_le d.read_pos d.buf bytes v

-- Bytes that start the frame of `m` give the message once they hold all of it, and till then
-- nothing.
pub parse_frame :
    (limit : ℕ) (bytes more m tail : List ℕ)
    → Fits limit m
    → bytes ++ more ≡ encode_tcp_frame m ++ tail
    → ((parse limit bytes ≡ (ok none, bytes)) × (length bytes < 2 + length m))
      ⊎ ((parse limit bytes ≡ (ok (some (m, 2 + length m)), drop (2 + length m) bytes))
          × (drop (2 + length m) bytes ++ more ≡ tail)
          × (2 + length m ≤ length bytes))
unfolding parse encode_tcp_frame
parse_frame limit [] more m tail f h = inl (refl, omega arith)
parse_frame limit (a ∷ []) more m tail f h = inl (refl, omega arith)
parse_frame limit (a ∷ b ∷ rest) more m tail f h = elim (dec_le (length m) (length rest)) [
  | yes all ↦ inr (ground (arith, tail_eq, split_append rest more m tail tail_eq all))
  | no short ↦ inl (ground arith, ground arith)
]
  where
    tail_eq : rest ++ more ≡ m ++ tail
    tail_eq = ground arith

pub try_decode_of_parse :
    (limit : ℕ) (d : TcpFrameDecoder) {answer : Result (Option (List ℕ × ℕ))} {bytes : List ℕ}
    → d.max_frame_size ≡ limit
    → parse limit (pending d) ≡ (answer, bytes)
    → ((try_decode d).0 ≡ answer) × (pending (try_decode d).1 ≡ bytes)
try_decode_of_parse limit d b e =
    let (x, y) = try_decode-parse d (pending d) refl in
    (
      x ∙ ap (λ l. (parse l (pending d)).0) b ∙ ap (λ p. p.0) e,
      y ∙ ap (λ l. (parse l (pending d)).1) b ∙ ap (λ p. p.1) e,
    )
