-- ===== src/Protocol/TcpFrame/Frames.antt =====
-- The frame codec by itself: what `decode_tcp_frame` reads back.
use border_dns.Prelude.{
  ℕ, zero, suc, ◌+◌, ◌*◌, ◌/◌, ◌%◌, All, ◌≤◌, ◌<◌, ◌^◌, ◌≡◌, ◌≢◌, length-take, refl, sym, ap, ◌∙◌,
  List, [], ◌∷◌, ◌++◌, length, drop, arith, append_assoc, length-append, length-drop, take-append,
  drop-append, append-nil, drop-drop,
}
use border_dns.Types.Error.{Result, ok, err}
use border_dns.Protocol.TcpFrame.{
  encode_tcp_frame, decode_tcp_frame, decode_frames_loop, decode_tcp_frames,
}

-- A frame is read back whole, whatever follows it, where the message is at most
-- `max_frame_size` long and its length fits 16 bits.
pub decode-encode_tcp_frame :
    (message rest : List ℕ) (limit : ℕ)
    → length message < 2 ^ 16
    → length message ≤ limit
    → decode_tcp_frame (encode_tcp_frame message ++ rest) limit ≡ ok (message, 2 + length message)
unfolding encode_tcp_frame decode_tcp_frame
decode-encode_tcp_frame message rest limit short fits = ground (
  arith,
  length-append message rest,
  take-append message rest,
  (let e : length message / 256 % 256 * 256 + length message % 256 ≡ length message = omega arith in
      e),
)

pub length-encode_tcp_frame :
    (message : List ℕ) → length (encode_tcp_frame message) ≡ 2 + length message
unfolding encode_tcp_frame
length-encode_tcp_frame message = omega arith

-- The frames of several messages, one after the other.
abbrev pub encodes : List (List ℕ) → List ℕ
encodes [] = []
encodes (m ∷ ms) = encode_tcp_frame m ++ encodes ms

-- A message that a frame can carry.
abbrev pub Fits : ℕ → List ℕ → Type 0
Fits limit message = (length message < 2 ^ 16) × (length message ≤ limit)

behind_frame :
    (m tail bytes : List ℕ) (offset : ℕ)
    → drop offset bytes ≡ encode_tcp_frame m ++ tail
    → drop (offset + (2 + length m)) bytes ≡ tail
behind_frame m tail bytes offset h =
    sym (drop-drop (2 + length m) offset bytes)
    ∙ ap (drop (2 + length m)) h
    ∙ ap (λ (n : ℕ). drop n (encode_tcp_frame m ++ tail)) (sym (length-encode_tcp_frame m))
    ∙ drop-append (encode_tcp_frame m) tail

decode_loop-encodes :
    (ms : List (List ℕ)) (fuel : ℕ) (bytes : List ℕ) (limit : ℕ) (acc : List (List ℕ)) (offset : ℕ)
    → All (Fits limit) ms
    → drop offset bytes ≡ encodes ms
    → length (encodes ms) ≤ fuel
    → decode_frames_loop fuel bytes limit acc offset ≡ ok (acc ++ ms, offset + length (encodes ms))
unfolding decode_frames_loop
decode_loop-encodes [] zero bytes limit acc offset f h e = ground (arith, append-nil acc)
decode_loop-encodes [] (suc fuel) bytes limit acc offset f h e =
    ground (arith, append-nil acc, ap length h, length-drop offset bytes)
decode_loop-encodes (m ∷ ms) zero bytes limit acc offset f h e =
    absurd
      (omega (arith, length-append (encode_tcp_frame m) (encodes ms), length-encode_tcp_frame m))
decode_loop-encodes (m ∷ ms) (suc fuel) bytes limit acc offset (f, fs) h e = ground (
  arith,
  h,
  append_assoc acc (m ∷ []) ms,
  ap length h,
  length-drop offset bytes,
  length-append (encode_tcp_frame m) (encodes ms),
  length-encode_tcp_frame m,
  decode-encode_tcp_frame m (encodes ms) limit f.0 f.1,
  decode_loop-encodes ms fuel bytes limit (acc ++ (m ∷ [])) (offset + (2 + length m)) fs
      (behind_frame m (encodes ms) bytes offset h),
)

-- A buffer that holds the frames of these messages and nothing else is decoded to them, in order,
-- and consumed whole.
pub decode_tcp_frames-encodes :
    (ms : List (List ℕ)) (limit : ℕ)
    → All (Fits limit) ms
    → decode_tcp_frames (encodes ms) limit ≡ ok (ms, length (encodes ms))
unfolding decode_tcp_frames
decode_tcp_frames-encodes ms limit f =
    decode_loop-encodes ms _ (encodes ms) limit [] 0 f refl (omega arith)
    ∙ ap (λ (n : ℕ). ok (ms, n)) (omega arith)

-- A message of 65536 bytes or more is framed under a wrong length: whatever the decoder's limit, the
-- frame does not decode to the message.
pub encode_tcp_frame_overflow :
    (message : List ℕ) (limit consumed : ℕ)
    → 2 ^ 16 ≤ length message
    → decode_tcp_frame (encode_tcp_frame message) limit ≢ ok (message, consumed)
unfolding encode_tcp_frame decode_tcp_frame
encode_tcp_frame_overflow message limit consumed big e = ground (
  arith,
  ap decoded_length e,
  length-take (length message % 65536 / 256 * 256 + length message % 65536 % 256) message,
)
  where
    decoded_length : Result (List ℕ × ℕ) → ℕ
    decoded_length (ok (m, n)) = length m
    decoded_length (err x) = 0
