-- ===== src/Protocol/TcpFrame.antt =====
-- crates/dns-protocol/src/tcp_frame.rs: messages behind a two-byte length, and the streaming
-- decoder; and the read loop of crates/border-dns-runtime/src/server.rs that drives it.
pub mod Frames
pub mod Stream
pub mod Connection
mod Examples
use border_dns.Prelude.{
  ℕ, zero, suc, ◌+◌, ◌-◌, ◌/◌, ◌%◌, Bool, List, [], ◌∷◌, ◌++◌, Option, none, some, length, get_or,
  take, drop, ltb, leb, ◌&&◌, if◌then◌else◌,
}
use border_dns.Types.Error.{Result, ok, err, ◌>>=◌, buffer_underflow, tcp_frame_too_large}
use border_dns.Protocol.Wire.{u16_from_be_bytes, u16_to_be_bytes}

abbrev pub default_max_tcp_frame : ℕ
default_max_tcp_frame = 65535

-- `message.len() as u16` keeps the low 16 bits.
pub encode_tcp_frame : List ℕ → List ℕ
encode_tcp_frame message = u16_to_be_bytes (length message % 65536) ++ message

pub decode_tcp_frame : List ℕ → ℕ → Result (List ℕ × ℕ)
decode_tcp_frame bytes max_frame_size =
    let len = u16_from_be_bytes (get_or bytes 0 0) (get_or bytes 1 0) in
    if ltb (length bytes) 2
    then err (buffer_underflow 2 (length bytes))
    else if ltb max_frame_size len
    then err (tcp_frame_too_large len max_frame_size)
    else if ltb (length bytes) (2 + len)
    then err (buffer_underflow (2 + len) (length bytes))
    else ok (take len (drop 2 bytes), 2 + len)

-- One round of the loop of `decode_tcp_frames` decodes at `offset` and moves it on.
pub decode_frames_loop : ℕ → List ℕ → ℕ → List (List ℕ) → ℕ → Result (List (List ℕ) × ℕ)
decode_frames_loop zero bytes max_frame_size messages offset = ok (messages, offset)
decode_frames_loop (suc fuel) bytes max_frame_size messages offset =
    let next = do
      (message, consumed) ← decode_tcp_frame (drop offset bytes) max_frame_size
      decode_frames_loop fuel bytes max_frame_size (messages ++ (message ∷ [])) (offset + consumed)
    in if leb (length bytes) offset
      then ok (messages, offset)
      else if ltb (length bytes - offset) 2
      then ok (messages, offset)
      else next

-- A round takes two bytes at least, so there are no more rounds than bytes.
pub decode_tcp_frames : List ℕ → ℕ → Result (List (List ℕ) × ℕ)
decode_tcp_frames bytes max_frame_size = decode_frames_loop (length bytes) bytes max_frame_size [] 0

pub record TcpFrameDecoder : Type 0 where
  pub buf : List ℕ
  pub read_pos : ℕ
  pub max_frame_size : ℕ

pub with_max_frame_size : ℕ → TcpFrameDecoder
with_max_frame_size limit = record { buf = []; read_pos = 0; max_frame_size = limit }

pub new : TcpFrameDecoder
unfolding with_max_frame_size
new = with_max_frame_size default_max_tcp_frame

pub feed : List ℕ → TcpFrameDecoder → TcpFrameDecoder
feed bytes d = record d { buf = d.buf ++ bytes }

pub buffered : TcpFrameDecoder → ℕ
buffered d = length d.buf - d.read_pos

pub reset : TcpFrameDecoder → TcpFrameDecoder
reset d = record d { buf = []; read_pos = 0 }

-- The consumed front is dropped once it is half of the buffer.
pub compact : TcpFrameDecoder → TcpFrameDecoder
compact d =
    if ltb 0 d.read_pos && leb (length d.buf / 2) d.read_pos
    then record d { buf = drop d.read_pos d.buf; read_pos = 0 }
    else d

pub try_decode : TcpFrameDecoder → Result (Option (List ℕ × ℕ)) × TcpFrameDecoder
unfolding compact
try_decode d =
    let available = length d.buf - d.read_pos in
    let len = u16_from_be_bytes (get_or d.buf d.read_pos 0) (get_or d.buf (d.read_pos + 1) 0) in
    if ltb available 2
    then (ok none, d)
    else if ltb d.max_frame_size len
    then (err (tcp_frame_too_large len d.max_frame_size), d)
    else if ltb available (2 + len)
    then (ok none, d)
    else (
      ok (some (take len (drop (d.read_pos + 2) d.buf), 2 + len)),
      compact (record d { read_pos = d.read_pos + (2 + len) }),
    )

-- The inner loop of a connection: the messages handed on, in order. A frame that is too long
-- empties the decoder. The first argument bounds the rounds.
pub drain : ℕ → TcpFrameDecoder → List (List ℕ) × TcpFrameDecoder
unfolding reset
drain zero d = ([], d)
drain (suc fuel) d =
    let (answer, d') = try_decode d in
    elim answer [
      | ok (some (message, _)) ↦ let (messages, e) = drain fuel d' in (message ∷ messages, e)
      | ok none ↦ ([], d')
      | err _ ↦ ([], reset d')
    ]

-- One read from the socket: the bytes are fed, and every complete frame is served. Each frame
-- takes two bytes at least, so `buffered` and one more bounds the rounds.
pub read_chunk : List ℕ → TcpFrameDecoder → List (List ℕ) × TcpFrameDecoder
unfolding feed
read_chunk bytes d = let d' = feed bytes d in drain (suc (buffered d')) d'

-- A connection: one call of `read_chunk` for each read that gives bytes. The list ends with the read
-- that gives none, fails or times out, on which the source returns.
pub handle_tcp_connection : List (List ℕ) → TcpFrameDecoder → List (List ℕ) × TcpFrameDecoder
handle_tcp_connection [] d = ([], d)
handle_tcp_connection (bytes ∷ reads) d =
    let (messages, d') = read_chunk bytes d in
    let (later, d'') = handle_tcp_connection reads d' in (messages ++ later, d'')
