-- ===== src/Protocol/TcpFrame/Examples.antt =====
-- Runs of the frame codec, and its theorems at concrete inputs.
use border_dns.Prelude.{ℕ, zero, suc, ◌≡◌, ◌≢◌, refl, List, [], ◌∷◌, ◌++◌, length, arith}
use border_dns.Types.Error.{ok, err, tcp_frame_too_large}
use border_dns.Protocol.TcpFrame.{
  TcpFrameDecoder, encode_tcp_frame, decode_tcp_frame, decode_tcp_frames, try_decode,
  with_max_frame_size, handle_tcp_connection, buffered,
}
use border_dns.Protocol.TcpFrame.Frames.{
  encodes, decode-encode_tcp_frame, decode_tcp_frames-encodes, encode_tcp_frame_overflow,
}
use border_dns.Protocol.TcpFrame.Stream.{parse, pending, try_decode-parse}
use border_dns.Protocol.TcpFrame.Connection.{handle_tcp_connection-encodes}

abbrev two_messages : List (List ℕ)
two_messages = (7 ∷ 8 ∷ 9 ∷ []) ∷ (5 ∷ []) ∷ []

-- The second read ends inside the second length prefix.
abbrev cut_reads : List (List ℕ)
cut_reads = (0 ∷ []) ∷ (3 ∷ 7 ∷ 8 ∷ 9 ∷ 0 ∷ []) ∷ (1 ∷ 5 ∷ []) ∷ []

encodes_two : encodes two_messages ≡ 0 ∷ 3 ∷ 7 ∷ 8 ∷ 9 ∷ 0 ∷ 1 ∷ 5 ∷ []
unfolding encode_tcp_frame
encodes_two = refl

decode_oversized : decode_tcp_frame (0 ∷ 9 ∷ []) 8 ≡ err (tcp_frame_too_large 9 8)
unfolding decode_tcp_frame
decode_oversized = refl

handle_tcp_connection-encodes_example :
    ((handle_tcp_connection cut_reads (with_max_frame_size 512)).0 ≡ two_messages)
    × (buffered (handle_tcp_connection cut_reads (with_max_frame_size 512)).1 ≡ 0)
unfolding encode_tcp_frame
handle_tcp_connection-encodes_example =
    handle_tcp_connection-encodes 512 cut_reads two_messages (omega arith) refl

decode-encode_tcp_frame_example :
    decode_tcp_frame (encode_tcp_frame (7 ∷ 8 ∷ []) ++ (1 ∷ [])) 512 ≡ ok (7 ∷ 8 ∷ [], 4)
decode-encode_tcp_frame_example =
    decode-encode_tcp_frame (7 ∷ 8 ∷ []) (1 ∷ []) 512 (omega arith) (omega arith)

decode_tcp_frames-encodes_example :
    decode_tcp_frames (encodes two_messages) 512 ≡ ok (two_messages, length (encodes two_messages))
decode_tcp_frames-encodes_example = decode_tcp_frames-encodes two_messages 512 (omega arith)

abbrev half_frame : TcpFrameDecoder
half_frame = record { buf = 1 ∷ 0 ∷ 2 ∷ 9 ∷ []; read_pos = 1; max_frame_size = 512 }

try_decode-parse_example :
    ((try_decode half_frame).0 ≡ (parse 512 (0 ∷ 2 ∷ 9 ∷ [])).0)
    × (pending (try_decode half_frame).1 ≡ (parse 512 (0 ∷ 2 ∷ 9 ∷ [])).1)
try_decode-parse_example = try_decode-parse half_frame (0 ∷ 2 ∷ 9 ∷ []) refl

zeros : ℕ → List ℕ
zeros zero = []
zeros (suc n) = 0 ∷ zeros n

length-zeros : (n : ℕ) → length (zeros n) ≡ n
unfolding zeros
length-zeros zero = refl
length-zeros (suc n) = omega (arith, length-zeros n)

encode_tcp_frame_overflow_example :
    decode_tcp_frame (encode_tcp_frame (zeros 65536)) 65535 ≢ ok (zeros 65536, 2)
encode_tcp_frame_overflow_example =
    encode_tcp_frame_overflow (zeros 65536) 65535 2 (omega (arith, length-zeros 65536))
