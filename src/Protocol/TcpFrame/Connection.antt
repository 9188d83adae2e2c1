-- ===== src/Protocol/TcpFrame/Connection.antt =====
-- The read loop of a connection: however the stream is cut into reads, the handler gets the
-- messages that were framed, in order.
use border_dns.Prelude.{
  ℕ, zero, suc, ◌+◌, ◌<◌, ◌≡◌, refl, sym, ap, ◌∙◌, List, [], ◌∷◌, ◌++◌, length, All, arith,
  append_assoc, append-nil, length-append, length-drop, some, none, inl, inr,
}
use border_dns.Types.Error.{ok}
use border_dns.Protocol.TcpFrame.{
  TcpFrameDecoder, encode_tcp_frame, buffered, try_decode, drain, read_chunk, handle_tcp_connection,
  with_max_frame_size,
}
use border_dns.Protocol.TcpFrame.Frames.{encodes, Fits, length-encode_tcp_frame}
use border_dns.Protocol.TcpFrame.Stream.{
  pending, IsValid, parse, parse_frame, try_decode-IsValid, max-try_decode, pending-feed,
  length_left, try_decode_of_parse,
}

-- What a run of the loop has done of the messages `ms` whose frames it was reading, when the bytes
-- `more` are still to come.
pub record Served (limit : ℕ) (more : List ℕ) (ms : List (List ℕ))
    (run : List (List ℕ) × TcpFrameDecoder) : Type 0 where
  pub left : List (List ℕ)
  pub split : ms ≡ run.0 ++ left
  pub kept : pending run.1 ++ more ≡ encodes left
  pub fit : All (Fits limit) left
  pub waits : parse limit (pending run.1) ≡ (ok none, pending run.1)
  pub bounded : run.1.max_frame_size ≡ limit
  pub valid : IsValid run.1

-- The stream that the reads make up.
abbrev pub joined : List (List ℕ) → List ℕ
joined [] = []
joined (bytes ∷ reads) = bytes ++ joined reads

module _ (limit : ℕ) where
  drain_waits :
      (fuel : ℕ) (d : TcpFrameDecoder) (more : List ℕ) (ms : List (List ℕ))
      → All (Fits limit) ms
      → pending d ++ more ≡ encodes ms
      → parse limit (pending d) ≡ (ok none, pending d)
      → d.max_frame_size ≡ limit
      → IsValid d
      → Served limit more ms (drain (suc fuel) d)
  unfolding drain
  drain_waits fuel d more ms f h w b v =
      let (x, y) = try_decode_of_parse limit d b w in
      rw (x, drain)
        (record {
          left = ms;
          split = refl;
          kept = ap (λ p. p ++ more) y ∙ h;
          fit = f;
          waits = rw y w;
          bounded = max-try_decode d ∙ b;
          valid = try_decode-IsValid d v;
        })

  drain_frame :
      (fuel : ℕ) (d : TcpFrameDecoder) (m : List ℕ) (bytes : List ℕ)
      → parse limit (pending d) ≡ (ok (some (m, 2 + length m)), bytes)
      → d.max_frame_size ≡ limit
      → (pending (try_decode d).1 ≡ bytes)
        × (drain (suc fuel) d
            ≡ ((m ∷ (drain fuel (try_decode d).1).0), (drain fuel (try_decode d).1).1))
  unfolding drain
  drain_frame fuel d m bytes e b =
      let (x, y) = try_decode_of_parse limit d b e in (y, rw (x, drain))

  drain_next :
      (fuel : ℕ) (d : TcpFrameDecoder) (more : List ℕ) (m : List ℕ) (ms : List (List ℕ))
      {bytes : List ℕ}
      → parse limit (pending d) ≡ (ok (some (m, 2 + length m)), bytes)
      → d.max_frame_size ≡ limit
      → Served limit more ms (drain fuel (try_decode d).1)
      → Served limit more (m ∷ ms) (drain (suc fuel) d)
  drain_next fuel d more m ms {bytes} p b s = rw ((drain_frame fuel d m bytes p b).1) (record {
    left = s.left;
    split = ap (λ x. m ∷ x) s.split;
    kept = s.kept;
    fit = s.fit;
    waits = s.waits;
    bounded = s.bounded;
    valid = s.valid;
  })

  empty_waits : (bytes more : List ℕ) → bytes ++ more ≡ [] → parse limit bytes ≡ (ok none, bytes)
  unfolding parse
  empty_waits [] more h = refl
  empty_waits (x ∷ bytes) more h = cc

  drain-Served :
      (fuel : ℕ) (d : TcpFrameDecoder) (more : List ℕ) (ms : List (List ℕ))
      → All (Fits limit) ms
      → pending d ++ more ≡ encodes ms
      → length (pending d) < fuel
      → d.max_frame_size ≡ limit
      → IsValid d
      → Served limit more ms (drain fuel d)
  drain-Served zero d more ms f h e b v = absurd (omega arith)
  drain-Served (suc fuel) d more [] f h e b v =
      drain_waits fuel d more [] f h (empty_waits (pending d) more h) b v
  drain-Served (suc fuel) d more (m ∷ ms) (f, fs) h e b v =
      elim (parse_frame limit (pending d) more m (encodes ms) f h) [
        | inl (w, _) ↦ drain_waits fuel d more (m ∷ ms) (f, fs) h w b v
        | inr (p, t, l) ↦ drain_next fuel d more m ms p b (
            drain-Served fuel _ more ms fs
              (ap (λ x. x ++ more) (try_decode_of_parse limit d b p).1 ∙ t)
              (omega (
                arith,
                ap length (try_decode_of_parse limit d b p).1,
                length-drop (2 + length m) (pending d),
              ))
              (max-try_decode d ∙ b) (try_decode-IsValid d v))
      ]

  -- One read of the socket.
  read_chunk-Served :
      (d : TcpFrameDecoder) (bytes more : List ℕ) (ms : List (List ℕ))
      → All (Fits limit) ms
      → pending d ++ (bytes ++ more) ≡ encodes ms
      → d.max_frame_size ≡ limit
      → IsValid d
      → Served limit more ms (read_chunk bytes d)
  unfolding read_chunk buffered
  read_chunk-Served d bytes more ms f h b v =
      drain-Served _ _ more ms f
        (ap (λ x. x ++ more) (pending-feed d bytes v) ∙ append_assoc (pending d) bytes more ∙ h)
        (omega (arith, length-drop d.read_pos (d.buf ++ bytes))) b
        (ground (arith, length-append d.buf bytes))

  -- What a stop with nothing to come says: all messages were served.
  nothing_left :
      (left : List (List ℕ)) (bytes : List ℕ)
      → All (Fits limit) left
      → bytes ≡ encodes left
      → parse limit bytes ≡ (ok none, bytes)
      → left ≡ []
  nothing_left [] bytes f h w = refl
  nothing_left (m ∷ ms) bytes (f, fs) h w =
      elim (parse_frame limit (encodes (m ∷ ms)) [] m (encodes ms) f
        (append-nil (encodes (m ∷ ms)))) [
          | inl (x, short) ↦ absurd (
              omega (
                arith,
                short,
                length-append (encode_tcp_frame m) (encodes ms),
                length-encode_tcp_frame m,
              ))
          | inr (p, t, l) ↦ cc (ap (parse limit) h, p)
        ]

  run_reads :
      (reads : List (List ℕ)) (d : TcpFrameDecoder) (ms : List (List ℕ))
      → All (Fits limit) ms
      → pending d ++ joined reads ≡ encodes ms
      → parse limit (pending d) ≡ (ok none, pending d)
      → d.max_frame_size ≡ limit
      → IsValid d
      → ((handle_tcp_connection reads d).0 ≡ ms) × (pending (handle_tcp_connection reads d).1 ≡ [])
  unfolding handle_tcp_connection
  run_reads [] d ms f h w b v =
      let e : pending d ≡ encodes ms = sym (append-nil (pending d)) ∙ h in
      let n = nothing_left ms (pending d) f e w in (sym n, e ∙ ap encodes n)
  run_reads (bytes ∷ reads) d ms f h w b v =
      let s = read_chunk-Served d bytes (joined reads) ms f h b v in
      let (x, y) =
        run_reads reads (read_chunk bytes d).1 s.left s.fit s.kept s.waits s.bounded s.valid in
      (ap (λ z. (read_chunk bytes d).0 ++ z) x ∙ sym s.split, y)

-- However the stream of frames of `ms` is cut into reads, the connection hands on exactly `ms`, in
-- order, and ends with nothing buffered, where each message fits a frame of the decoder.
pub handle_tcp_connection-encodes :
    (limit : ℕ) (reads ms : List (List ℕ))
    → All (Fits limit) ms
    → joined reads ≡ encodes ms
    → ((handle_tcp_connection reads (with_max_frame_size limit)).0 ≡ ms)
      × (buffered (handle_tcp_connection reads (with_max_frame_size limit)).1 ≡ 0)
unfolding with_max_frame_size buffered
handle_tcp_connection-encodes limit reads ms f h =
    let (x, y) =
      run_reads limit reads (with_max_frame_size limit) ms f h (unfold parse in refl) refl
        (omega arith) in
    (x, length_left (handle_tcp_connection reads (with_max_frame_size limit)).1 [] y)
