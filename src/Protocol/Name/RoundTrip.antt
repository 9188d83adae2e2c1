-- ===== src/Protocol/Name/RoundTrip.antt =====
-- A name in uncompressed form is read back.
use border_dns.Prelude.{
  ℕ, zero, suc, ◌+◌, ◌-◌, ◌%◌, ◌≤◌, ◌<◌, ◌≡◌, refl, sym, ap, ◌∙◌, List, [], ◌∷◌, ◌++◌, length, take,
  drop, arith, length-append, length-take, length-drop, append_assoc, append-nil, take-append-slice,
  take_all, if◌then◌else◌, ◌==◌,
}
use border_dns.Types.Error.{Result, ok}
use border_dns.Protocol.Wire.{WireReader, ◌>>=◌, ◌>>◌, remaining, write_u8, write_bytes}
use border_dns.Protocol.Wire.Laws.{
  some_left, Decodes-along, ahead, advance, ahead-advance, Decodes, Decodes->>=, Decodes-pure,
  read_u8-Decodes, read_bytes-Decodes, peek_u8-ahead, remaining-ahead,
}
use border_dns.Protocol.Name.{
  DomainName, push_end, slice, write_labels, write_wire_uncompressed, to_wire, wire_len, lift,
  read_label, labels_loop, read_name_with_depth, read_name, classify, root_label, regular,
}
use border_dns.Protocol.Name.Valid.{Ends, IsValid, count-Ends, Ends-le}

-- The bytes of the labels between `prev_end` and the ends that follow.
abbrev label_bytes : List ℕ → ℕ → List ℕ → List ℕ
label_bytes buf prev_end [] = []
label_bytes buf prev_end (end ∷ ends) =
    ((end - prev_end) ∷ slice buf prev_end end) ++ label_bytes buf end ends

pub name_bytes : DomainName → List ℕ
name_bytes n = label_bytes n.buf 0 n.ends ++ (0 ∷ [])

write_labels-bytes :
    (buf : List ℕ) (prev_end : ℕ) (ends w : List ℕ)
    → Ends prev_end ends (length buf)
    → write_labels buf prev_end ends w ≡ w ++ label_bytes buf prev_end ends
unfolding write_labels write_bytes write_u8
write_labels-bytes buf prev_end [] w h = sym (append-nil w)
write_labels-bytes buf prev_end (end ∷ ends) w (l, u, h) =
    let e : (end - prev_end) % 256 ≡ end - prev_end = omega arith in
    rw e (write_labels-bytes buf end ends _ h ∙ simp append_assoc)

pub write-name_bytes :
    (n : DomainName) (w : List ℕ) → IsValid n → write_wire_uncompressed n w ≡ w ++ name_bytes n
unfolding write_wire_uncompressed write_u8 name_bytes
write-name_bytes n w v =
    ap (λ x. x ++ (0 ∷ [])) (write_labels-bytes n.buf 0 n.ends w v.rising) ∙ append_assoc w _ _

pub length-slice :
    (buf : List ℕ) (start end : ℕ) → end ≤ length buf → length (slice buf start end) ≡ end - start
length-slice buf start end h =
    omega (arith, length-take (end - start) (drop start buf), length-drop start buf)

length-label_bytes :
    (buf : List ℕ) (prev_end : ℕ) (ends : List ℕ)
    → Ends prev_end ends (length buf)
    → length (label_bytes buf prev_end ends) + prev_end ≡ length ends + length buf
length-label_bytes buf prev_end [] h = omega arith
length-label_bytes buf prev_end (end ∷ ends) (l, u, h) = omega (
  arith,
  length-append (slice buf prev_end end) (label_bytes buf end ends),
  length-slice buf prev_end end (Ends-le end ends (length buf) h),
  length-label_bytes buf end ends h,
)

wire_len-Ends :
    (ends : List ℕ) (total : ℕ)
    → Ends 0 ends total
    → (if length ends == 0 then 1 else total + length ends + 1) ≡ total + length ends + 1
wire_len-Ends [] total h = omega arith
wire_len-Ends (end ∷ ends) total h = ground arith

-- `wire_len` is the number of bytes that `to_wire` writes.
pub length-to_wire : (n : DomainName) → IsValid n → length (to_wire n) ≡ wire_len n
unfolding to_wire wire_len name_bytes
length-to_wire n v = ground (
  arith,
  ap length (write-name_bytes n [] v),
  wire_len-Ends n.ends (length n.buf) v.rising,
  length-append (label_bytes n.buf 0 n.ends) (0 ∷ []),
  length-label_bytes n.buf 0 n.ends v.rising,
)

Decodes-lift {ℓ} : {A : Type ℓ} {m : Result A} {a : A} → m ≡ ok a → Decodes (lift m) [] a
Decodes-lift {m} {a} e = record { apply = λ r rest h. rw e ((Decodes-pure a).apply r rest h) }

push_end-ok : (end : ℕ) (ends : List ℕ) → end < 256 → push_end end ends ≡ ok (ends ++ (end ∷ []))
unfolding push_end
push_end-ok end ends h = ground arith

read_label-Decodes :
    (buf ends bytes : List ℕ)
    → length (buf ++ bytes) < 256
    → Decodes
        (read_label (length bytes) buf ends)
        ((length bytes) ∷ bytes)
        (buf ++ bytes, ends ++ (length (buf ++ bytes) ∷ []))
unfolding read_label
read_label-Decodes buf ends bytes h =
    Decodes->>= _ {xs = length bytes ∷ []} (read_u8-Decodes (length bytes)) (
      Decodes-along (append-nil bytes) (
        Decodes->>= _ (read_bytes-Decodes bytes) (
          Decodes->>= _ {xs = []} (Decodes-lift (push_end-ok (length (buf ++ bytes)) ends h))
            (Decodes-pure _))))

-- The arms that an uncompressed name takes.
classify_zero : classify 0 ≡ root_label
unfolding classify
classify_zero = refl

classify_regular : (b : ℕ) → 0 < b → b ≤ 63 → classify b ≡ regular
unfolding classify
classify_regular b l u = ground arith

moved :
    (r : WireReader) (piece more whole : List ℕ)
    → whole ≡ piece ++ more
    → r.pos + length piece + length more ≡ r.pos + length whole
moved r piece more whole h = omega (arith, ap length h, length-append piece more)

module _ (follow : ℕ → Result DomainName) (message : List ℕ) where
  loop_root :
      (fuel : ℕ) (buf ends : List ℕ) (r : WireReader) (rest : List ℕ)
      → ahead r ≡ 0 ∷ rest
      → labels_loop follow (suc fuel) message buf ends r
        ≡ ok (record { buf = buf; ends = ends }, advance 1 r)
  unfolding labels_loop
  loop_root fuel buf ends r rest h = rw (
    some_left r 0 rest h,
    peek_u8-ahead r 0 rest h,
    classify_zero,
    (read_u8-Decodes 0).apply r rest h,
    ◌>>◌,
    ◌>>=◌,
  )

  loop_regular :
      (fuel : ℕ) (buf ends bytes : List ℕ) (r : WireReader) (rest : List ℕ)
      → 0 < length bytes
      → length bytes ≤ 63
      → length (buf ++ bytes) < 256
      → ahead r ≡ (length bytes ∷ bytes) ++ rest
      → labels_loop follow (suc fuel) message buf ends r
        ≡ labels_loop follow fuel message
            (buf ++ bytes)
            (ends ++ (length (buf ++ bytes) ∷ []))
            (advance (length (length bytes ∷ bytes)) r)
  unfolding labels_loop
  loop_regular fuel buf ends bytes r rest l u s h = rw (
    some_left r (length bytes) (bytes ++ rest) h,
    peek_u8-ahead r (length bytes) (bytes ++ rest) h,
    classify_regular (length bytes) l u,
    (read_label-Decodes buf ends bytes s).apply r rest h,
    ◌>>=◌,
  )

  loop_slice :
      (n : DomainName) (fuel prev_end end : ℕ) (seen : List ℕ) (r : WireReader) (rest : List ℕ)
      → prev_end < end
      → end ≤ prev_end + 63
      → end ≤ length n.buf
      → length n.buf < 256
      → ahead r ≡ ((end - prev_end) ∷ slice n.buf prev_end end) ++ rest
      → labels_loop follow (suc fuel) message (take prev_end n.buf) seen r
        ≡ labels_loop follow fuel message
            (take end n.buf)
            (seen ++ (end ∷ []))
            (advance (length ((end - prev_end) ∷ slice n.buf prev_end end)) r)
  loop_slice n fuel prev_end end seen r rest l u m s h =
      let k = length-slice n.buf prev_end end m in
      let p = take-append-slice prev_end end n.buf (omega arith) in
      let q : length (take prev_end n.buf ++ slice n.buf prev_end end) ≡ end =
        omega (arith, ap length p, length-take end n.buf) in
      loop_regular fuel (take prev_end n.buf) seen (slice n.buf prev_end end) r rest
        (omega (arith, k)) (omega (arith, k)) (omega (arith, q))
        (h ∙ ap (λ x. (x ∷ slice n.buf prev_end end) ++ rest) (sym k))
      ∙ (λ i.
          labels_loop follow fuel message (p i) (seen ++ (q i ∷ []))
            (advance (suc (length (slice n.buf prev_end end))) r))

  loop-label_bytes :
      (n : DomainName) (fuel prev_end : ℕ) (seen rest_ends : List ℕ) (r : WireReader)
      (rest : List ℕ)
      → length n.buf < 256
      → Ends prev_end rest_ends (length n.buf)
      → length rest_ends < fuel
      → ahead r ≡ (label_bytes n.buf prev_end rest_ends ++ (0 ∷ [])) ++ rest
      → labels_loop follow fuel message (take prev_end n.buf) seen r
        ≡ ok (
          record { buf = n.buf; ends = seen ++ rest_ends },
          advance (length (label_bytes n.buf prev_end rest_ends ++ (0 ∷ []))) r,
        )
  loop-label_bytes n zero prev_end seen rest_ends r rest s e f h = absurd (omega arith)
  loop-label_bytes n (suc fuel) prev_end seen [] r rest s e f h =
      loop_root fuel (take prev_end n.buf) seen r rest h ∙ (λ i. ok (
        record {
          buf = (ap (λ k. take k n.buf) e ∙ take_all n.buf) i;
          ends = sym (append-nil seen) i;
        },
        advance 1 r,
      ))
  loop-label_bytes n (suc fuel) prev_end seen (end ∷ ends) r rest s (l, u, e) f h =
      let piece : List ℕ = (end - prev_end) ∷ slice n.buf prev_end end in
      let more : List ℕ = label_bytes n.buf end ends ++ (0 ∷ []) in
      let g : ahead r ≡ piece ++ (more ++ rest) = h ∙ simp append_assoc in
      loop_slice n fuel prev_end end seen r (more ++ rest) l u (Ends-le end ends (length n.buf) e) s
        g
      ∙ loop-label_bytes n fuel end (seen ++ (end ∷ [])) ends (advance (length piece) r) rest s e
          (omega arith) (ahead-advance r piece (more ++ rest) g ∙ refl)
      ∙ (λ i. ok (
        record { buf = n.buf; ends = append_assoc seen (end ∷ []) ends i },
        record r {
          pos =
              moved r piece more (label_bytes n.buf prev_end (end ∷ ends) ++ (0 ∷ []))
                (append_assoc piece (label_bytes n.buf end ends) (0 ∷ [])) i;
        },
      ))

-- At any depth that is not refused.
with_depth-name_bytes :
    (levels : ℕ) (n : DomainName) (message : List ℕ)
    → IsValid n
    → Decodes (read_name_with_depth (suc levels) message) (name_bytes n) n
unfolding read_name_with_depth name_bytes
with_depth-name_bytes levels n message v = record {
  apply = λ r rest h.
      loop-label_bytes _ message n (remaining r) 0 [] n.ends r rest v.short v.rising
        (omega (
          arith,
          remaining-ahead r,
          ap length h,
          length-append (label_bytes n.buf 0 n.ends ++ (0 ∷ [])) rest,
          length-append (label_bytes n.buf 0 n.ends) (0 ∷ []),
          length-label_bytes n.buf 0 n.ends v.rising,
          count-Ends 0 n.ends (length n.buf) v.rising,
        ))
        h;
}

pub read_name-name_bytes :
    (n : DomainName) (message : List ℕ) → IsValid n → Decodes (read_name message) (name_bytes n) n
unfolding read_name
read_name-name_bytes n message v = with_depth-name_bytes 63 n message v

-- A well-formed name is read back from its uncompressed form wherever the form stands ahead of a
-- reader, which moves on by the bytes of the form; the message that pointers lead into is any.
pub read_name-to_wire :
    (n : DomainName) (message : List ℕ) (r : WireReader) (rest : List ℕ)
    → IsValid n
    → ahead r ≡ to_wire n ++ rest
    → read_name message r ≡ ok (n, advance (length (to_wire n)) r)
unfolding to_wire
read_name-to_wire n message r rest v h =
    let e = write-name_bytes n [] v in
    rw e ((read_name-name_bytes n message v).apply r rest (h ∙ ap (λ w. w ++ rest) e))
