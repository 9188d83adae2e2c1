-- ===== src/Protocol/Name/Termination.antt =====
-- The loops of name decoding end: the bytes left bound the rounds, and the depth the pointers.
use border_dns.Prelude.{
  ℕ, zero, suc, ◌≤◌, ◌<◌, ◌≡◌, refl, sym, ap, ◌∙◌, List, ◌++◌, length, arith, ◌==◌, ◌+◌, false,
  get_or, inl, inr, Bool-cases,
}
use border_dns.Types.Error.{
  Result, ok, err, ProtocolError, invalid_pointer_marker, buffer_underflow,
}
use border_dns.Protocol.Wire.{
  WireReader, ◌>>=◌, ◌>>◌, pure, remaining, read_u8, read_bytes, peek_u8,
}
use border_dns.Protocol.Wire.Laws.{>>=-eq-ok}
use border_dns.Protocol.Name.{
  DomainName, push_end, lift, read_pointer, read_label, labels_loop, LengthByte, classify, pointer,
  root_label, regular, reserved,
}

abbrev Moves : WireReader → Result (ℕ × WireReader) → Type 0
Moves r (ok (b, s)) = remaining s < remaining r
Moves r (err e) = Unit {0}

read_u8-Moves : (r : WireReader) (x : Result (ℕ × WireReader)) → read_u8 r ≡ x → Moves r x
unfolding read_u8
read_u8-Moves r (ok (b, s)) h = ground arith
read_u8-Moves r (err e) h = tt

read_bytes_moves :
    (len : ℕ) (r s : WireReader) (bytes : List ℕ)
    → read_bytes len r ≡ ok (bytes, s)
    → remaining s ≤ remaining r
unfolding read_bytes
read_bytes_moves len r s bytes h = ground arith

lift_stays {ℓ} :
    {A : Type ℓ} (m : Result A) (r s : WireReader) (a : A) → lift m r ≡ ok (a, s) → s ≡ r
lift_stays (ok b) r s a h = cc
lift_stays (err e) r s a h = cc

-- A label takes a byte at least.
read_label_shorter :
    (byte : ℕ) (buf ends : List ℕ) (r s : WireReader) (p : List ℕ × List ℕ)
    → read_label byte buf ends r ≡ ok (p, s)
    → remaining s < remaining r
unfolding read_label
read_label_shorter byte buf ends r s p h =
    let (b, t, e, h) = >>=-eq-ok read_u8 _ r h in
    let (bytes, u, e', h) = >>=-eq-ok (read_bytes byte) _ t h in
    let (all_ends, w, e'', h) = >>=-eq-ok (lift (push_end (length (buf ++ bytes)) ends)) _ u h in
    let stays = lift_stays (push_end (length (buf ++ bytes)) ends) u w all_ends e'' in
    let same : w ≡ s = cc in
    omega (
      arith,
      read_u8-Moves r (ok (b, t)) e,
      read_bytes_moves byte t u bytes e',
      ap remaining (sym stays ∙ same),
    )

-- The byte under a reader.
abbrev here : WireReader → ℕ
here r = get_or r.buf r.pos 0

peek_u8-here : (r : WireReader) → (remaining r == 0) ≡ false → peek_u8 r ≡ ok (here r, r)
unfolding peek_u8
peek_u8-here r h = ground arith

read_u8-here :
    (r : WireReader)
    → (remaining r == 0) ≡ false
    → read_u8 r ≡ ok (here r, record r { pos = r.pos + 1 })
unfolding read_u8
read_u8-here r h = ground arith

read_u8->>-pure :
    (r : WireReader) (n : DomainName)
    → (remaining r == 0) ≡ false
    → (read_u8 >> pure n) r ≡ ok (n, record r { pos = r.pos + 1 })
read_u8->>-pure r n h = rw (read_u8-here r h, ◌>>=◌) refl

module _ (follow : ℕ → Result DomainName) (message : List ℕ) where
  -- The rounds of the loop, with nothing that counts them: what it returns at a reader, once the
  -- labels `buf`, which end at `ends`, are taken. A run is a finite tree, so a loop that goes on for
  -- ever returns nothing.
  pub data Returns : List ℕ → List ℕ → WireReader → Result (DomainName × WireReader) → Type 0 where
    no_bytes_left :
        {buf ends : List ℕ} {r : WireReader}
        → remaining r ≡ 0
        → Returns buf ends r (err (buffer_underflow 1 0))
    at_pointer :
        {buf ends : List ℕ} {r : WireReader}
        → (remaining r == 0) ≡ false
        → classify (here r) ≡ pointer
        → Returns buf ends r (read_pointer follow message buf ends (here r) r)
    at_root :
        {buf ends : List ℕ} {r : WireReader}
        → (remaining r == 0) ≡ false
        → classify (here r) ≡ root_label
        → Returns buf ends r (ok (record { buf = buf; ends = ends }, record r { pos = r.pos + 1 }))
    at_reserved :
        {buf ends : List ℕ} {r : WireReader}
        → (remaining r == 0) ≡ false
        → classify (here r) ≡ reserved
        → Returns buf ends r (err (invalid_pointer_marker r.pos (here r)))
    label_refused :
        {buf ends : List ℕ} {r : WireReader} {e : ProtocolError}
        → (remaining r == 0) ≡ false
        → classify (here r) ≡ regular
        → read_label (here r) buf ends r ≡ err e
        → Returns buf ends r (err e)
    label_taken :
        {buf ends : List ℕ} {r s : WireReader} {p : List ℕ × List ℕ}
        {x : Result (DomainName × WireReader)}
        → (remaining r == 0) ≡ false
        → classify (here r) ≡ regular
        → read_label (here r) buf ends r ≡ ok (p, s)
        → Returns p.0 p.1 s x
        → Returns buf ends r x

  label-Returns :
      (f : ℕ) (buf ends : List ℕ) (r : WireReader) (x : Result ((List ℕ × List ℕ) × WireReader))
      → (remaining r == 0) ≡ false
      → classify (here r) ≡ regular
      → read_label (here r) buf ends r ≡ x
      → ((s : WireReader) (p : List ℕ × List ℕ)
          → remaining s < remaining r
          → Returns p.0 p.1 s (labels_loop follow f message p.0 p.1 s))
      → Returns buf ends r
          ((read_label (here r) buf ends >>= λ p. labels_loop follow f message p.0 p.1) r)
  label-Returns f buf ends r (err e) n c h ih = rw (h, ◌>>=◌) (label_refused n c h)
  label-Returns f buf ends r (ok (p, s)) n c h ih =
      rw (h, ◌>>=◌) (label_taken n c h (ih s p (read_label_shorter (here r) buf ends r s p h)))

  round-Returns :
      (f : ℕ) (buf ends : List ℕ) (r : WireReader) (c : LengthByte)
      → (remaining r == 0) ≡ false
      → classify (here r) ≡ c
      → ((s : WireReader) (p : List ℕ × List ℕ)
          → remaining s < remaining r
          → Returns p.0 p.1 s (labels_loop follow f message p.0 p.1 s))
      → Returns buf ends r (labels_loop follow (suc f) message buf ends r)
  unfolding labels_loop
  round-Returns f buf ends r pointer n c ih = rw (n, peek_u8-here r n, c) (at_pointer n c)
  round-Returns f buf ends r root_label n c ih =
      rw (n, peek_u8-here r n, c, read_u8->>-pure r (record { buf = buf; ends = ends }) n)
        (at_root n c)
  round-Returns f buf ends r regular n c ih =
      rw (n, peek_u8-here r n, c) (label-Returns f buf ends r _ n c refl ih)
  round-Returns f buf ends r reserved n c ih = rw (n, peek_u8-here r n, c) (at_reserved n c)

  no_bytes :
      (f : ℕ) (buf ends : List ℕ) (r : WireReader)
      → remaining r ≡ 0
      → labels_loop follow f message buf ends r ≡ err (buffer_underflow 1 0)
  unfolding labels_loop
  no_bytes zero buf ends r h = refl
  no_bytes (suc f) buf ends r h = rw h refl

  labels_loop-Returns :
      (f : ℕ) (buf ends : List ℕ) (r : WireReader)
      → remaining r ≤ f
      → Returns buf ends r (labels_loop follow f message buf ends r)
  labels_loop-Returns zero buf ends r h =
      let none_left : remaining r ≡ 0 = omega arith in
      rw (no_bytes zero buf ends r none_left) (no_bytes_left none_left)
  labels_loop-Returns (suc f) buf ends r h = elim (Bool-cases (remaining r == 0)) [
    | inl z ↦
        let none_left : remaining r ≡ 0 = ground arith in
        rw (no_bytes (suc f) buf ends r none_left) (no_bytes_left none_left)
    | inr n ↦
        round-Returns f buf ends r (classify (here r)) n refl
          (λ s p k. labels_loop-Returns f p.0 p.1 s (omega arith))
  ]

  Returns-labels_loop :
      (f : ℕ) (buf ends : List ℕ) (r : WireReader) (x : Result (DomainName × WireReader))
      → Returns buf ends r x
      → remaining r ≤ f
      → labels_loop follow f message buf ends r ≡ x
  unfolding labels_loop
  Returns-labels_loop f buf ends r _ (no_bytes_left z) h = no_bytes f buf ends r z
  Returns-labels_loop zero buf ends r x (at_pointer n c) h = ground arith
  Returns-labels_loop zero buf ends r x (at_root n c) h = ground arith
  Returns-labels_loop zero buf ends r x (at_reserved n c) h = ground arith
  Returns-labels_loop zero buf ends r x (label_refused n c l) h = ground arith
  Returns-labels_loop zero buf ends r x (label_taken n c l more) h = ground arith
  Returns-labels_loop (suc f) buf ends r _ (at_pointer n c) h = rw (n, peek_u8-here r n, c) refl
  Returns-labels_loop (suc f) buf ends r _ (at_root n c) h =
      rw (n, peek_u8-here r n, c) (read_u8->>-pure r (record { buf = buf; ends = ends }) n)
  Returns-labels_loop (suc f) buf ends r _ (at_reserved n c) h = rw (n, peek_u8-here r n, c) refl
  Returns-labels_loop (suc f) buf ends r _ (label_refused n c l) h =
      rw (n, peek_u8-here r n, c) (rw (l, ◌>>=◌) refl)
  Returns-labels_loop (suc f) buf ends r x (label_taken {s} {p} n c l more) h =
      let k = read_label_shorter (here r) buf ends r s p l in
      rw (n, peek_u8-here r n, c)
        (rw (l, ◌>>=◌) (Returns-labels_loop f p.0 p.1 s x more (omega arith)))

  -- Fuel for the bytes left is enough: what the label loop returns is what its rounds, which nothing
  -- counts and which are finitely many, return, and they return nothing else; so the loop of the
  -- source ends on any input, with that result.
  pub labels_loop_enough :
      (f : ℕ) (buf ends : List ℕ) (r : WireReader)
      → remaining r ≤ f
      → Returns buf ends r (labels_loop follow f message buf ends r)
        × ((x : Result (DomainName × WireReader))
            → Returns buf ends r x
            → labels_loop follow f message buf ends r ≡ x)
  labels_loop_enough f buf ends r h =
      (labels_loop-Returns f buf ends r h, λ x d. Returns-labels_loop f buf ends r x d h)
