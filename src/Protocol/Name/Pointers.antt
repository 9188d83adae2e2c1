-- ===== src/Protocol/Name/Pointers.antt =====
-- Compression pointers that lead round in a circle.
use border_dns.Prelude.{
  ℕ, zero, suc, ◌+◌, ◌-◌, ◌*◌, ◌%◌, ◌≤◌, ◌<◌, ◌≡◌, refl, ap, List, [], ◌∷◌, length, drop,
  length-drop, arith, leb, false,
}
use border_dns.Types.Error.{ProtocolError, Result, ok, err, pointer_loop}
use border_dns.Protocol.Wire.{WireReader, ◌>>=◌, ◌>>◌, new, set_pos}
use border_dns.Protocol.Wire.Laws.{
  some_left, peek_u8-ahead, read_u8-Decodes, advance, ahead-advance,
}
use border_dns.Protocol.Name.{
  DomainName, read_pointer, labels_loop, read_name_with_depth, read_name, classify, pointer,
}

abbrev pub reader_at : List ℕ → ℕ → WireReader
reader_at message offset = record { buf = message; pos = offset; saved_pos = [] }

-- At `offset` the message holds a pointer to `target`.
pub record PointsTo (message : List ℕ) (offset target : ℕ) : Type 0 where
  pub byte : ℕ
  pub byte2 : ℕ
  pub rest : List ℕ
  pub here : drop offset message ≡ byte ∷ byte2 ∷ rest
  pub marked : 0xC0 ≤ byte
  pub leads : byte % 64 * 256 + byte2 ≡ target

classify_pointer : (byte : ℕ) → 0xC0 ≤ byte → classify byte ≡ pointer
unfolding classify
classify_pointer byte h = ground arith

module _ (message : List ℕ) where
  target_in_message : (offset target : ℕ) → PointsTo message offset target → offset < length message
  target_in_message offset target p = omega (arith, ap length p.here, length-drop offset message)

  set_pos_target :
      (offset : ℕ)
      → offset < length message
      → set_pos offset (new message) ≡ ok (tt, reader_at message offset)
  unfolding set_pos new
  set_pos_target offset h = ground arith

  -- Reading at a pointer is following it.
  read_pointer-follow :
      (follow : ℕ → Result DomainName) (buf ends : List ℕ) (offset target : ℕ)
      (p : PointsTo message offset target) {e : ProtocolError}
      → target < length message
      → follow target ≡ err e
      → read_pointer follow message buf ends p.byte (reader_at message offset) ≡ err e
  unfolding read_pointer
  read_pointer-follow follow buf ends offset target p h f =
      let r = reader_at message offset in
      let e1 = (read_u8-Decodes p.byte).apply r (p.byte2 ∷ p.rest) p.here in
      let e2 =
        (read_u8-Decodes p.byte2).apply (advance 1 r) p.rest
          (ahead-advance r (p.byte ∷ []) (p.byte2 ∷ p.rest) p.here) in
      let inside : leb (length message) target ≡ false = ground arith in
      rw (e1, ◌>>=◌, e2, p.leads, inside, f)

  loop-follow :
      (follow : ℕ → Result DomainName) (fuel : ℕ) (buf ends : List ℕ) (offset target : ℕ)
      (p : PointsTo message offset target) {e : ProtocolError}
      → target < length message
      → follow target ≡ err e
      → labels_loop follow (suc fuel) message buf ends (reader_at message offset) ≡ err e
  unfolding labels_loop
  loop-follow follow fuel buf ends offset target p h f =
      let r = reader_at message offset in
      rw
        (
          some_left r p.byte (p.byte2 ∷ p.rest) p.here,
          peek_u8-ahead r p.byte (p.byte2 ∷ p.rest) p.here,
          classify_pointer p.byte p.marked,
        )
        (read_pointer-follow follow buf ends offset target p h f)

module _ (message : List ℕ) (Circle : ℕ → Type 0)
    (closed : (offset : ℕ)
      → Circle offset
      → (target : ℕ) × PointsTo message offset target × Circle target) where
  with_depth_circle :
      (levels offset : ℕ)
      → Circle offset
      → (last : ℕ) × (read_name_with_depth levels message (reader_at message offset)
          ≡ err (pointer_loop last 64))
  unfolding read_name_with_depth
  with_depth_circle zero offset c = (offset, refl)
  with_depth_circle (suc levels) offset c =
      let (target, p, c') = closed offset c in
      let (last, e) = with_depth_circle levels target c' in
      let (_, p', _) = closed target c' in
      let inside = target_in_message message target _ p' in
      let here = target_in_message message offset target p in
      let some : length message - offset ≡ suc (length message - offset - 1) = omega arith in
      (
        last,
        rw some (
            loop-follow message _ (length message - offset - 1) [] [] offset target p inside
              (rw (set_pos_target message target inside, ◌>>◌, ◌>>=◌, e))),
      )

  -- Where each offset of a set holds a pointer to an offset of the set, reading a name at any of them
  -- ends, and is refused as a pointer loop.
  pub read_name_circle :
      (offset : ℕ)
      → Circle offset
      → (last : ℕ) × (read_name message (reader_at message offset) ≡ err (pointer_loop last 64))
  unfolding read_name
  read_name_circle offset c = with_depth_circle 64 offset c
