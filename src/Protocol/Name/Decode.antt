-- ===== src/Protocol/Name/Decode.antt =====
-- Decoding a name from any bytes: what comes out is well formed, and reading stays in the buffer.
use border_dns.Prelude.{
  ℕ, zero, suc, ◌+◌, ◌*◌, ◌%◌, ◌≤◌, ◌<◌, ◌≡◌, refl, sym, List, [], ◌∷◌, ◌++◌, length, arith,
  length-append, Bool, true, false, if◌then◌else◌, leb, ◌==◌,
}
use mathlib.Core.Path.{subst}
use border_dns.Types.Error.{
  ProtocolError, Result, ok, err, Result-cases, pointer_out_of_bounds, invalid_pointer_marker,
  buffer_underflow,
}
use border_dns.Types.Error
use border_dns.Protocol.Wire.{
  WireReader, Read, ◌>>◌, pure, remaining, new, set_pos, read_u8, peek_u8,
}
use border_dns.Protocol.Wire.Bounds.{
  InBounds, Within, Safe, Safe->>=, Safe-pure, Safe-if, set_pos-Safe, Within->>=, Anything,
  read_u8-Safe, read_bytes-Safe,
}
use border_dns.Protocol.Name.{
  DomainName, push_end, push_suffix, join_suffix, lift, read_pointer, read_label, labels_loop,
  read_name_with_depth, read_name, classify, LengthByte, pointer, root_label, regular, reserved,
}
use border_dns.Protocol.Name.Valid.{Ends, IsValid, Ends-push}

-- What a step that cannot touch the reader may return.
abbrev Gives {ℓ} : {A : Type ℓ} → (A → Type 0) → Result A → Type 0
Gives P (ok a) = P a
Gives P (err e) = Unit {0}

Safe-lift {ℓ} : {A : Type ℓ} (P : A → Type 0) (m : Result A) → Gives P m → Safe P (lift m)
Safe-lift P (ok a) g = Safe-pure g
Safe-lift P (err e) g = record { apply = λ r v. tt }

Gives->>= {ℓ κ} :
    {A : Type ℓ} {B : Type κ} (Q : A → Type 0) (P : B → Type 0) (m : Result A) (f : A → Result B)
    → Gives Q m
    → ((a : A) → Q a → Gives P (f a))
    → Gives P (Error.◌>>=◌ m f)
Gives->>= Q P (ok a) f g h = h a g
Gives->>= Q P (err e) f g h = tt

-- Labels read so far, as the loop holds them.
abbrev Labels : List ℕ → List ℕ → Type 0
Labels buf ends = Ends 0 ends (length buf) × (length buf < 256)

push_end-Gives :
    (end : ℕ) (ends : List ℕ)
    → Gives (λ all_ends. (all_ends ≡ ends ++ (end ∷ [])) × (end < 256)) (push_end end ends)
unfolding push_end
push_end-Gives end ends = ground arith

abbrev Joined : ℕ → ℕ → List ℕ → Type 0
Joined start total all_ends = Ends 0 all_ends (start + total) × (start + total < 256)

-- The suffix's ends, moved by `start`, go on from those that are there.
push_suffix-Gives :
    (start prev_end : ℕ) (suffix_ends ends : List ℕ) (total : ℕ)
    → Ends 0 ends (start + prev_end)
    → start + prev_end < 256
    → Ends prev_end suffix_ends total
    → Gives (Joined start total) (push_suffix start suffix_ends ends)
unfolding push_suffix
push_suffix-Gives start prev_end [] ends total h s e =
    (subst (λ k. Ends 0 ends (start + k)) e h, omega arith)
push_suffix-Gives start prev_end (end ∷ suffix_ends) ends total h s (l, u, e) =
    Gives->>= _ (Joined start total) (push_end (start + end) ends) (push_suffix start suffix_ends)
      (push_end-Gives (start + end) ends)
      λ all_ends (p, q).
        push_suffix-Gives start end suffix_ends all_ends total
          (subst (λ x. Ends 0 x (start + end)) (sym p)
            (Ends-push 0 ends (start + prev_end) (start + end) h (omega arith) (omega arith)))
          q e

join_suffix-Gives :
    (buf ends : List ℕ) (suffix : DomainName)
    → Labels buf ends
    → IsValid suffix
    → Gives IsValid (join_suffix buf ends suffix)
unfolding join_suffix
join_suffix-Gives buf ends suffix (h, s) v =
    let e : length buf ≡ length buf + 0 = omega arith in
    Gives->>= (Joined (length buf) (length suffix.buf)) IsValid
      (push_suffix (length buf) suffix.ends ends) _
      (push_suffix-Gives (length buf) 0 suffix.ends ends (length suffix.buf)
        (subst (Ends 0 ends) e h) (omega arith) v.rising)
      λ all_ends (p, q).
        let l = length-append buf suffix.buf in
        record { rising = subst (Ends 0 all_ends) (sym l) p; short = omega (arith, l) }

-- A length byte that starts a label.
classify-regular : (byte : ℕ) → classify byte ≡ regular → (0 < byte) × (byte ≤ 63)
unfolding classify
classify-regular byte h = ground arith

read_label-Safe :
    (byte : ℕ) (buf ends : List ℕ)
    → Labels buf ends
    → 0 < byte
    → byte ≤ 63
    → Safe (λ p. Labels p.0 p.1) (read_label byte buf ends)
unfolding read_label
read_label-Safe byte buf ends (h, s) l u = Safe->>= read_u8-Safe λ _ _.
    Safe->>= (read_bytes-Safe byte) λ bytes b.
      let k = length-append buf bytes in
      Safe->>=
        (Safe-lift _ (push_end (length (buf ++ bytes)) ends)
          (push_end-Gives (length (buf ++ bytes)) ends))
        λ all_ends (p, q). Safe-pure (
          subst (λ x. Ends 0 x (length (buf ++ bytes))) (sym p)
              (Ends-push 0 ends (length buf) (length (buf ++ bytes)) h (omega arith) (omega arith)),
          q,
        )

Within-if {ℓ} :
    {A : Type ℓ} (P : A → Type 0) (r : WireReader) (b : Bool) (x y : Result (A × WireReader))
    → Within P r x
    → Within P r y
    → Within P r (if b then x else y)
Within-if P r true x y p q = p
Within-if P r false x y p q = q

module _ (follow : ℕ → Result DomainName)
    (followed : (offset : ℕ) → Gives IsValid (follow offset)) where
  read_pointer-Safe :
      (message buf ends : List ℕ) (byte : ℕ)
      → Labels buf ends
      → Safe IsValid (read_pointer follow message buf ends byte)
  unfolding read_pointer
  read_pointer-Safe message buf ends byte h = Safe->>= read_u8-Safe λ _ _.
      Safe->>= read_u8-Safe λ byte2 _.
        let offset = byte % 64 * 256 + byte2 in
        Safe-if (leb (length message) offset)
          (Safe-lift IsValid (err (pointer_out_of_bounds offset (length message))) tt)
          (Safe->>= (Safe-lift IsValid (follow offset) (followed offset)) λ suffix v.
            Safe-lift IsValid (join_suffix buf ends suffix) (join_suffix-Gives buf ends suffix h v))

  -- The arms of one round; `again` is the rest of the loop.
  round-Within :
      (message buf ends : List ℕ) (byte : ℕ) (r : WireReader) (again : Read DomainName)
      → Labels buf ends
      → InBounds r
      → ((0 < byte) → (byte ≤ 63) → Safe IsValid again)
      → (kind : LengthByte) → classify byte ≡ kind
      → Within IsValid r (elim kind [
        | pointer ↦ read_pointer follow message buf ends byte r
        | root_label ↦ (read_u8 >> pure (record { buf = buf; ends = ends })) r
        | regular ↦ again r
        | reserved ↦ err (invalid_pointer_marker r.pos byte)
      ])
  round-Within message buf ends byte r again h v a pointer e =
      (read_pointer-Safe message buf ends byte h).apply r v
  round-Within message buf ends byte r again h v a root_label e =
      (Safe->>= read_u8-Safe λ _ _. Safe-pure (record { rising = h.0; short = h.1 })).apply r v
  round-Within message buf ends byte r again h v a regular e =
      let (l, u) = classify-regular byte e in (a l u).apply r v
  round-Within message buf ends byte r again h v a reserved e = tt

  peeked-Within :
      (message buf ends : List ℕ) (r : WireReader) (again : ℕ → Read DomainName)
      → Labels buf ends
      → InBounds r
      → ((byte : ℕ) → (0 < byte) → (byte ≤ 63) → Safe IsValid (again byte))
      → (peek : Result (ℕ × WireReader))
      → Within IsValid r (elim peek [
        | err e ↦ err e
        | ok (byte, _) ↦ elim (classify byte) [
          | pointer ↦ read_pointer follow message buf ends byte r
          | root_label ↦ (read_u8 >> pure (record { buf = buf; ends = ends })) r
          | regular ↦ again byte r
          | reserved ↦ err (invalid_pointer_marker r.pos byte)
        ]
      ])
  peeked-Within message buf ends r again h v a (err e) = tt
  peeked-Within message buf ends r again h v a (ok (byte, _)) =
      round-Within message buf ends byte r (again byte) h v (a byte) (classify byte) refl

  labels_loop-Safe :
      (fuel : ℕ) (message buf ends : List ℕ)
      → Labels buf ends
      → Safe IsValid (labels_loop follow fuel message buf ends)
  unfolding labels_loop
  labels_loop-Safe zero message buf ends h = record { apply = λ r v. tt }
  labels_loop-Safe (suc fuel) message buf ends h = record {
    apply = λ r v. Within-if IsValid r (remaining r == 0) _ _ tt (
        peeked-Within message buf ends r _ h v
          (λ byte l u.
            Safe->>= (read_label-Safe byte buf ends h l u)
              λ p q. labels_loop-Safe fuel message p.0 p.1 q)
          (peek_u8 r));
  }

Gives-followed :
    (r : WireReader) (x : Result (DomainName × WireReader))
    → Within IsValid r x
    → Gives IsValid (Error.◌>>=◌ x λ p. ok p.0)
Gives-followed r (ok (n, s)) (_, _, _, v) = v
Gives-followed r (err e) w = tt

target-Gives :
    (levels : ℕ) (message : List ℕ) (offset : ℕ)
    → Safe IsValid (read_name_with_depth levels message)
    → Gives IsValid (
        Error.◌>>=◌
          ((set_pos offset >> read_name_with_depth levels message) (new message))
          λ p. ok p.0)
target-Gives levels message offset deeper = Gives-followed (new message) _ (
    Within->>= Anything IsValid (λ _. read_name_with_depth levels message) (new message)
      (set_pos offset (new message)) (set_pos-Safe offset message) (λ _ _. deeper))

-- At every depth.
with_depth-Safe :
    (levels : ℕ) (message : List ℕ) → Safe IsValid (read_name_with_depth levels message)
unfolding read_name_with_depth
with_depth-Safe zero message = record { apply = λ r v. tt }
with_depth-Safe (suc levels) message = record {
  apply = λ r v.
      (labels_loop-Safe _
          (λ offset. target-Gives levels message offset (with_depth-Safe levels message))
          (remaining r) message [] [] (refl, omega arith)).apply
        r v;
}

pub read_name-Safe : (message : List ℕ) → Safe IsValid (read_name message)
unfolding read_name
read_name-Safe message = with_depth-Safe 64 message

-- Whatever the bytes, and wherever its pointers lead, a name that `read_name` returns is well
-- formed: its labels have 1 to 63 bytes, 255 in all at most, and its ends fit the buffer.
-- The reader keeps its buffer, does not move back, and stays in bounds.
pub read_name-IsValid :
    (message : List ℕ) (r s : WireReader) (n : DomainName)
    → InBounds r
    → read_name message r ≡ ok (n, s)
    → IsValid n × (s.buf ≡ r.buf) × (r.pos ≤ s.pos) × InBounds s
read_name-IsValid message r s n v e =
    let (b, l, u, w) = subst (Within IsValid r) e ((read_name-Safe message).apply r v) in
    (w, b, l, u)
