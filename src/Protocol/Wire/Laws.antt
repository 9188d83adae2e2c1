-- ===== src/Protocol/Wire/Laws.antt =====
-- How the reader's methods meet the bytes ahead of it, and the rule that joins two of them.
use border_dns.Prelude.{
  ℕ, ◌+◌, ◌≤◌, ◌<◌, ◌^◌, ◌≡◌, refl, sym, ap, ◌∙◌, List, [], ◌∷◌, ◌++◌, length, get_or, false, ◌==◌,
  take, drop, arith, append_assoc, length-append, length-drop, drop-drop, get_or-drop, take-append,
  drop-append,
}
use mathlib.Core.Path.{subst}
use border_dns.Types.Error.{Result, ok, err}
use border_dns.Protocol.Wire.{
  WireReader, Read, ◌>>=◌, pure, remaining, read_u8, read_u16, read_u32, read_bytes, peek_u8,
  u16_to_be_bytes, u32_to_be_bytes,
}

abbrev pub ahead : WireReader → List ℕ
ahead r = drop r.pos r.buf

abbrev pub advance : ℕ → WireReader → WireReader
advance n r = record r { pos = r.pos + n }

-- Wherever these bytes stand ahead of the reader, `m` takes them all and gives `a`.
pub record Decodes {ℓ} {A : Type ℓ} (m : Read A) (bytes : List ℕ) (a : A) : Type ℓ where
  pub apply :
      (r : WireReader) (rest : List ℕ)
      → ahead r ≡ bytes ++ rest
      → m r ≡ ok (a, advance (length bytes) r)

pub ahead-advance :
    (r : WireReader) (xs ys : List ℕ) → ahead r ≡ xs ++ ys → ahead (advance (length xs) r) ≡ ys
ahead-advance r xs ys h =
    sym (drop-drop (length xs) r.pos r.buf) ∙ ap (drop (length xs)) h ∙ drop-append xs ys

pub remaining-ahead : (r : WireReader) → remaining r ≡ length (ahead r)
remaining-ahead r = sym (length-drop r.pos r.buf)

pub Decodes-pure {ℓ} : {A : Type ℓ} (a : A) → Decodes (pure a) [] a
Decodes-pure a = record {
  apply = λ r rest h. ap (λ (p : ℕ). ok (a, record r { pos = p })) (omega arith);
}

pub Decodes-pure_eq {ℓ} : {A : Type ℓ} {a b : A} → a ≡ b → Decodes (pure a) [] b
Decodes-pure_eq {a} {b} e = subst (Decodes (pure a) []) e (Decodes-pure a)

pub Decodes-along {ℓ} :
    {A : Type ℓ} {m : Read A} {xs ys : List ℕ} {a : A} → xs ≡ ys → Decodes m xs a → Decodes m ys a
Decodes-along {m} {a} e d = subst (λ bytes. Decodes m bytes a) e d

module _ {ℓ κ} {A : Type ℓ} {B : Type κ} {m : Read A} (f : A → Read B) {xs ys : List ℕ} {a : A}
    {b : B} where
  pub Decodes->>= : Decodes m xs a → Decodes (f a) ys b → Decodes (m >>= f) (xs ++ ys) b
  Decodes->>= dm df = record { apply = joined }
    where
      joined :
          (r : WireReader) (rest : List ℕ)
          → ahead r ≡ (xs ++ ys) ++ rest
          → (m >>= f) r ≡ ok (b, advance (length (xs ++ ys)) r)
      joined r rest h =
          let e = h ∙ append_assoc xs ys rest in
          rw (dm.apply r (ys ++ rest) e, ◌>>=◌)
            (df.apply _ rest (ahead-advance r xs (ys ++ rest) e)
              ∙ ap (λ (p : ℕ). ok (b, record r { pos = p })) (omega (arith, length-append xs ys)))

-- A chain that succeeds is two steps that do.
pub >>=-eq-ok {ℓ κ} :
    {A : Type ℓ} {B : Type κ} (m : Read A) (f : A → Read B) (r : WireReader) {b : B}
    {t : WireReader}
    → (m >>= f) r ≡ ok (b, t)
    → (a : A) × (s : WireReader) × (m r ≡ ok (a, s)) × (f a s ≡ ok (b, t))
>>=-eq-ok {A} m f r {b} {t} h = split (m r) refl h
  where
    split :
        (x : Result (A × WireReader))
        → m r ≡ x
        → elim x [ ok (a, s) ↦ f a s | err e ↦ err e ] ≡ ok (b, t)
        → (a : A) × (s : WireReader) × (m r ≡ ok (a, s)) × (f a s ≡ ok (b, t))
    split (ok (a, s)) e k = (a, s, e, k)
    split (err x) e k = cc

pub get_or-ahead : (r : WireReader) (i : ℕ) → get_or r.buf (r.pos + i) 0 ≡ get_or (ahead r) i 0
get_or-ahead r i = sym (get_or-drop r.pos i r.buf 0)

-- Bytes ahead are bytes left.
length-ahead : (r : WireReader) (xs rest : List ℕ) → ahead r ≡ xs ++ rest → length xs ≤ remaining r
length-ahead r xs rest h = omega (arith, remaining-ahead r, ap length h, length-append xs rest)

nth_ahead :
    (r : WireReader) (i : ℕ) (xs : List ℕ)
    → ahead r ≡ xs
    → get_or r.buf (r.pos + i) 0 ≡ get_or xs i 0
nth_ahead r i xs h = get_or-ahead r i ∙ ap (λ ys. get_or ys i 0) h

first_ahead : (r : WireReader) (xs : List ℕ) → ahead r ≡ xs → get_or r.buf r.pos 0 ≡ get_or xs 0 0
first_ahead r xs h =
    ap (λ (p : ℕ). get_or r.buf p 0) (let e : r.pos ≡ r.pos + 0 = omega arith in e)
    ∙ nth_ahead r 0 xs h

pub read_u8-Decodes : (b : ℕ) → Decodes read_u8 (b ∷ []) b
unfolding read_u8
read_u8-Decodes b = record {
  apply = λ r rest h. ground (arith, first_ahead r _ h, length-ahead r (b ∷ []) rest h);
}

pub peek_u8-ahead :
    (r : WireReader) (b : ℕ) (rest : List ℕ) → ahead r ≡ b ∷ rest → peek_u8 r ≡ ok (b, r)
unfolding peek_u8
peek_u8-ahead r b rest h = ground (arith, first_ahead r _ h, length-ahead r (b ∷ []) rest h)

pub read_u16-Decodes : (v : ℕ) → v < 2 ^ 16 → Decodes read_u16 (u16_to_be_bytes v) v
unfolding read_u16
read_u16-Decodes v hv = record {
  apply = λ r rest h.
      ground
        (arith, first_ahead r _ h, nth_ahead r 1 _ h, length-ahead r (u16_to_be_bytes v) rest h);
}

pub read_u32-Decodes : (v : ℕ) → v < 2 ^ 32 → Decodes read_u32 (u32_to_be_bytes v) v
unfolding read_u32
read_u32-Decodes v hv = record {
  apply = λ r rest h. ground (
    arith,
    first_ahead r _ h,
    nth_ahead r 1 _ h,
    nth_ahead r 2 _ h,
    nth_ahead r 3 _ h,
    length-ahead r (u32_to_be_bytes v) rest h,
  );
}

pub read_bytes-Decodes : (bytes : List ℕ) → Decodes (read_bytes (length bytes)) bytes bytes
unfolding read_bytes
read_bytes-Decodes bytes = record {
  apply = λ r rest h.
      ground
        (arith, length-ahead r bytes rest h, ap (take (length bytes)) h, take-append bytes rest);
}

-- A byte ahead is a byte left.
pub some_left :
    (r : WireReader) (b : ℕ) (rest : List ℕ) → ahead r ≡ b ∷ rest → (remaining r == 0) ≡ false
some_left r b rest h = ground (arith, remaining-ahead r, ap length h)
