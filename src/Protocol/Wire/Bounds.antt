-- ===== src/Protocol/Wire/Bounds.antt =====
-- Reading never leaves the buffer, whatever the bytes are.
use border_dns.Prelude.{
  ℕ, ◌≤◌, ◌≡◌, refl, ◌∙◌, List, length, drop, arith, length-take, length-drop, Bool, true, false,
  if◌then◌else◌,
}
use mathlib.Core.Path.{subst}
use border_dns.Types.Error.{ProtocolError, Result, ok, err}
use border_dns.Protocol.Wire.{
  WireReader, Read, ◌>>=◌, pure, new, set_pos, read_u8, read_u16, read_u32, read_bytes,
}

abbrev pub InBounds : WireReader → Type 0
InBounds r = r.pos ≤ length r.buf

-- What a step from `r` returned: the same buffer, a position further on and still in bounds, and a
-- value with `P`. An error promises nothing.
abbrev pub Within {ℓ} : {A : Type ℓ} → (A → Type 0) → WireReader → Result (A × WireReader) → Type 0
Within P r (ok (a, s)) = (s.buf ≡ r.buf) × (r.pos ≤ s.pos) × InBounds s × P a
Within P r (err e) = Unit {0}

pub record Safe {ℓ} {A : Type ℓ} (P : A → Type 0) (m : Read A) : Type ℓ where
  pub apply : (r : WireReader) → InBounds r → Within P r (m r)

-- What holds from a later reader holds from the first.
Within-after {ℓ} :
    {A : Type ℓ} (P : A → Type 0) (r s : WireReader) (x : Result (A × WireReader))
    → s.buf ≡ r.buf
    → r.pos ≤ s.pos
    → Within P s x
    → Within P r x
Within-after P r s (ok (a, t)) b l (b', l', v, p) = (b' ∙ b, omega arith, v, p)
Within-after P r s (err e) b l w = tt

module _ {ℓ κ} {A : Type ℓ} {B : Type κ} (Q : A → Type 0) (P : B → Type 0) (f : A → Read B) where
  pub Within->>= :
      (r : WireReader) (x : Result (A × WireReader))
      → Within Q r x
      → ((a : A) → Q a → Safe P (f a))
      → Within P r (elim x [ ok (a, s) ↦ f a s | err e ↦ err e ])
  Within->>= r (ok (a, s)) (b, l, v, q) sf = Within-after P r s (f a s) b l ((sf a q).apply s v)
  Within->>= r (err e) w sf = tt

module _ {ℓ κ} {A : Type ℓ} {B : Type κ} {Q : A → Type 0} {P : B → Type 0} {m : Read A}
    {f : A → Read B} where
  pub Safe->>= : Safe Q m → ((a : A) → Q a → Safe P (f a)) → Safe P (m >>= f)
  Safe->>= sm sf = record { apply = λ r v. Within->>= Q P f r (m r) (sm.apply r v) sf }

pub Safe-pure {ℓ} : {A : Type ℓ} {P : A → Type 0} {a : A} → P a → Safe P (pure a)
Safe-pure p = record { apply = λ r v. (refl, omega arith, v, p) }

pub Safe-err {ℓ} : {A : Type ℓ} (P : A → Type 0) (e : ProtocolError) → Safe {A = A} P (λ _. err e)
Safe-err P e = record { apply = λ r v. tt }

pub Safe-if {ℓ} :
    {A : Type ℓ} {P : A → Type 0} {m k : Read A} (b : Bool)
    → Safe P m
    → Safe P k
    → Safe P (if b then m else k)
Safe-if true sm sk = sm
Safe-if false sm sk = sk

unfoldable pub Anything {ℓ} : {A : Type ℓ} → A → Type 0
Anything a = Unit

pub read_u8-Safe : Safe (Anything {A = ℕ}) read_u8
unfolding read_u8 Anything
read_u8-Safe = record { apply = λ r v. ground arith }

pub read_u16-Safe : Safe (Anything {A = ℕ}) read_u16
unfolding read_u16 Anything
read_u16-Safe = record { apply = λ r v. ground arith }

pub read_u32-Safe : Safe (Anything {A = ℕ}) read_u32
unfolding read_u32 Anything
read_u32-Safe = record { apply = λ r v. ground arith }

pub read_bytes-Safe : (len : ℕ) → Safe (λ bytes. length bytes ≡ len) (read_bytes len)
unfolding read_bytes
read_bytes-Safe len = record {
  apply = λ r v. ground (arith, length-take len (drop r.pos r.buf), length-drop r.pos r.buf);
}

pub set_pos-Safe :
    (new_pos : ℕ) (buf : List ℕ)
    → Within (Anything {A = Unit {0}}) (new buf) (set_pos new_pos (new buf))
unfolding set_pos Anything new
set_pos-Safe new_pos buf = ground arith

pub Within-if {ℓ} :
    {A : Type ℓ} (P : A → Type 0) (r : WireReader) (x y : Result (A × WireReader)) (b : Bool)
    → Within P r x
    → Within P r y
    → Within P r (if b then x else y)
Within-if P r x y true h k = h
Within-if P r x y false h k = k

-- The value alone, of a run that succeeds.
pub Safe-value {ℓ} :
    {A : Type ℓ} {P : A → Type 0} {m : Read A} (r : WireReader) {a : A} {s : WireReader}
    → Safe P m
    → InBounds r
    → m r ≡ ok (a, s)
    → P a
Safe-value {P} r h v e = let (_, _, _, p) = subst (Within P r) e (h.apply r v) in p
