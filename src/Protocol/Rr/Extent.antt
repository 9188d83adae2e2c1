-- ===== src/Protocol/Rr/Extent.antt =====
-- How far a read of record data goes.
use border_dns.Prelude.{
  ℕ, ◌+◌, ◌-◌, ◌≤◌, ◌≡◌, List, length, ltb, ◌==◌, if◌then◌else◌, arith, if-elim, take, drop,
}
use mathlib.Core.Path.{subst}
use border_dns.Types.Error.{Result, ok, err, buffer_underflow, rd_length_exceeds_buffer}
use border_dns.Types.Codes.{RecordType}
use border_dns.Protocol.Wire.{WireReader, ◌>>=◌, ◌>>◌, pure, remaining, read_bytes}
use border_dns.Protocol.Wire.Bounds.{InBounds, Within}
use border_dns.Protocol.Rr.{RData, read_body, skip_rest, read_rdata}
use border_dns.Protocol.Rr.Sound.{Sound, read_body-Safe, read_rdata-Safe}

-- A run that succeeds ends at `n` or later.
abbrev Covers {ℓ} : {A : Type ℓ} → ℕ → Result (A × WireReader) → Type 0
Covers n (ok (a, s)) = n ≤ s.pos
Covers n (err e) = Unit

read_bytes-Covers : (len : ℕ) (r : WireReader) → Covers (r.pos + len) (read_bytes len r)
unfolding read_bytes
read_bytes-Covers len r =
    if-elim (λ (x : Result (List ℕ × WireReader)). Covers (r.pos + len) x) (ltb (remaining r) len)
      {x = err (buffer_underflow len (remaining r))}
      {y = ok (take len (drop r.pos r.buf), record r { pos = r.pos + len })} (λ _. tt)
      (λ _. omega arith)

pure-Covers :
    (n : ℕ) (d : RData) (x : Result (List ℕ × WireReader))
    → Covers n x
    → Covers n (elim x [ ok (a, s) ↦ pure d s | err e ↦ err e ])
pure-Covers n d (ok (a, s)) h = h
pure-Covers n d (err e) h = tt

Covers-le {ℓ} :
    {A : Type ℓ} (n m : ℕ) (x : Result (A × WireReader)) → n ≤ m → Covers m x → Covers n x
Covers-le n m (ok (a, s)) l h = omega arith
Covers-le n m (err e) l h = tt

skip_rest-Covers :
    (start rdlength : ℕ) (d : RData) (t : WireReader)
    → start ≤ t.pos
    → Covers (start + rdlength) (skip_rest start rdlength d t)
unfolding skip_rest
skip_rest-Covers start rdlength d t l =
    let n = start + rdlength in
    let skip = rdlength - (t.pos - start) in
    if-elim (λ (x : Result (RData × WireReader)). Covers n x) (t.pos - start == rdlength)
      {x = ok (d, t)} {y = if ltb 0 skip then (read_bytes skip >> pure d) t else ok (d, t)}
      (λ e. ground arith)
      (λ _.
        if-elim (λ (x : Result (RData × WireReader)). Covers n x) (ltb 0 skip)
          {x = (read_bytes skip >> pure d) t} {y = ok (d, t)}
          (λ e. pure-Covers n d (read_bytes skip t) (
            Covers-le n (t.pos + skip) (read_bytes skip t) (omega arith)
              (read_bytes-Covers skip t)))
          (λ e. ground arith))

rest-Covers :
    (start rdlength : ℕ) (r : WireReader) (x : Result (RData × WireReader))
    → start ≤ r.pos
    → Within Sound r x
    → Covers
        (start + rdlength)
        (elim x [ ok (a, s) ↦ skip_rest start rdlength a s | err e ↦ err e ])
rest-Covers start rdlength r (ok (a, s)) l (b, f, i, p) =
    skip_rest-Covers start rdlength a s (omega arith)
rest-Covers start rdlength r (err e) l w = tt

read_rdata-Covers :
    (message : List ℕ) (t : RecordType) (rdlength : ℕ) (r : WireReader)
    → InBounds r
    → Covers (r.pos + rdlength) (read_rdata t rdlength message r)
unfolding read_rdata
read_rdata-Covers message t rdlength r v =
    if-elim (λ (x : Result (RData × WireReader)). Covers (r.pos + rdlength) x)
      (ltb (length message) (r.pos + rdlength))
      {x = err (rd_length_exceeds_buffer rdlength (remaining r))}
      {y = (read_body t rdlength (r.pos + rdlength) message >>= skip_rest r.pos rdlength) r}
      (λ _. tt)
      (λ _.
        rest-Covers r.pos rdlength r (read_body t rdlength (r.pos + rdlength) message r)
          (omega arith) ((read_body-Safe message t rdlength (r.pos + rdlength)).apply r v))

-- A read of record data that starts in bounds and succeeds ends RDLENGTH bytes on or later, never
-- inside the data, still in bounds of the same buffer, and the data is sound: its names are well
-- formed and its address has the octets of the family.
pub read_rdata-extent :
    (message : List ℕ) (t : RecordType) (rdlength : ℕ) (r s : WireReader) (d : RData)
    → InBounds r
    → read_rdata t rdlength message r ≡ ok (d, s)
    → (r.pos + rdlength ≤ s.pos) × InBounds s × (s.buf ≡ r.buf) × Sound d
read_rdata-extent message t rdlength r s d v h =
    let (b, _, i, p) = subst (Within Sound r) h ((read_rdata-Safe message t rdlength).apply r v) in
    let far : r.pos + rdlength ≤ s.pos =
      subst (λ x. Covers (r.pos + rdlength) x) h (read_rdata-Covers message t rdlength r v) in
    (far, i, b, p)
