-- ===== src/Protocol/Name/Valid.antt =====
-- Well-formed names: the ends grow by one to 63 bytes a label, up to the length of the buffer.
use border_dns.Prelude.{ℕ, ◌+◌, ◌≤◌, ◌<◌, ◌≡◌, refl, List, [], ◌∷◌, ◌++◌, length, arith}
use border_dns.Protocol.Name.{DomainName, root}

-- The ends rise from `prev_end` by label lengths, and the last is `total`.
abbrev pub Ends : ℕ → List ℕ → ℕ → Type 0
Ends prev_end [] total = prev_end ≡ total
Ends prev_end (end ∷ ends) total = (prev_end < end) × (end ≤ prev_end + 63) × Ends end ends total

pub record IsValid (n : DomainName) : Type 0 where
  pub rising : Ends 0 n.ends (length n.buf)
  pub short : length n.buf < 256

pub root-IsValid : IsValid root
unfolding root
root-IsValid = record { rising = refl; short = omega arith }

pub Ends-le :
    (prev_end : ℕ) (ends : List ℕ) (total : ℕ) → Ends prev_end ends total → prev_end ≤ total
Ends-le prev_end [] total h = omega arith
Ends-le prev_end (end ∷ ends) total (l, u, h) = omega (arith, Ends-le end ends total h)

pub Ends-push :
    (prev_end : ℕ) (ends : List ℕ) (total end : ℕ)
    → Ends prev_end ends total
    → total < end
    → end ≤ total + 63
    → Ends prev_end (ends ++ (end ∷ [])) end
Ends-push prev_end [] total end h l u = omega arith
Ends-push prev_end (e ∷ ends) total end (a, b, h) l u = (a, b, Ends-push e ends total end h l u)

-- A name of n labels has n bytes at least.
pub count-Ends :
    (prev_end : ℕ) (ends : List ℕ) (total : ℕ)
    → Ends prev_end ends total
    → length ends + prev_end ≤ total
count-Ends prev_end [] total h = omega arith
count-Ends prev_end (end ∷ ends) total (l, u, h) = omega (arith, count-Ends end ends total h)
