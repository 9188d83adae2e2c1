-- ===== src/Text/Equality.antt =====
-- The comparison of texts decides their equality.
use border_dns.Prelude.{◌≡◌, ◌↔◌, refl, true, false, [], ◌∷◌, arith, Bool-cases, inl, inr}
use border_dns.Text.{Text, text_eq}

pub text_eq_refl : (s : Text) → text_eq s s ≡ true
unfolding text_eq
text_eq_refl [] = refl
text_eq_refl (c ∷ s) = ground (arith, text_eq_refl s)

pub eq_of_text_eq : (s t : Text) → text_eq s t ≡ true → s ≡ t
unfolding text_eq
eq_of_text_eq [] [] h = refl
eq_of_text_eq [] (c ∷ t) h = cc
eq_of_text_eq (b ∷ s) [] h = cc
eq_of_text_eq (b ∷ s) (c ∷ t) h = ground (arith, eq_of_text_eq s t)

pub text_eq_iff : (s t : Text) → (text_eq s t ≡ true) ↔ (s ≡ t)
text_eq_iff s t = (eq_of_text_eq s t, λ e. rw e (text_eq_refl t))

pub text_ne_sym : (s t : Text) → text_eq s t ≡ false → text_eq t s ≡ false
text_ne_sym s t h = elim (Bool-cases (text_eq t s)) [
  | inl e ↦ cc (eq_of_text_eq t s e, text_eq_refl s)
  | inr e ↦ e
]
