-- ===== src/Protocol/Name/Build.antt =====
-- Building names from labels and taking them apart.
use mathlib.Core.Path.{subst}
use border_dns.Prelude.{
  ℕ, ◌-◌, ◌≤◌, ◌<◌, ◌≡◌, refl, sym, ap, ◌∙◌, List, [], ◌∷◌, ◌++◌, length, take, drop, arith,
  length-append, length-drop, append_assoc, append-nil, take_all, drop-append_le, take-append_le,
  drop-append, inl, inr,
}
use border_dns.Types.Error.{Result-cases, ok}
use border_dns.Protocol.Name.{
  DomainName, push_end, collect_labels, check_label_count, from_labels, slice, labels_from, labels,
}
use border_dns.Protocol.Name.Valid.{Ends, IsValid, Ends-push, Ends-le}

-- The labels that are kept.
abbrev pub nonempty : List (List ℕ) → List (List ℕ)
nonempty [] = []
nonempty ([] ∷ ls) = nonempty ls
nonempty ((x ∷ l) ∷ ls) = (x ∷ l) ∷ nonempty ls

slice-append_le :
    (buf more : List ℕ) (start end : ℕ)
    → start ≤ end
    → end ≤ length buf
    → slice (buf ++ more) start end ≡ slice buf start end
slice-append_le buf more start end h k =
    ap (take (end - start)) (drop-append_le start buf more (omega arith))
    ∙ take-append_le (end - start) (drop start buf) more (omega (arith, length-drop start buf))

slice_last : (buf l : List ℕ) → slice (buf ++ l) (length buf) (length (buf ++ l)) ≡ l
slice_last buf l =
    ap (take (length (buf ++ l) - length buf)) (drop-append buf l)
    ∙ ap (λ k. take k l) (omega (arith, length-append buf l))
    ∙ take_all l

-- A label pushed behind a name is its last label.
labels_from-push :
    (buf l : List ℕ) (prev_end : ℕ) (ends : List ℕ)
    → Ends prev_end ends (length buf)
    → labels_from (buf ++ l) prev_end (ends ++ (length (buf ++ l) ∷ []))
      ≡ labels_from buf prev_end ends ++ (l ∷ [])
unfolding labels_from
labels_from-push buf l prev_end [] h =
    ap (λ x. x ∷ []) (ap (λ p. slice (buf ++ l) p (length (buf ++ l))) h ∙ slice_last buf l)
labels_from-push buf l prev_end (end ∷ ends) (a, b, h) = λ i.
    slice-append_le buf l prev_end end (omega arith) (Ends-le end ends (length buf) h) i
    ∷ labels_from-push buf l end ends h i

-- A round of the loop that does not fail.
collect_labels_step :
    (x : ℕ) (l : List ℕ) (ls : List (List ℕ)) (buf ends : List ℕ) (n : DomainName)
    → collect_labels ((x ∷ l) ∷ ls) buf ends ≡ ok n
    → (length (x ∷ l) ≤ 63)
      × (length (buf ++ (x ∷ l)) < 256)
      × (collect_labels ls (buf ++ (x ∷ l)) (ends ++ (length (buf ++ (x ∷ l)) ∷ [])) ≡ ok n)
unfolding collect_labels push_end
collect_labels_step x l ls buf ends n h = ground arith

collect_labels_skip :
    (ls : List (List ℕ)) (buf ends : List ℕ)
    → collect_labels ([] ∷ ls) buf ends ≡ collect_labels ls buf ends
unfolding collect_labels
collect_labels_skip ls buf ends = refl

-- What the loop of `from_labels` makes of the labels that are left.
collect_labels-labels :
    (ls : List (List ℕ)) (buf ends : List ℕ) (n : DomainName)
    → Ends 0 ends (length buf)
    → length buf < 256
    → collect_labels ls buf ends ≡ ok n
    → IsValid n × (labels n ≡ labels_from buf 0 ends ++ nonempty ls)
unfolding labels
collect_labels-labels [] buf ends n h s e =
    let k : record { buf = buf; ends = ends } ≡ n = unfold collect_labels in cc e in
    subst (λ m. IsValid m × (labels_from m.buf 0 m.ends ≡ labels_from buf 0 ends ++ [])) k
      (record { rising = h; short = s }, sym (append-nil (labels_from buf 0 ends)))
collect_labels-labels ([] ∷ ls) buf ends n h s e =
    collect_labels-labels ls buf ends n h s (sym (collect_labels_skip ls buf ends) ∙ e)
collect_labels-labels ((x ∷ l) ∷ ls) buf ends n h s e =
    let (u, k, e') = collect_labels_step x l ls buf ends n e in
    let q = length-append buf (x ∷ l) in
    let (v, p) =
      collect_labels-labels ls (buf ++ (x ∷ l)) (ends ++ (length (buf ++ (x ∷ l)) ∷ [])) n
        (Ends-push 0 ends (length buf) (length (buf ++ (x ∷ l))) h (omega arith) (omega arith)) k
        e' in
    (
      v,
      p
          ∙ ap (λ z. z ++ nonempty ls) (labels_from-push buf (x ∷ l) 0 ends h)
          ∙ append_assoc (labels_from buf 0 ends) ((x ∷ l) ∷ []) (nonempty ls),
    )

-- A name made from labels is well formed and has the labels that were given, in order, without the
-- empty ones; there are at most 128.
pub from_labels-labels :
    (ls : List (List ℕ)) (n : DomainName)
    → from_labels ls ≡ ok n
    → IsValid n × (labels n ≡ nonempty ls) × (length n.ends ≤ 128)
unfolding from_labels check_label_count labels_from
from_labels-labels ls n h = elim (Result-cases (collect_labels ls [] [])) [
  | inl (m, e) ↦
      let (v, p) = collect_labels-labels ls [] [] m refl (omega arith) e in
      let (same, few) = counted m n (rw e at h) in
      subst (λ x. IsValid x × (labels x ≡ nonempty ls) × (length x.ends ≤ 128)) same (v, p, few)
  | inr (x, e) ↦ cc (rw e at h)
]
  where
    counted : (m n : DomainName) → check_label_count m ≡ ok n → (m ≡ n) × (length m.ends ≤ 128)
    counted m n k = ground arith
