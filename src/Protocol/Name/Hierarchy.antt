-- ===== src/Protocol/Name/Hierarchy.antt =====
-- Parents and suffixes of names.
use mathlib.Core.Path.{subst}
use border_dns.Prelude.{
  ℕ, suc, ◌+◌, ◌-◌, ◌≤◌, ◌<◌, ◌≡◌, ◌≢◌, refl, sym, ap, ◌∙◌, List, [], ◌∷◌, ◌++◌, length, take, drop,
  arith, map, length-append, length-drop, append_assoc, drop-append, drop-drop, take-append-drop,
  true,
}
use border_dns.Protocol.Name.{
  DomainName, root, slice, labels_from, labels, parent_of, parent, bytes_eq, is_suffix_of,
}
use border_dns.Protocol.Name.Valid.{Ends, IsValid, root-IsValid}
use border_dns.Protocol.Name.RoundTrip.{length-slice}

abbrev pub tail : List (List ℕ) → List (List ℕ)
tail [] = []
tail (l ∷ ls) = ls

-- The ends counted from a label's end on, in the buffer without what stands before it.
shifted-Ends :
    (first prev_end : ℕ) (ends : List ℕ) (total : ℕ)
    → first ≤ prev_end
    → Ends prev_end ends total
    → Ends (prev_end - first) (map (λ e. e - first) ends) (total - first)
shifted-Ends first prev_end [] total h e = omega arith
shifted-Ends first prev_end (end ∷ ends) total h (l, u, e) =
    (omega arith, omega arith, shifted-Ends first end ends total (omega arith) e)

slice-drop :
    (first start end : ℕ) (buf : List ℕ)
    → first ≤ start
    → start ≤ end
    → slice (drop first buf) (start - first) (end - first) ≡ slice buf start end
slice-drop first start end buf h k =
    ap (take (end - first - (start - first))) (drop-drop (start - first) first buf)
    ∙ (λ i. take (width i) (drop (from i) buf))
  where
    width : end - first - (start - first) ≡ end - start
    width = omega arith

    from : first + (start - first) ≡ start
    from = omega arith

shifted-labels :
    (first prev_end : ℕ) (ends buf : List ℕ) (total : ℕ)
    → first ≤ prev_end
    → Ends prev_end ends total
    → labels_from (drop first buf) (prev_end - first) (map (λ e. e - first) ends)
      ≡ labels_from buf prev_end ends
unfolding labels_from
shifted-labels first prev_end [] buf total h e = refl
shifted-labels first prev_end (end ∷ ends) buf total h (l, u, e) = λ i.
    slice-drop first prev_end end buf h (omega arith) i
    ∷ shifted-labels first end ends buf total (omega arith) e i

parent_of-labels :
    (buf ends : List ℕ)
    → Ends 0 ends (length buf)
    → length buf < 256
    → IsValid (parent_of buf ends) × (labels (parent_of buf ends) ≡ tail (labels_from buf 0 ends))
unfolding parent_of labels labels_from root
parent_of-labels buf [] h s = (root-IsValid, refl)
parent_of-labels buf (end ∷ ends) (l, u, h) s =
    let z : end - end ≡ 0 = omega arith in
    let k = length-drop end buf in
    (
      record {
        rising = subst (Ends 0 (map (λ e. e - end) ends)) (sym k) (
            subst (λ p. Ends p (map (λ e. e - end) ends) (length buf - end)) z
              (shifted-Ends end end ends (length buf) (omega arith) h));
        short = omega (arith, k);
      },
      ap (λ p. labels_from (drop end buf) p (map (λ e. e - end) ends)) (sym z)
          ∙ shifted-labels end end ends buf (length buf) (omega arith) h,
    )

-- The parent of a well-formed name is well formed and has its labels without the first; the root is
-- its own parent.
pub labels-parent :
    (n : DomainName) → IsValid n → IsValid (parent n) × (labels (parent n) ≡ tail (labels n))
unfolding parent labels
labels-parent n v = parent_of-labels n.buf n.ends v.rising v.short

abbrev concat : List (List ℕ) → List ℕ
concat [] = []
concat (l ∷ ls) = l ++ concat ls

concat-append : (ls ms : List (List ℕ)) → concat (ls ++ ms) ≡ concat ls ++ concat ms
concat-append [] ms = refl
concat-append (l ∷ ls) ms =
    ap (λ x. l ++ x) (concat-append ls ms) ∙ sym (append_assoc l (concat ls) (concat ms))

drop_all {ℓ} : {A : Type ℓ} (xs : List A) → drop (length xs) xs ≡ []
drop_all [] = refl
drop_all (x ∷ xs) = drop_all xs

split_drop :
    (start end : ℕ) (buf : List ℕ)
    → start ≤ end
    → slice buf start end ++ drop end buf ≡ drop start buf
split_drop start end buf h =
    (λ i. slice buf start end ++ tail_eq i) ∙ take-append-drop (end - start) (drop start buf)
  where
    tail_eq : drop end buf ≡ drop (end - start) (drop start buf)
    tail_eq =
        ap (λ k. drop k buf) (let e : end ≡ start + (end - start) = omega arith in e)
        ∙ sym (drop-drop (end - start) start buf)

-- The labels of a well-formed name make up its buffer.
concat-labels_from :
    (buf : List ℕ) (prev_end : ℕ) (ends : List ℕ)
    → Ends prev_end ends (length buf)
    → concat (labels_from buf prev_end ends) ≡ drop prev_end buf
unfolding labels_from
concat-labels_from buf prev_end [] h = sym (drop_all buf) ∙ ap (λ k. drop k buf) (sym h)
concat-labels_from buf prev_end (end ∷ ends) (l, u, h) =
    ap (λ x. slice buf prev_end end ++ x) (concat-labels_from buf end ends h)
    ∙ split_drop prev_end end buf (omega arith)

length-labels_from :
    (buf : List ℕ) (prev_end : ℕ) (ends : List ℕ)
    → length (labels_from buf prev_end ends) ≡ length ends
unfolding labels_from
length-labels_from buf prev_end [] = refl
length-labels_from buf prev_end (end ∷ ends) = ap suc (length-labels_from buf end ends)

bytes_eq_refl : (xs : List ℕ) → bytes_eq xs xs ≡ true
bytes_eq_refl [] = refl
bytes_eq_refl (x ∷ xs) = ground (arith, bytes_eq_refl xs)

-- The test only looks at the number of labels and at the bytes, so bytes that agree are enough.
is_suffix_of_bytes :
    (n other : DomainName) (front : List ℕ)
    → other.buf ≡ front ++ n.buf
    → length n.ends ≤ length other.ends
    → is_suffix_of n other ≡ true
unfolding is_suffix_of
is_suffix_of_bytes n other front h k =
    let l = ap length h ∙ length-append front n.buf in
    let d : length other.buf - length n.buf ≡ length front = omega arith in
    let e : drop (length other.buf - length n.buf) other.buf ≡ n.buf =
      (λ i. drop (d i) (h i)) ∙ drop-append front n.buf in
    ground (arith, ap (bytes_eq n.buf) e, bytes_eq_refl n.buf)

-- A name whose labels are the last labels of another is reported as its suffix, the root and the
-- name itself among them, where both are well formed.
pub is_suffix_of-labels :
    (n other : DomainName) (front : List (List ℕ))
    → IsValid n
    → IsValid other
    → labels other ≡ front ++ labels n
    → is_suffix_of n other ≡ true
unfolding labels
is_suffix_of-labels n other front v w h =
    is_suffix_of_bytes n other (concat front)
      (sym (concat-labels_from other.buf 0 other.ends w.rising)
        ∙ ap concat h
        ∙ concat-append front (labels_from n.buf 0 n.ends)
        ∙ ap (λ x. concat front ++ x) (concat-labels_from n.buf 0 n.ends v.rising))
      (omega (
        arith,
        ap length h,
        length-append front (labels_from n.buf 0 n.ends),
        length-labels_from n.buf 0 n.ends,
        length-labels_from other.buf 0 other.ends,
      ))

last_differs :
    (p q w : List ℕ) (front : List (List ℕ)) → length q < length w → p ∷ q ∷ [] ≢ front ++ (w ∷ [])
last_differs p q w [] h e = cc
last_differs p q w (x ∷ []) h e = absurd (omega (arith, ap length (last_of e)))
  where
    last_of : p ∷ q ∷ [] ≡ x ∷ w ∷ [] → q ≡ w
    last_of k = cc
last_differs p q w (x ∷ y ∷ front) h e =
    absurd (omega (arith, ap length e, length-append front (w ∷ [])))

-- The converse fails wherever label boundaries differ: a name of one label of two bytes or more is
-- reported as a suffix of every well-formed name with the same bytes in two labels, and its label is not the last of
-- that name.
pub is_suffix_of_boundaries :
    (a b : ℕ) (l m : List ℕ)
    → let whole : DomainName = record {
      buf = (a ∷ l) ++ (b ∷ m);
      ends = length ((a ∷ l) ++ (b ∷ m)) ∷ [];
    } in
      let parts : DomainName = record {
        buf = (a ∷ l) ++ (b ∷ m);
        ends = length (a ∷ l) ∷ length ((a ∷ l) ++ (b ∷ m)) ∷ [];
      } in
      (is_suffix_of whole parts ≡ true)
      × ((front : List (List ℕ)) → labels parts ≢ front ++ labels whole)
unfolding labels labels_from
is_suffix_of_boundaries a b l m =
    let buf : List ℕ = (a ∷ l) ++ (b ∷ m) in
    let k = length-append l (b ∷ m) in
    (
      is_suffix_of_bytes _ _ [] refl (omega arith),
      λ front h.
          last_differs (slice buf 0 (length (a ∷ l))) (slice buf (length (a ∷ l)) (length buf))
            (slice buf 0 (length buf)) front
            (omega (
              arith,
              k,
              length-slice buf (length (a ∷ l)) (length buf) (omega arith),
              length-slice buf 0 (length buf) (omega arith),
            ))
            h,
    )
