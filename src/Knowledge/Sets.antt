-- ===== src/Knowledge/Sets.antt =====
-- What a set of domains contains.
use border_dns.Prelude.{
  ◌+◌, ◌≡◌, refl, Bool, true, false, ◌&&◌, ◌||◌, List, [], ◌∷◌, if◌then◌else◌, arith,
}
use border_dns.Text.{Text, text_eq, to_lowercase, eq_ignore_ascii_case}
use border_dns.Text.Equality.{text_eq_refl, eq_of_text_eq}
use border_dns.Knowledge.{
  DomainSet, domain_set, Children, no_child, child, empty_set, reversed_labels, update_child,
  insert_labels, insert_domain, child_has, contains_labels, contains_domain, len, children_len,
  insert_all,
}

-- Labels that differ in their case at most.
unfoldable pub same_labels : List Text → List Text → Bool
same_labels [] [] = true
same_labels [] (m ∷ ms) = false
same_labels (l ∷ ls) [] = false
same_labels (l ∷ ls) (m ∷ ms) = eq_ignore_ascii_case m l && same_labels ls ms

contains_labels-empty : (ls : List Text) → contains_labels ls empty_set ≡ false
unfolding contains_labels child_has
contains_labels-empty [] = refl
contains_labels-empty (l ∷ ls) = refl

module _ (f : DomainSet → DomainSet) (g : DomainSet → Bool) (p : Bool) where
  child_has-update_child :
      (k key : Text) (cs : Children)
      → ((s : DomainSet) → g (f s) ≡ (p || g s))
      → g empty_set ≡ false
      → child_has g k (update_child f key cs) ≡ ((text_eq key k && p) || child_has g k cs)
  unfolding child_has update_child
  child_has-update_child k key no_child h n = ground (arith, h empty_set)
  child_has-update_child k key (child label s rest) h n = ground (
    arith,
    h s,
    eq_of_text_eq label key,
    eq_of_text_eq label k,
    eq_of_text_eq key k,
    text_eq_refl key,
    child_has-update_child k key rest h n,
  )

contains_labels-insert :
    (ls ms : List Text) (s : DomainSet)
    → contains_labels ls (insert_labels ms s) ≡ (same_labels ls ms || contains_labels ls s)
unfolding contains_labels insert_labels same_labels eq_ignore_ascii_case
contains_labels-insert [] [] (domain_set cs t) = refl
contains_labels-insert [] (m ∷ ms) (domain_set cs t) = refl
contains_labels-insert (l ∷ ls) [] (domain_set cs t) = refl
contains_labels-insert (l ∷ ls) (m ∷ ms) (domain_set cs t) =
    child_has-update_child (insert_labels ms) (contains_labels ls) (same_labels ls ms)
      (to_lowercase l) (to_lowercase m) cs (contains_labels-insert ls ms) (contains_labels-empty ls)

unfoldable pub same_domain : Text → Text → Bool
same_domain domain other = same_labels (reversed_labels domain) (reversed_labels other)

-- A domain is in a set behind an insertion exactly when its labels are those of the domain inserted,
-- but for their case, or it was in the set before.
pub contains_domain-insert_domain :
    (domain other : Text) (s : DomainSet)
    → contains_domain (insert_domain other s) domain
      ≡ (same_domain domain other || contains_domain s domain)
unfolding contains_domain insert_domain same_domain
contains_domain-insert_domain domain other s =
    contains_labels-insert (reversed_labels domain) (reversed_labels other) s

-- One of the listed domains is the domain.
unfoldable pub listed : List Text → Text → Bool
listed [] domain = false
listed (other ∷ others) domain = same_domain domain other || listed others domain

contains_domain-insert_all :
    (domain : Text) (domains : List Text) (s : DomainSet)
    → contains_domain (insert_all domains s) domain
      ≡ (listed domains domain || contains_domain s domain)
unfolding insert_all listed
contains_domain-insert_all domain [] s = refl
contains_domain-insert_all domain (other ∷ domains) s = ground (
  arith,
  contains_domain-insert_all domain domains (insert_domain other s),
  contains_domain-insert_domain domain other s,
)

pub contains_domain-listed :
    (domain : Text) (domains : List Text)
    → contains_domain (insert_all domains empty_set) domain ≡ listed domains domain
unfolding contains_domain
contains_domain-listed domain domains = ground (
  arith,
  contains_domain-insert_all domain domains empty_set,
  contains_labels-empty (reversed_labels domain),
)

module _ (f : DomainSet → DomainSet) (g : DomainSet → Bool) where
  children_len-update_child :
      (key : Text) (cs : Children)
      → ((s : DomainSet) → len (f s) ≡ len s + (if g s then 0 else 1))
      → g empty_set ≡ false
      → children_len (update_child f key cs)
        ≡ children_len cs + (if child_has g key cs then 0 else 1)
  unfolding child_has update_child len
  children_len-update_child key no_child h n = ground (arith, h empty_set)
  children_len-update_child key (child label s rest) h n =
      ground (arith, h s, children_len-update_child key rest h n)

len-insert_labels :
    (ls : List Text) (s : DomainSet)
    → len (insert_labels ls s) ≡ len s + (if contains_labels ls s then 0 else 1)
unfolding contains_labels insert_labels len
len-insert_labels [] (domain_set cs t) = ground arith
len-insert_labels (l ∷ ls) (domain_set cs t) = ground (
  arith,
  children_len-update_child (insert_labels ls) (contains_labels ls) (to_lowercase l) cs
      (len-insert_labels ls) (contains_labels-empty ls),
)

-- The length of a set counts a domain once: an insertion makes it one more when the set does not
-- contain the domain yet, and changes nothing of it when it does.
pub len-insert_domain :
    (domain : Text) (s : DomainSet)
    → len (insert_domain domain s) ≡ len s + (if contains_domain s domain then 0 else 1)
unfolding insert_domain contains_domain
len-insert_domain domain s = len-insert_labels (reversed_labels domain) s
