-- ===== src/Knowledge.antt =====
-- crates/border-dns-domain-knowledge/src/domain_knowledge.rs: what is known of a domain from the lists.
-- The built-in lists are arguments here, and a hash set is a list, since the order of its elements
-- makes no difference.
pub mod Sets
pub mod Classes
mod Examples
use border_dns.Prelude.{ℕ, ◌+◌, Bool, true, false, ◌||◌, List, [], ◌∷◌, map, if◌then◌else◌, ◌==◌}
use border_dns.Text.{Text, text_eq, to_lowercase, split, strip_last, contains_text}
use border_dns.Types.Route.{
  DomainPrior, prior_china, prior_foreign, prior_global_cdn, prior_unknown, CnameHint,
  china_provider, foreign_provider, cdn_provider, no_hint,
}
use border_dns.Block.Matcher.{nonempty, rev_onto}

-- An entry of the map of children is one of the children.
mutual
  pub data DomainSet : Type 0 where
    domain_set : (children : Children) (terminal : Bool) → DomainSet

  pub data Children : Type 0 where
    no_child : Children
    child : (label : Text) (set : DomainSet) (rest : Children) → Children

-- `DomainSet::default`
abbrev pub empty_set : DomainSet
empty_set = domain_set no_child false

unfoldable pub reversed_labels : Text → List Text
reversed_labels domain = rev_onto (nonempty (split b'.' domain)) []

-- `entry(label).or_default()`, and what is then done at the child.
unfoldable pub update_child : (DomainSet → DomainSet) → Text → Children → Children
update_child f key no_child = child key (f empty_set) no_child
update_child f key (child label set rest) =
    if text_eq label key
    then child label (f set) rest
    else child label set (update_child f key rest)

unfoldable pub insert_labels : List Text → DomainSet → DomainSet
insert_labels [] (domain_set children terminal) = domain_set children true
insert_labels (label ∷ labels) (domain_set children terminal) =
    domain_set (update_child (insert_labels labels) (to_lowercase label) children) terminal

unfoldable pub insert_domain : Text → DomainSet → DomainSet
insert_domain domain set = insert_labels (reversed_labels domain) set

unfoldable pub child_has : (DomainSet → Bool) → Text → Children → Bool
child_has f key no_child = false
child_has f key (child label set rest) = if text_eq label key then f set else child_has f key rest

unfoldable pub contains_labels : List Text → DomainSet → Bool
contains_labels [] (domain_set children terminal) = terminal
contains_labels (label ∷ labels) (domain_set children terminal) =
    child_has (contains_labels labels) (to_lowercase label) children

unfoldable pub contains_domain : DomainSet → Text → Bool
contains_domain set domain = contains_labels (reversed_labels domain) set

unfoldable mutual
  pub len : DomainSet → ℕ
  len (domain_set children terminal) = (if terminal then 1 else 0) + children_len children

  pub children_len : Children → ℕ
  children_len no_child = 0
  children_len (child label set rest) = len set + children_len rest

-- `is_empty`
unfoldable pub has_no_domain : DomainSet → Bool
has_no_domain set = len set == 0

pub record BuiltInDomainKnowledge : Type 0 where
  pub china_domains : DomainSet
  pub foreign_domains : DomainSet
  pub cdn_domains : DomainSet
  pub china_cname_providers : List Text
  pub foreign_cname_providers : List Text

unfoldable pub insert_all : List Text → DomainSet → DomainSet
insert_all [] set = set
insert_all (domain ∷ domains) set = insert_all domains (insert_domain domain set)

-- `BuiltInDomainKnowledge::new`
unfoldable pub knowledge_of :
    (china foreign cdn china_providers foreign_providers : List Text) → BuiltInDomainKnowledge
knowledge_of china foreign cdn china_providers foreign_providers = record {
  china_domains = insert_all china empty_set;
  foreign_domains = insert_all foreign empty_set;
  cdn_domains = insert_all cdn empty_set;
  china_cname_providers = map to_lowercase china_providers;
  foreign_cname_providers = map to_lowercase foreign_providers;
}

unfoldable pub classify_domain : BuiltInDomainKnowledge → Text → DomainPrior
classify_domain k domain =
    let normalized = strip_last b'.' domain in
    if contains_domain k.cdn_domains normalized
    then prior_global_cdn
    else if contains_domain k.china_domains normalized
    then prior_china
    else if contains_domain k.foreign_domains normalized
    then prior_foreign
    else prior_unknown

unfoldable pub any_provider : List Text → Text → Bool
any_provider [] lower = false
any_provider (provider ∷ providers) lower =
    contains_text lower provider || any_provider providers lower

unfoldable pub classify_cname_chain : BuiltInDomainKnowledge → List Text → CnameHint
classify_cname_chain k [] = no_hint
classify_cname_chain k (cname ∷ cnames) =
    let normalized = strip_last b'.' cname in
    let lower = to_lowercase normalized in
    let rest = classify_cname_chain k cnames in
    if contains_domain k.cdn_domains normalized
    then cdn_provider
    else if any_provider k.china_cname_providers lower
    then china_provider
    else if any_provider k.foreign_cname_providers lower
    then foreign_provider
    else rest
