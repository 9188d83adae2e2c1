-- ===== src/Knowledge/Classes.antt =====
-- The classification of domains and of CNAME chains, in terms of the lists.
use border_dns.Prelude.{◌≡◌, refl, List, [], ◌∷◌, ◌++◌, if◌then◌else◌, arith}
use border_dns.Text.{Text, strip_last}
use border_dns.Types.Route.{
  prior_china, prior_foreign, prior_global_cdn, prior_unknown, CnameHint, no_hint,
}
use border_dns.Knowledge.{
  BuiltInDomainKnowledge, knowledge_of, classify_domain, classify_cname_chain,
}
use border_dns.Knowledge.Sets.{listed, contains_domain-listed}

-- A domain is classified by the lists that name it, its case and a last dot aside: as a global CDN
-- when the list of these names it, else as Chinese when that list does, else as foreign when that one
-- does, and else as unknown. A name below a listed domain is not named by the list.
pub classify_domain-listed :
    (china foreign cdn china_providers foreign_providers : List Text) (domain : Text)
    → classify_domain (knowledge_of china foreign cdn china_providers foreign_providers) domain ≡ (
        if listed cdn (strip_last b'.' domain)
        then prior_global_cdn
        else if listed china (strip_last b'.' domain)
        then prior_china
        else if listed foreign (strip_last b'.' domain)
        then prior_foreign
        else prior_unknown)
unfolding classify_domain knowledge_of
classify_domain-listed china foreign cdn china_providers foreign_providers domain =
    let name = strip_last b'.' domain in
    rw
      (
        contains_domain-listed name cdn,
        contains_domain-listed name china,
        contains_domain-listed name foreign,
      )
      refl

-- The first hint.
unfoldable pub or_hint : CnameHint → CnameHint → CnameHint
or_hint no_hint hint = hint
or_hint hint _ = hint

-- The first name of a CNAME chain that gives a hint decides: the hint of a chain in two parts is the
-- hint of the first part, or that of the second when the first has none.
pub classify_cname_chain-append :
    (k : BuiltInDomainKnowledge) (cnames rest : List Text)
    → classify_cname_chain k (cnames ++ rest)
      ≡ or_hint (classify_cname_chain k cnames) (classify_cname_chain k rest)
unfolding classify_cname_chain or_hint
classify_cname_chain-append k [] rest = refl
classify_cname_chain-append k (cname ∷ cnames) rest =
    ground (arith, classify_cname_chain-append k cnames rest)
