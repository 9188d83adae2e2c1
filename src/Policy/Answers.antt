-- ===== src/Policy/Answers.antt =====
-- The count and the choice of the answers.
use border_dns.Prelude.{
  ℕ, ◌+◌, ◌≡◌, refl, Bool, Option, none, some, List, [], ◌∷◌, if◌then◌else◌, arith,
}
use border_dns.Types.Route.{
  Route, IpGeoScope, scope_cn, scope_foreign, scope_private, scope_reserved, scope_unknown,
}
use border_dns.Protocol.Rr.{ResourceRecord}
use border_dns.Geo.{IpAddr, GeoIpResult, lookup}
use border_dns.Geo.Scopes.{IsKnown, in_china, elsewhere, lookup-IsKnown}
use border_dns.Policy.{
  AnswerGeoEvidence, address_of, count_scope, no_evidence, count_address, analyze_from,
  analyze_answer_geo,
}

-- The records that pass a test, in their order.
unfoldable pub filter : (ResourceRecord → Bool) → List ResourceRecord → List ResourceRecord
filter p [] = []
filter p (rr ∷ records) = if p rr then rr ∷ filter p records else filter p records

-- How an address counts towards each of the counts of the evidence.
abbrev pub in_cn_count : IpGeoScope → ℕ
in_cn_count scope_cn = 1
in_cn_count _ = 0

abbrev pub in_foreign_count : IpGeoScope → ℕ
in_foreign_count scope_foreign = 1
in_foreign_count _ = 0

abbrev pub in_private_count : IpGeoScope → ℕ
in_private_count scope_private = 1
in_private_count scope_reserved = 1
in_private_count _ = 0

abbrev pub one : IpGeoScope → ℕ
one scope = 1

abbrev pub weigh : (IpGeoScope → ℕ) → Option IpAddr → ℕ
weigh weight (some ip) = weight (lookup ip).scope
weigh weight none = 0

-- The addresses that the records of type A and AAAA hold, each with the weight of its scope.
unfoldable pub addresses : (IpGeoScope → ℕ) → List ResourceRecord → ℕ
addresses weight [] = 0
addresses weight (rr ∷ answers) = weigh weight (address_of rr.rdata) + addresses weight answers

-- One count has grown by the weight of the addresses.
abbrev Grows : (AnswerGeoEvidence → ℕ) → AnswerGeoEvidence → AnswerGeoEvidence → ℕ → Type 0
Grows count e f weight = count f ≡ count e + weight

abbrev Counted : AnswerGeoEvidence → AnswerGeoEvidence → ((IpGeoScope → ℕ) → ℕ) → Type 0
Counted e f weight =
    Grows (λ e. e.cn_count) e f (weight in_cn_count)
    × Grows (λ e. e.foreign_count) e f (weight in_foreign_count)
    × Grows (λ e. e.private_count) e f (weight in_private_count)
    × Grows (λ e. e.total) e f (weight one)

count_scope-Counted :
    (scope : IpGeoScope) (e : AnswerGeoEvidence)
    → Counted e (count_scope scope (record e { total = e.total + 1 })) (λ weight. weight scope)
unfolding count_scope
count_scope-Counted scope_cn e = omega arith
count_scope-Counted scope_foreign e = omega arith
count_scope-Counted scope_private e = omega arith
count_scope-Counted scope_reserved e = omega arith
count_scope-Counted scope_unknown e = omega arith

count_address-Counted :
    (o : Option IpAddr) (e : AnswerGeoEvidence)
    → Counted e (count_address lookup o e) (λ weight. weigh weight o)
unfolding count_address
count_address-Counted none e = omega arith
count_address-Counted (some ip) e = count_scope-Counted (lookup ip).scope e

analyze_from-Counted :
    (answers : List ResourceRecord) (e : AnswerGeoEvidence)
    → Counted e (analyze_from lookup answers e) (λ weight. addresses weight answers)
unfolding analyze_from addresses
analyze_from-Counted [] e = omega arith
analyze_from-Counted (rr ∷ answers) e =
    let here = count_address-Counted (address_of rr.rdata) e in
    let rest = analyze_from-Counted answers (count_address lookup (address_of rr.rdata) e) in
    (omega arith, omega arith, omega arith, omega arith)

-- Every address lies in exactly one of the counts.
scope-weights :
    (o : Option IpAddr)
    → weigh in_cn_count o + weigh in_foreign_count o + weigh in_private_count o ≡ weigh one o
scope-weights none = omega arith
scope-weights (some ip) = known (lookup ip) (lookup-IsKnown ip)
  where
    known :
        (result : GeoIpResult)
        → IsKnown result
        → in_cn_count result.scope + in_foreign_count result.scope + in_private_count result.scope
          ≡ 1
    known _ in_china = omega arith
    known _ (elsewhere scope_cn n c) = absurd (c refl)
    known _ (elsewhere scope_foreign n c) = omega arith
    known _ (elsewhere scope_private n c) = omega arith
    known _ (elsewhere scope_reserved n c) = omega arith
    known _ (elsewhere scope_unknown n c) = absurd (n refl)

addresses-weights :
    (answers : List ResourceRecord)
    → addresses in_cn_count answers
        + addresses in_foreign_count answers
        + addresses in_private_count answers
      ≡ addresses one answers
unfolding addresses
addresses-weights [] = omega arith
addresses-weights (rr ∷ answers) =
    omega (arith, scope-weights (address_of rr.rdata), addresses-weights answers)

-- The evidence of an answer counts its addresses, which are in its records of type A and AAAA, by the
-- scope that the lookup finds: those in China, those abroad, those that are private or reserved, and
-- in total all; and no address is left out of the first three or in two of them.
pub analyze_answer_geo-addresses :
    (answers : List ResourceRecord)
    → ((analyze_answer_geo lookup answers).cn_count ≡ addresses in_cn_count answers)
      × ((analyze_answer_geo lookup answers).foreign_count ≡ addresses in_foreign_count answers)
      × ((analyze_answer_geo lookup answers).private_count ≡ addresses in_private_count answers)
      × ((analyze_answer_geo lookup answers).total ≡ addresses one answers)
      × (addresses in_cn_count answers
            + addresses in_foreign_count answers
            + addresses in_private_count answers
          ≡ addresses one answers)
unfolding analyze_answer_geo
analyze_answer_geo-addresses answers =
    let counts = analyze_from-Counted answers no_evidence in
    (omega arith, omega arith, omega arith, omega arith, addresses-weights answers)
