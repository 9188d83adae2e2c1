-- ===== src/Policy/Decisions.antt =====
-- What evidence does to a decision.
use border_dns.Prelude.{
  ◌+◌, ◌≤◌, ◌≡◌, refl, true, false, ◌&&◌, List, [], ◌∷◌, ◌++◌, ltb, if◌then◌else◌, ◌==◌, arith,
  if-elim,
}
use border_dns.Types.Route.{
  Route, china, foreign, same_route, Confidence, no_confidence, weak, moderate, strong, rank,
  ReasonCode, domain_prior_cn, domain_prior_foreign, geo_ip_cn, geo_ip_foreign, cname_hint,
  mixed_geo, global_cdn, default_route, fallback_route, CnameHint, china_provider, foreign_provider,
  cdn_provider, no_hint,
}
use border_dns.Text.{Text}
use border_dns.Policy.{
  RouteDecision, AnswerGeoEvidence, refine_by_provider, refine_by_hint, refine_by_cname,
  has_mixed_geo, refine_by_answer_geo,
}

-- A decision that takes the same route from the same source as another.
pub record KeepsRoute (d e : RouteDecision) : Type 0 where
  pub route : e.execution_route ≡ d.execution_route
  pub source : e.route_source ≡ d.route_source

refine_by_provider-KeepsRoute :
    (hinted opposite : Route) (d : RouteDecision)
    → KeepsRoute d (refine_by_provider hinted opposite d)
unfolding refine_by_provider
refine_by_provider-KeepsRoute hinted opposite d =
    if-elim (KeepsRoute d) (same_route d.execution_route hinted)
      (λ _. record { route = refl; source = refl })
      (λ _.
        if-elim (KeepsRoute d) (same_route d.execution_route opposite)
          (λ _. record { route = refl; source = refl })
          (λ _. record { route = refl; source = refl }))

refine_by_hint-KeepsRoute :
    (hint : CnameHint) (d : RouteDecision) → KeepsRoute d (refine_by_hint hint d)
unfolding refine_by_hint
refine_by_hint-KeepsRoute china_provider d = refine_by_provider-KeepsRoute china foreign d
refine_by_hint-KeepsRoute foreign_provider d = refine_by_provider-KeepsRoute foreign china d
refine_by_hint-KeepsRoute cdn_provider d = record { route = refl; source = refl }
refine_by_hint-KeepsRoute no_hint d = record { route = refl; source = refl }

refine_by_answer_geo-KeepsRoute :
    (e : AnswerGeoEvidence) (d : RouteDecision) → KeepsRoute d (refine_by_answer_geo e d)
unfolding refine_by_answer_geo
refine_by_answer_geo-KeepsRoute e d =
    if-elim (KeepsRoute d) (e.total == 0) (λ _. record { route = refl; source = refl })
      (λ _.
        if-elim (KeepsRoute d) (e.cn_count + e.foreign_count == 0)
          (λ _. record { route = refl; source = refl })
          (λ _.
            if-elim (KeepsRoute d) (ltb 0 e.cn_count && ltb 0 e.foreign_count)
              (λ _. record { route = refl; source = refl })
              (λ _. record { route = refl; source = refl })))

-- No evidence of names or of addresses changes the route of a decision or where it is from: it has
-- only its confidence and its reasons refined.
pub refine-KeepsRoute :
    (classify_cname_chain : List Text → CnameHint) (cnames : List Text) (e : AnswerGeoEvidence)
    (d : RouteDecision)
    → KeepsRoute d (refine_by_cname classify_cname_chain cnames d)
      × KeepsRoute d (refine_by_answer_geo e d)
unfolding refine_by_cname
refine-KeepsRoute classify_cname_chain cnames e d =
    (refine_by_hint-KeepsRoute (classify_cname_chain cnames) d, refine_by_answer_geo-KeepsRoute e d)

has_mixed_geo-append : (codes : List ReasonCode) → has_mixed_geo (codes ++ (mixed_geo ∷ [])) ≡ true
unfolding has_mixed_geo
has_mixed_geo-append [] = refl
has_mixed_geo-append (domain_prior_cn ∷ codes) = has_mixed_geo-append codes
has_mixed_geo-append (domain_prior_foreign ∷ codes) = has_mixed_geo-append codes
has_mixed_geo-append (geo_ip_cn ∷ codes) = has_mixed_geo-append codes
has_mixed_geo-append (geo_ip_foreign ∷ codes) = has_mixed_geo-append codes
has_mixed_geo-append (cname_hint ∷ codes) = has_mixed_geo-append codes
has_mixed_geo-append (mixed_geo ∷ codes) = refl
has_mixed_geo-append (global_cdn ∷ codes) = has_mixed_geo-append codes
has_mixed_geo-append (default_route ∷ codes) = has_mixed_geo-append codes
has_mixed_geo-append (fallback_route ∷ codes) = has_mixed_geo-append codes

weakened : (c : Confidence) → rank (if ltb (rank weak) (rank c) then weak else c) ≤ 1
unfolding rank
weakened no_confidence = omega arith
weakened weak = omega arith
weakened moderate = omega arith
weakened strong = omega arith

-- Mixed addresses, some in China and some abroad, leave the confidence of a decision weak at most, and
-- say why.
pub refine_by_answer_geo-mixed :
    (e : AnswerGeoEvidence) (d : RouteDecision)
    → ltb 0 e.total ≡ true
    → (ltb 0 e.cn_count && ltb 0 e.foreign_count) ≡ true
    → (rank (refine_by_answer_geo e d).confidence ≤ 1)
      × (has_mixed_geo (refine_by_answer_geo e d).reason_codes ≡ true)
unfolding refine_by_answer_geo
refine_by_answer_geo-mixed e d t m =
    let n : (e.total == 0) ≡ false = ground arith in
    let c : (e.cn_count + e.foreign_count == 0) ≡ false = ground arith in
    rw (n, c, m)
      (
        weakened d.confidence,
        if-elim (λ codes. has_mixed_geo codes ≡ true) (has_mixed_geo d.reason_codes) (λ h. h)
            (λ _. has_mixed_geo-append d.reason_codes),
      )
