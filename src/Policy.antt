-- ===== src/Policy.antt =====
-- crates/border-dns-route-policy/src/lib.rs: the route of a query, from what is known of its domain and
-- from the addresses of its answer. The floating-point scores of a decision are left out. The
-- traits DomainKnowledge and GeoIpLookup are arguments.
pub mod Decisions
pub mod Answers
mod Examples
use border_dns.Prelude.{
  ℕ, ◌+◌, Bool, true, false, not, ◌&&◌, ◌||◌, Option, none, some, List, [], ◌∷◌, ◌++◌, ltb,
  if◌then◌else◌, ◌==◌,
}
use border_dns.Text.{Text, is_empty}
use border_dns.Types.Route.{
  Route, china, foreign, bootstrap, fallback, same_route, ResolverLocation, in_china, in_foreign,
  unknown_location, in_mainland, RouteSource, domain_prior, default_policy, fallback_policy,
  DomainPrior, prior_china, prior_foreign, prior_global_cdn, prior_unknown, CnameHint,
  china_provider, foreign_provider, cdn_provider, no_hint, IpGeoScope, scope_cn, scope_foreign,
  scope_private, scope_reserved, scope_unknown, Confidence, no_confidence, weak, moderate, strong,
  rank, ReasonCode, domain_prior_cn, domain_prior_foreign, geo_ip_cn, geo_ip_foreign, cname_hint,
  mixed_geo, global_cdn, default_route, fallback_route,
}
use border_dns.Protocol.Rr.{ResourceRecord, RData, a_data, aaaa_data}
use border_dns.Geo.{IpAddr, v4, v6, GeoIpResult}

pub record RouteDecision : Type 0 where
  pub execution_route : Route
  pub route_source : RouteSource
  pub confidence : Confidence
  pub reason_codes : List ReasonCode

pub record AnswerGeoEvidence : Type 0 where
  pub cn_count : ℕ
  pub foreign_count : ℕ
  pub private_count : ℕ
  pub total : ℕ

abbrev pub decided : Route → RouteSource → Confidence → ReasonCode → RouteDecision
decided route source confidence reason = record {
  execution_route = route;
  route_source = source;
  confidence = confidence;
  reason_codes = reason ∷ [];
}

-- `RouteDecision::default`
abbrev pub default_decision : RouteDecision
default_decision = decided fallback fallback_policy no_confidence fallback_route

-- The route of the resolver's own location.
unfoldable pub local_route : ResolverLocation → Route
local_route in_china = china
local_route in_foreign = foreign
local_route unknown_location = fallback

unfoldable pub local_reason : ResolverLocation → ReasonCode
local_reason unknown_location = fallback_route
local_reason _ = default_route

unfoldable pub decide : ResolverLocation → DomainPrior → RouteDecision
decide location prior_china = decided china domain_prior strong domain_prior_cn
decide location prior_foreign = decided foreign domain_prior strong domain_prior_foreign
decide location prior_global_cdn = decided (local_route location) domain_prior weak global_cdn
decide location prior_unknown =
    decided (local_route location) default_policy no_confidence (local_reason location)

unfoldable pub decide_by_domain_prior :
    ResolverLocation → (Text → DomainPrior) → Text → RouteDecision
decide_by_domain_prior location classify_domain domain = decide location (classify_domain domain)

abbrev pub push_reason : ReasonCode → RouteDecision → RouteDecision
push_reason reason d = record d { reason_codes = d.reason_codes ++ (reason ∷ []) }

-- A hint for a route, against the other of the two.
unfoldable pub refine_by_provider : (hinted opposite : Route) → RouteDecision → RouteDecision
refine_by_provider hinted opposite d =
    if same_route d.execution_route hinted
    then push_reason cname_hint (record d { confidence = strong })
    else if same_route d.execution_route opposite
    then record (push_reason mixed_geo d) { confidence = weak }
    else d

unfoldable pub refine_by_hint : CnameHint → RouteDecision → RouteDecision
refine_by_hint china_provider d = refine_by_provider china foreign d
refine_by_hint foreign_provider d = refine_by_provider foreign china d
refine_by_hint cdn_provider d = push_reason global_cdn d
refine_by_hint no_hint d = d

unfoldable pub refine_by_cname : (List Text → CnameHint) → List Text → RouteDecision → RouteDecision
refine_by_cname classify_cname_chain cnames d = refine_by_hint (classify_cname_chain cnames) d

-- The address that a record holds.
unfoldable pub address_of : RData → Option IpAddr
address_of (a_data octets) = some (v4 octets)
address_of (aaaa_data octets) = some (v6 octets)
address_of _ = none

unfoldable pub count_scope : IpGeoScope → AnswerGeoEvidence → AnswerGeoEvidence
count_scope scope_cn e = record e { cn_count = e.cn_count + 1 }
count_scope scope_foreign e = record e { foreign_count = e.foreign_count + 1 }
count_scope scope_private e = record e { private_count = e.private_count + 1 }
count_scope scope_reserved e = record e { private_count = e.private_count + 1 }
count_scope scope_unknown e = e

abbrev pub no_evidence : AnswerGeoEvidence
no_evidence = record { cn_count = 0; foreign_count = 0; private_count = 0; total = 0 }

unfoldable pub has_mixed_geo : List ReasonCode → Bool
has_mixed_geo [] = false
has_mixed_geo (mixed_geo ∷ codes) = true
has_mixed_geo (code ∷ codes) = has_mixed_geo codes

-- `confidence > Confidence::Weak` and `confidence == Confidence::None`
unfoldable pub refine_by_answer_geo : AnswerGeoEvidence → RouteDecision → RouteDecision
refine_by_answer_geo e d =
    if e.total == 0
    then d
    else if e.cn_count + e.foreign_count == 0
    then d
    else if ltb 0 e.cn_count && ltb 0 e.foreign_count
    then record d {
      reason_codes =
          if has_mixed_geo d.reason_codes
          then d.reason_codes
          else d.reason_codes ++ (mixed_geo ∷ []);
      confidence = if ltb (rank weak) (rank d.confidence) then weak else d.confidence;
    }
    else record d {
      reason_codes =
          if ltb 0 e.cn_count
          then d.reason_codes ++ (geo_ip_cn ∷ [])
          else if ltb 0 e.foreign_count
          then d.reason_codes ++ (geo_ip_foreign ∷ [])
          else d.reason_codes;
      confidence = if rank d.confidence == 0 then moderate else d.confidence;
    }

module _ (lookup : IpAddr → GeoIpResult) where
  unfoldable pub count_address : Option IpAddr → AnswerGeoEvidence → AnswerGeoEvidence
  count_address (some ip) e = count_scope (lookup ip).scope (record e { total = e.total + 1 })
  count_address none e = e

  unfoldable pub analyze_from : List ResourceRecord → AnswerGeoEvidence → AnswerGeoEvidence
  analyze_from [] e = e
  analyze_from (rr ∷ answers) e = analyze_from answers (count_address (address_of rr.rdata) e)

  unfoldable pub analyze_answer_geo : List ResourceRecord → AnswerGeoEvidence
  analyze_answer_geo answers = analyze_from answers no_evidence

  unfoldable pub scope_is_cn : IpGeoScope → Bool
  scope_is_cn scope_cn = true
  scope_is_cn _ = false

  unfoldable pub is_cn_answer : ResourceRecord → Bool
  is_cn_answer rr = elim (address_of rr.rdata) [
    | some ip ↦ scope_is_cn (lookup ip).scope
    | none ↦ false
  ]

  -- The two vectors of the loop.
  unfoldable pub part_candidates :
      List ResourceRecord
      → (cn other : List ResourceRecord) → List ResourceRecord × List ResourceRecord
  part_candidates [] cn other = (cn, other)
  part_candidates (rr ∷ answers) cn other =
      let to_cn = part_candidates answers (cn ++ (rr ∷ [])) other in
      let to_other = part_candidates answers cn (other ++ (rr ∷ [])) in
      if is_cn_answer rr then to_cn else to_other

  unfoldable pub select_answer_candidates :
      ResolverLocation → List ResourceRecord → Route → List ResourceRecord
  select_answer_candidates location answers route =
      let (cn_candidates, other_candidates) = part_candidates answers [] [] in
      if not (in_mainland location && same_route route china)
      then answers
      else if is_empty cn_candidates
      then other_candidates
      else cn_candidates ++ other_candidates
