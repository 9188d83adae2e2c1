-- ===== src/Types/Route.antt =====
-- crates/dns-types/src/route.rs: the routes, and what a route is decided from.
use border_dns.Prelude.{Bool, true, false, ℕ}

pub data Route : Type 0 where
  china foreign bootstrap fallback : Route

unfoldable pub same_route : Route → Route → Bool
same_route china china = true
same_route foreign foreign = true
same_route bootstrap bootstrap = true
same_route fallback fallback = true
same_route _ _ = false

pub data ResolverLocation : Type 0 where
  in_china in_foreign unknown_location : ResolverLocation

unfoldable pub in_mainland : ResolverLocation → Bool
in_mainland in_china = true
in_mainland _ = false

pub data RouteSource : Type 0 where
  domain_prior geo_ip_evidence cname_evidence default_policy fallback_policy : RouteSource

pub data DomainPrior : Type 0 where
  prior_china prior_foreign prior_global_cdn prior_unknown : DomainPrior

pub data CnameHint : Type 0 where
  china_provider foreign_provider cdn_provider no_hint : CnameHint

pub data IpGeoScope : Type 0 where
  scope_cn scope_foreign scope_private scope_reserved scope_unknown : IpGeoScope

pub data Confidence : Type 0 where
  no_confidence weak moderate strong : Confidence

-- The derived order.
unfoldable pub rank : Confidence → ℕ
rank no_confidence = 0
rank weak = 1
rank moderate = 2
rank strong = 3

pub data ReasonCode : Type 0 where
  domain_prior_cn domain_prior_foreign geo_ip_cn geo_ip_foreign cname_hint mixed_geo global_cdn
        default_route fallback_route :
      ReasonCode
