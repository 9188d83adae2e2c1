-- ===== src/Pipeline/Repeat.antt =====
-- What the pipeline answers to a query that it has answered before.
use border_dns.Prelude.{
  ℕ, ◌/◌, ◌≡◌, Bool, true, false, not, ◌&&◌, Option, none, some, List, map, leb, if◌then◌else◌,
}
use border_dns.Text.{Text, is_empty}
use border_dns.Types.Error.{ok}
use border_dns.Types.Codes.{QType}
use border_dns.Types.Route.{Route}
use border_dns.Protocol.Question.{DnsQuestion}
use border_dns.Protocol.Message.{DnsMessage, from_wire, first_question}
use border_dns.Policy.{AnswerGeoEvidence}
use border_dns.Governance.Store.{StateMap}
use border_dns.Cache.{
  CacheEntry, CachedResponse, RouteScopedCache, clamp_ttl, with_ttl, second, response_of,
  get_scoped,
}
use border_dns.Cache.Entries.{EntryMap}
use border_dns.Upstream.{answered, for_route, forward}
use border_dns.Pipeline.Build.{Pipeline}
use border_dns.Pipeline.Resolve.{
  Surroundings, ResolverState, Outcome, is_no_error, effective_ttl, route_of, hosts_ips, blocks,
  resolve,
}

-- What the cache serves of a message some time after it was stored.
abbrev pub served : DnsMessage → ℕ → ℕ → Option CachedResponse
served m ttl age =
    if leb ttl (age / second)
    then none
    else some (response_of (record m { answers = map (with_ttl ttl) m.answers }))

module _ (M : EntryMap CacheEntry) (hash : Route → QType → List (List ℕ) → ℕ) (S : StateMap)
    (can_promote : Route → AnswerGeoEvidence → Bool)
    (parse_ipv4 parse_ipv6 : Text → Option (List ℕ)) (p : Pipeline) where
  -- The query gets past the stages that answer on the spot.
  pub record IsRouted (query_bytes : List ℕ) (query : DnsMessage) (q : DnsQuestion) : Type 0 where
    pub parsed : from_wire query_bytes ≡ ok query
    pub asked : first_question query ≡ some q
    pub no_hosts : is_empty (hosts_ips p q.qtype q.qname) ≡ true
    pub not_blocked : blocks p q.qname ≡ false

  -- What the lookup of stage 3 finds, and the cache behind it.
  abbrev looked_up :
      Surroundings
      → DnsQuestion
      → ResolverState M hash S
      → Option CachedResponse × RouteScopedCache M hash
  looked_up out q st = get_scoped M hash out.now (route_of p q.qname) q.qtype q.qname st.cache

  -- The upstream servers answer the query with a message that is cached.
  pub record IsAnswered (out : Surroundings) (query : DnsMessage) (q : DnsQuestion) (m : DnsMessage)
      : Type 0 where
    pub answer :
        forward out.exchange out.finish_order query
          (for_route p.upstreams (route_of p q.qname))
          p.default_timeout_ms
        ≡ answered m
    pub cacheable : (is_no_error m.header.rcode && not (is_empty m.answers)) ≡ true

  abbrev run : Surroundings → List ℕ → ResolverState M hash S → Outcome M hash S
  run out query_bytes st = resolve M hash S can_promote parse_ipv4 parse_ipv6 p out query_bytes st

  -- The lifetime that the cache gives an answer.
  abbrev pub lifetime : DnsQuestion → DnsMessage → ResolverState M hash S → ℕ
  lifetime q m st = clamp_ttl st.cache.config (effective_ttl p (route_of p q.qname) m)
