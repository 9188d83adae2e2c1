-- ===== src/Handler/Repeat.antt =====
-- What the handler sends for a query that it has answered before.
use border_dns.Prelude.{ℕ, ◌≡◌, true, false, not, ◌&&◌, Option, some, List}
use border_dns.Text.{Text, is_empty}
use border_dns.Types.Error.{ok}
use border_dns.Types.Codes.{QType}
use border_dns.Types.Route.{Route, fallback}
use border_dns.Protocol.Name.Display.{name_text}
use border_dns.Protocol.Question.{DnsQuestion}
use border_dns.Protocol.Message.{DnsMessage, from_wire, first_question}
use border_dns.Block.Matcher.{is_blocked}
use border_dns.Cache.{
  CacheEntry, CachedResponse, RouteScopedCache, clamp_ttl, extract_min_ttl, get_scoped,
  insert_scoped_with_ttl,
}
use border_dns.Cache
use border_dns.Cache.Entries.{EntryMap}
use border_dns.Upstream.{answered, default_upstreams, forward}
use border_dns.Pipeline.Resolve.{Surroundings, is_no_error}
use border_dns.Handler.{RuntimeContext, Handled, static_ips, handle_dns_query}

module _ (M : EntryMap CacheEntry) (hash : Route → QType → List (List ℕ) → ℕ)
    (parse_ipv4 parse_ipv6 : Text → Option (List ℕ)) (ctx : RuntimeContext) where
  -- The query gets past the stages that answer on the spot.
  pub record IsForwarded (query_bytes : List ℕ) (query : DnsMessage) (q : DnsQuestion)
      : Type 0 where
    pub parsed : from_wire query_bytes ≡ ok query
    pub asked : first_question query ≡ some q
    pub no_hosts : is_empty (static_ips ctx q.qtype q.qname) ≡ true
    pub not_blocked :
        (ctx.block_config.enabled && is_blocked ctx.block_matcher (name_text q.qname)) ≡ false

  -- The default upstream servers answer the query with a message that is cached.
  pub record IsAnswered (out : Surroundings) (query m : DnsMessage) : Type 0 where
    pub reply :
        forward out.exchange out.finish_order query
          (default_upstreams ctx.upstreams)
          ctx.default_timeout_ms
        ≡ answered m
    pub cacheable : (is_no_error m.header.rcode && not (is_empty m.answers)) ≡ true

  abbrev run : Surroundings → List ℕ → RouteScopedCache M hash → Handled M hash
  run out query_bytes cache =
      handle_dns_query M hash parse_ipv4 parse_ipv6 ctx out query_bytes cache

  abbrev looked_up :
      Surroundings
      → DnsQuestion
      → RouteScopedCache M hash
      → Option CachedResponse × RouteScopedCache M hash
  looked_up out q cache = get_scoped M hash out.now fallback q.qtype q.qname cache

  -- The lifetime that the cache gives an answer: its lowest TTL, clamped.
  abbrev pub lifetime : DnsMessage → RouteScopedCache M hash → ℕ
  lifetime m cache = clamp_ttl cache.config (clamp_ttl cache.config (extract_min_ttl m))
