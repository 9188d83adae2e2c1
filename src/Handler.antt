-- ===== src/Handler.antt =====
-- crates/border-dns-runtime/src/handler.rs: the handler that the listeners call, which is a path of a
-- query without routes. Its block and hosts responses are those of the pipeline. The
-- counters of requests and the log are left out.
pub mod Sinkhole
pub mod Repeat
mod Examples
use border_dns.Prelude.{
  ℕ, Bool, true, false, not, ◌&&◌, Option, none, some, List, [], ◌∷◌, if◌then◌else◌,
}
use border_dns.Text.{Text, is_empty}
use border_dns.Types.Error.{Result, ok, err}
use border_dns.Types.Codes.{QType}
use border_dns.Types.Route.{Route}
use border_dns.Protocol.Header.{form_err, serv_fail}
use border_dns.Protocol.Name.{DomainName}
use border_dns.Protocol.Name.Display.{name_text}
use border_dns.Protocol.Question.{DnsQuestion}
use border_dns.Protocol.Message.{DnsMessage, response, from_wire, to_wire, first_question}
use border_dns.Geo.{IpAddr}
use border_dns.Hosts.{HostsTable, match_domain}
use border_dns.Block.Matcher.{BlockMatcher, is_blocked}
use border_dns.Cache.{CacheEntry, CachedResponse, RouteScopedCache, wire_with_id}
use border_dns.Cache
use border_dns.Cache.Entries.{EntryMap}
use border_dns.Upstream.{
  UpstreamServer, UpstreamGroups, Forwarded, answered, failed, default_upstreams, forward,
}
use border_dns.Pipeline.Build.{HostsConfig, BlockConfig}
use border_dns.Pipeline.Blocking.{hosts_response, build_block_response, malformed_response}
use border_dns.Pipeline.Resolve.{Surroundings, is_no_error, with_rcode}

pub record HandlerResponse : Type 0 where
  pub wire : List ℕ
  pub message : DnsMessage

-- Of the context what the handler reads; the cache is passed along.
pub record RuntimeContext : Type 0 where
  pub hosts_config : HostsConfig
  pub block_config : BlockConfig
  pub upstreams : UpstreamGroups
  pub default_timeout_ms : ℕ
  pub hosts : HostsTable
  pub block_matcher : BlockMatcher

abbrev pub encoded : DnsMessage → HandlerResponse
encoded m = record { wire = to_wire m; message = m }

unfoldable pub static_ips : RuntimeContext → QType → DomainName → List IpAddr
static_ips ctx qtype domain =
    if ctx.hosts_config.enabled then match_domain (name_text domain) qtype ctx.hosts else []

module _ (M : EntryMap CacheEntry) (hash : Route → QType → List (List ℕ) → ℕ) where
  -- A response with the cache after it.
  abbrev pub Handled : Type 0
  Handled = HandlerResponse × RouteScopedCache M hash

  unfoldable pub handle_forwarded :
      ℕ → DnsMessage → QType → DomainName → Forwarded DnsMessage → RouteScopedCache M hash → Handled
  handle_forwarded later query qtype domain (answered message) cache = (
    encoded message,
    if is_no_error message.header.rcode && not (is_empty message.answers)
        then Cache.insert M hash later qtype domain message cache
        else cache,
  )
  handle_forwarded later query qtype domain (failed e) cache =
      (encoded (with_rcode serv_fail (response query)), cache)

  -- A hit is sent under the query's identifier; the message beside it is the one stored.
  unfoldable pub handle_cached :
      RuntimeContext
      → Surroundings
      → DnsMessage
      → QType
      → DomainName
      → Option CachedResponse
      → RouteScopedCache M hash
      → Handled
  handle_cached ctx out query qtype domain (some cached) cache =
      (record { wire = wire_with_id query.header.id cached; message = cached.message }, cache)
  handle_cached ctx out query qtype domain none cache =
      handle_forwarded out.later query qtype domain
        (forward out.exchange out.finish_order query (default_upstreams ctx.upstreams)
          ctx.default_timeout_ms)
        cache

  unfoldable pub handle_uncached :
      RuntimeContext
      → Surroundings
      → DnsMessage
      → QType
      → DomainName
      → RouteScopedCache M hash
      → Handled
  handle_uncached ctx out query qtype domain cache =
      let (cached, rest) = Cache.get M hash out.now qtype domain cache in
      handle_cached ctx out query qtype domain cached rest

  module _ (parse_ipv4 parse_ipv6 : Text → Option (List ℕ)) where
    unfoldable pub handle_question :
        RuntimeContext
        → Surroundings
        → DnsMessage
        → QType
        → DomainName
        → RouteScopedCache M hash
        → Handled
    handle_question ctx out query qtype domain cache =
        if not (is_empty (static_ips ctx qtype domain))
        then (
          encoded (
              hosts_response qtype domain ctx.hosts_config.ttl_secs (static_ips ctx qtype domain)
                query),
          cache,
        )
        else if ctx.block_config.enabled && is_blocked ctx.block_matcher (name_text domain)
        then (
          encoded (build_block_response parse_ipv4 parse_ipv6 ctx.block_config query qtype domain),
          cache,
        )
        else handle_uncached ctx out query qtype domain cache

    unfoldable pub handle_asked :
        RuntimeContext
        → Surroundings
        → DnsMessage
        → Option DnsQuestion
        → RouteScopedCache M hash
        → Handled
    handle_asked ctx out query none cache = (encoded (with_rcode form_err (response query)), cache)
    handle_asked ctx out query (some q) cache = handle_question ctx out query q.qtype q.qname cache

    unfoldable pub handle_parsed :
        RuntimeContext → Surroundings → Result DnsMessage → RouteScopedCache M hash → Handled
    handle_parsed ctx out (err _) cache = (encoded malformed_response, cache)
    handle_parsed ctx out (ok query) cache = handle_asked ctx out query (first_question query) cache

    unfoldable pub handle_dns_query :
        RuntimeContext → Surroundings → List ℕ → RouteScopedCache M hash → Handled
    handle_dns_query ctx out query_bytes cache = handle_parsed ctx out (from_wire query_bytes) cache
