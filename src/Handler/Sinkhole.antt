-- ===== src/Handler/Sinkhole.antt =====
-- What a client of the listeners learns of a domain on the block list.
use border_dns.Prelude.{ℕ, ◌≡◌, refl, true, Option, some, List}
use border_dns.Text.{Text, is_empty}
use border_dns.Types.Error.{ok}
use border_dns.Types.Codes.{QType}
use border_dns.Types.Route.{Route}
use border_dns.Protocol.Question.{DnsQuestion}
use border_dns.Protocol.Message.{DnsMessage, from_wire, to_wire, first_question}
use border_dns.Cache.{CacheEntry, RouteScopedCache}
use border_dns.Cache.Entries.{EntryMap}
use border_dns.Pipeline.Resolve.{Surroundings}
use border_dns.Pipeline.Sinkhole.{Hides, IsListed, is_blocked-IsListed, build_block_response-Hides}
use border_dns.Handler.{
  RuntimeContext, static_ips, handle_question, handle_asked, handle_parsed, handle_dns_query,
}

module _ (M : EntryMap CacheEntry) (hash : Route → QType → List (List ℕ) → ℕ)
    (parse_ipv4 parse_ipv6 : Text → Option (List ℕ))
    (open_rules : Text → Option (List (Option Text))) (ctx : RuntimeContext) where
  -- The listeners' handler answers a query for a domain that one of the configured domains, suffixes or
  -- patterns means, with no rule files and no static address for the domain, without error and with no
  -- address but those of the sinkhole; the bytes it sends are the wire form of that answer, and the
  -- cache stays as it is, whatever it holds and whatever the upstream servers would answer.
  pub handle_dns_query-IsListed :
      (out : Surroundings) (query_bytes : List ℕ) (query : DnsMessage) (q : DnsQuestion)
      (cache : RouteScopedCache M hash)
      → from_wire query_bytes ≡ ok query
      → first_question query ≡ some q
      → is_empty (static_ips ctx q.qtype q.qname) ≡ true
      → IsListed open_rules ctx.block_config ctx.block_matcher q.qname
      → Hides parse_ipv4 parse_ipv6 ctx.block_config
          (handle_dns_query M hash parse_ipv4 parse_ipv6 ctx out query_bytes cache).0.message
        × ((handle_dns_query M hash parse_ipv4 parse_ipv6 ctx out query_bytes cache).0.wire
            ≡ to_wire
                (handle_dns_query M hash parse_ipv4 parse_ipv6 ctx out query_bytes cache).0.message)
        × ((handle_dns_query M hash parse_ipv4 parse_ipv6 ctx out query_bytes cache).1 ≡ cache)
  unfolding handle_dns_query handle_parsed handle_asked handle_question
  handle_dns_query-IsListed out query_bytes query q cache e f n l =
      rw (e, f, n, is_blocked-IsListed open_rules ctx.block_config ctx.block_matcher q.qname l)
        (
          build_block_response-Hides parse_ipv4 parse_ipv6 ctx.block_config query q.qtype q.qname,
          refl,
          refl,
        )
