-- ===== src/Handler/Examples.antt =====
-- The handler at a query for a blocked domain, and at one that is forwarded.
use border_dns.Prelude.{ℕ, ◌≡◌, refl, inl, arith}
use border_dns.Text.{is_empty}
use border_dns.Protocol.Message.{query, first_question, to_wire}
use border_dns.Protocol.Message.Reply.{from_wire-query}
use border_dns.Cache.{CacheEntry, RouteScopedCache}
use border_dns.Cache.Examples.AssocList.{assoc_list}
use border_dns.Pipeline.Examples.Fixtures.{
  question, question-IsValid, block, blocking, unblocked, groups, no_files, no_address, hash, start,
  at, names_b, b_named,
}
use border_dns.Pipeline.Sinkhole.{Hides}
use border_dns.Handler.{RuntimeContext, Handled, static_ips, handle_dns_query}
use border_dns.Handler.Sinkhole.{handle_dns_query-IsListed}

abbrev context : RuntimeContext
context = record {
  hosts_config = blocking.hosts_config;
  block_config = block;
  upstreams = groups;
  default_timeout_ms = 5;
  hosts = blocking.hosts;
  block_matcher = blocking.block_matcher;
}

abbrev handled : Handled (assoc_list CacheEntry) hash
handled =
    handle_dns_query (assoc_list CacheEntry) hash no_address no_address context (at 0)
      (to_wire (query 7 question)) start.cache

handle_dns_query-IsListed_example :
    Hides no_address no_address block handled.0.message
    × (handled.0.wire ≡ to_wire handled.0.message)
    × (handled.1 ≡ start.cache)
unfolding query first_question static_ips is_empty
handle_dns_query-IsListed_example =
    handle_dns_query-IsListed (assoc_list CacheEntry) hash no_address no_address no_files context
      (at 0) (to_wire (query 7 question)) (query 7 question) question start.cache
      (from_wire-query 7 question (omega arith) question-IsValid) refl refl
      (record {
        enabled = refl;
        no_files = refl;
        made = refl;
        named = b_named;
        meant = inl names_b;
      })

abbrev open_context : RuntimeContext
open_context = record context {
  block_config = unblocked.block_config;
  block_matcher = unblocked.block_matcher;
}

-- A query under an identifier, at a time.
abbrev handled_at :
    ℕ → ℕ → RouteScopedCache (assoc_list CacheEntry) hash → Handled (assoc_list CacheEntry) hash
handled_at now id cache =
    handle_dns_query (assoc_list CacheEntry) hash no_address no_address open_context (at now)
      (to_wire (query id question)) cache
