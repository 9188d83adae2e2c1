-- ===== src/Pipeline/Examples.antt =====
-- The theorems on the path of a query, at queries for the addresses of `a.b`.
pub mod States
pub mod Fixtures
pub mod Served
use border_dns.Prelude.{
  ℕ, ◌+◌, ◌≡◌, ◌⊎◌, inl, inr, refl, sym, ap, Bool, Option, some, List, [], ◌∷◌, ◌++◌, arith, min,
  max,
}
use border_dns.Text.{
  Text, is_empty, trim, trim_end, trim_start, is_whitespace, contains, starts_with, ends_with, find,
  find_from, eq_ignore_ascii_case,
}
use border_dns.Types.Codes.{QType, qtype_from_u16, qclass_from_u16, a, inet}
use border_dns.Types.Route.{Route, in_china}
use border_dns.Protocol.Header.{query_header}
use border_dns.Protocol.Question.{DnsQuestion}
use border_dns.Protocol.Question.RoundTrip as Question
use border_dns.Protocol.Rr.{a_data}
use border_dns.Protocol.Message.{DnsMessage, query, response, to_wire, first_question}
use border_dns.Protocol.Message.Reply.{from_wire-query}
use border_dns.Policy.{AnswerGeoEvidence}
use border_dns.Hosts.{empty_table}
use border_dns.Block.Matcher.{
  normalize_rule, rule_tokens, no_rules, suffix_pattern, split_labels_reversed, domain_name,
}
use border_dns.Block.Rules.{matches, takes}
use border_dns.Block.Trie.{tokenize}
use border_dns.Block.Glob.{glob_loop, glob_part, label_matches_glob}
use border_dns.Block.Coverage.{Meaning}
use border_dns.Governance.State.{default_thresholds}
use border_dns.Cache.{CacheEntry, CacheConfig, RouteScopedCache}
use border_dns.Cache.Examples.AssocList.{assoc_list}
use border_dns.Upstream.Race.{Reorders}
use border_dns.Pipeline.Build.{Pipeline, BlockConfig, build_block_matcher_from_config}
use border_dns.Pipeline.Resolve.{Surroundings, ResolverState, Outcome, hosts_ips, resolve}
use border_dns.Pipeline.Reply.{FromServers, resolve-id}
use border_dns.Pipeline.Sinkhole.{Hides, IsListed, resolve-IsListed}
use border_dns.Pipeline.Examples.States.{state_list}
use border_dns.Pipeline.Examples.Fixtures.{
  question, question-IsValid, block, groups, no_files, blocking, unblocked, at, hash, start,
  no_address, promotes, names_b, b_named,
}

in_turn-Reorders : Reorders (at 0).finish_order
in_turn-Reorders r rs = (λ h. h, λ h. h)

-- A query under an identifier, at a time.
abbrev run_at :
    Pipeline
    → ℕ
    → ℕ
    → ResolverState (assoc_list CacheEntry) hash state_list
    → Outcome (assoc_list CacheEntry) hash state_list
run_at p now id st =
    resolve (assoc_list CacheEntry) hash state_list promotes no_address no_address p (at now)
      (to_wire (query id question)) st

resolve-id_example :
    ((run_at unblocked 0 7 start).response.header.id ≡ 7)
    ⊎ FromServers
        (assoc_list CacheEntry)
        hash
        state_list
        no_address
        no_address
        promotes
        unblocked
        (at 0)
        (query 7 question)
        (some question)
        (run_at unblocked 0 7 start).response
unfolding query query_header first_question
resolve-id_example =
    resolve-id (assoc_list CacheEntry) hash state_list no_address no_address promotes unblocked
      (at 0) (to_wire (query 7 question)) (query 7 question) start
      (from_wire-query 7 question (omega arith) question-IsValid) in_turn-Reorders

resolve-IsListed_example :
    Hides no_address no_address block (run_at blocking 0 7 start).response
    × ((run_at blocking 0 7 start).state ≡ start)
    × ((run_at blocking 0 7 start).facts ≡ [])
    × ((run_at blocking 0 7 start).tasks ≡ [])
unfolding query first_question hosts_ips is_empty
resolve-IsListed_example =
    resolve-IsListed (assoc_list CacheEntry) hash state_list promotes no_address no_address no_files
      blocking (at 0) (to_wire (query 7 question)) (query 7 question) question start
      (from_wire-query 7 question (omega arith) question-IsValid) refl refl
      (record {
        enabled = refl;
        no_files = refl;
        made = refl;
        named = b_named;
        meant = inl names_b;
      })
