-- ===== src/Pipeline/Examples/Fixtures.antt =====
-- A query for the addresses of `a.b`, and two pipelines, of which one blocks the suffix `b`.
use border_dns.Prelude.{ℕ, ◌≡◌, refl, Bool, true, false, Option, none, List, [], ◌∷◌, arith}
use border_dns.Text.{
  Text, is_empty, to_lowercase, to_lower, trim, trim_end, trim_start, strip_last, is_whitespace,
  contains, split, onto_first, text_eq, starts_with, ends_with, find, find_from,
  eq_ignore_ascii_case,
}
use border_dns.Types.Codes.{QType, qtype_from_u16, qclass_from_u16, a, inet}
use border_dns.Types.Route.{Route, in_china}
use border_dns.Protocol.Name.{labels, labels_from}
use border_dns.Protocol.Question.{DnsQuestion}
use border_dns.Protocol.Question.RoundTrip as Question
use border_dns.Protocol.Rr.{a_data}
use border_dns.Protocol.Message.{DnsMessage, query, response, add_answer, to_wire}
use border_dns.Policy.{AnswerGeoEvidence}
use border_dns.Knowledge.{knowledge_of}
use border_dns.Hosts.{empty_table}
use border_dns.Block.Matcher.{
  normalize_rule, rule_tokens, rev_onto, nonempty, no_rules, suffix_pattern, split_labels_reversed,
  domain_name,
}
use border_dns.Block.Rules.{matches, takes}
use border_dns.Block.Trie.{tokenize}
use border_dns.Block.Glob.{glob_loop, glob_part, label_matches_glob}
use border_dns.Block.Coverage.{Meaning}
use border_dns.Protocol.Name.Display.{name_text, labels_text, label_text, byte_text}
use border_dns.Governance.State.{default_thresholds}
use border_dns.Cache.{CacheEntry, CacheConfig}
use border_dns.Cache.Examples.AssocList.{assoc_list}
use border_dns.Upstream.{UpstreamServer, UpstreamGroups, udp, answered}
use border_dns.Pipeline.Build.{Pipeline, BlockConfig, build_block_matcher_from_config}
use border_dns.Pipeline.Resolve.{Surroundings, ResolverState}
use border_dns.Pipeline.Examples.States.{state_list}

abbrev pub question : DnsQuestion
question = record {
  qname = record { buf = b'a' ∷ b'b' ∷ []; ends = 1 ∷ 2 ∷ [] };
  qtype = qtype_from_u16 1;
  qclass = qclass_from_u16 1;
}

pub question-IsValid : Question.IsValid question
question-IsValid = record {
  qname_valid = record {
    rising = (omega arith, omega arith, (omega arith, omega arith, refl));
    short = omega arith;
  };
  qtype_code = record { code = 1; small = omega arith; is_code = refl };
  qclass_code = record { code = 1; small = omega arith; is_code = refl };
}

-- The suffix `b` is blocked.
abbrev pub block : BlockConfig
block = record {
  enabled = true;
  domains = [];
  suffixes = (b'b' ∷ []) ∷ [];
  patterns = [];
  rules_files = [];
  blackhole_ipv4 = b'x' ∷ [];
  blackhole_ipv6 = [];
  suppress_qtypes = [];
}

abbrev pub server : UpstreamServer
server = record { name = []; transport = udp; endpoint = []; server_name = none; timeout_ms = 9 }

abbrev pub groups : UpstreamGroups
groups = record { china = []; foreign = []; bootstrap = server ∷ []; default = [] }

abbrev pub no_files : Text → Option (List (Option Text))
no_files path = none

abbrev pub blocking : Pipeline
blocking = record {
  hosts_config = record { enabled = false; entries = []; files = []; ttl_secs = 60 };
  block_config = block;
  location = in_china;
  upstreams = groups;
  default_timeout_ms = 5;
  enhanced_ttl_secs = 3600;
  thresholds = default_thresholds;
  knowledge = knowledge_of [] [] [] [] [];
  hosts = empty_table;
  block_matcher = build_block_matcher_from_config no_files block;
}

abbrev pub unblocked : Pipeline
unblocked = record blocking {
  block_config = record block { enabled = false };
  block_matcher = no_rules;
}

abbrev pub answer : DnsMessage
answer =
    add_answer
      (record {
        name = question.qname;
        rr_type = a;
        class = inet;
        ttl = 30;
        rdata = a_data (1 ∷ 2 ∷ 3 ∷ 4 ∷ []);
      })
      (response (query 7 question))

abbrev pub at : ℕ → Surroundings
at now = record {
  now = now;
  later = now;
  review_hours = 0;
  exchange = λ server timeout wire. answered (to_wire answer);
  finish_order = λ results. results;
}

abbrev pub config : CacheConfig
config = record {
  max_entries = 10;
  min_ttl_secs = 5;
  max_ttl_secs = 86400;
  negative_ttl_secs = 30;
  enhanced_ttl_secs = 3600;
}

abbrev pub hash : Route → QType → List (List ℕ) → ℕ
hash route qtype labels = 1

abbrev pub start : ResolverState (assoc_list CacheEntry) hash state_list
start = record {
  cache = record { entries = []; hits = 0; misses = 0; evictions = 0; config = config };
  store = [];
}

abbrev pub no_address : Text → Option (List ℕ)
no_address text = none

abbrev pub promotes : Route → AnswerGeoEvidence → Bool
promotes route evidence = true

pub names_b :
    Meaning
      (split_labels_reversed (domain_name (name_text question.qname)))
      (suffix_pattern (b'b' ∷ []))
unfolding suffix_pattern matches takes tokenize normalize_rule rule_tokens split_labels_reversed
    rev_onto nonempty domain_name glob_loop glob_part label_matches_glob is_empty to_lowercase
    to_lower trim trim_end trim_start strip_last is_whitespace contains split onto_first text_eq
    starts_with ends_with find find_from eq_ignore_ascii_case name_text labels_text label_text
    byte_text labels labels_from
names_b = (refl, refl)

pub b_named : is_empty (domain_name (name_text question.qname)) ≡ false
unfolding domain_name is_empty to_lowercase strip_last name_text labels_text label_text byte_text
    labels labels_from
b_named = refl
