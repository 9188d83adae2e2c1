-- ===== src/Pipeline/Resolve.antt =====
-- `Pipeline::resolve`, stage by stage. What it sends to the background workers is part of the outcome;
-- the identifiers and the times of these are left out, and the flag of a fact that the phase changed,
-- which is always set.
use border_dns.Prelude.{
  ℕ, ◌+◌, Bool, true, false, not, ◌&&◌, ◌||◌, Option, none, some, List, [], ◌∷◌, ltb, ◌==◌,
  if◌then◌else◌,
}
use border_dns.Text.{Text, is_empty}
use border_dns.Types.Error.{Result, ok, err}
use border_dns.Types.Codes.{QType}
use border_dns.Types.Route.{Route, china, same_route, in_mainland}
use border_dns.Protocol.Header.{ResponseCode, no_error, form_err, serv_fail}
use border_dns.Protocol.Name.{DomainName}
use border_dns.Protocol.Name.Display.{name_text}
use border_dns.Protocol.Question.{DnsQuestion}
use border_dns.Protocol.Rr.{ResourceRecord}
use border_dns.Protocol.Message.{DnsMessage, response, from_wire, first_question}
use border_dns.Geo.{IpAddr, lookup}
use border_dns.Hosts.{match_domain}
use border_dns.Block.Matcher.{is_blocked}
use border_dns.Knowledge.{classify_domain}
use border_dns.Policy.{AnswerGeoEvidence, decide_by_domain_prior, address_of, analyze_answer_geo}
use border_dns.Governance.State.{GovernancePhase, DomainGovernanceState, new, same_phase}
use border_dns.Governance.Transition.{TransitionReason, evaluate_governance_transition}
use border_dns.Governance.Maintenance.{query_input, record_transition}
use border_dns.Governance.Store.{StateMap, get_or_create, force_update}
use border_dns.Cache.{
  CacheEntry, CachedResponse, RouteScopedCache, extract_min_ttl, get_scoped, insert_scoped_with_ttl,
}
use border_dns.Cache.Entries.{EntryMap}
use border_dns.Upstream.{UpstreamServer, Forwarded, answered, failed, for_route, forward}
use border_dns.Pipeline.Build.{Pipeline}
use border_dns.Pipeline.Blocking.{hosts_response, build_block_response, malformed_response}

pub data MeaningfulEventKind : Type 0 where
  first_seen_domain route_decision_changed phase_changed suggested_promoted stable_promoted :
      MeaningfulEventKind
  review_entered fallback_entered mixed_geo_observed tls_identity_mismatch third_party_alignment :
      MeaningfulEventKind
  third_party_mismatch cname_chain_changed geo_scope_changed upstream_repeated_failure :
      MeaningfulEventKind
  manual_correction : MeaningfulEventKind

pub record FactEmitter : Type 0 where
  pub domain : Text
  pub event_kind : MeaningfulEventKind
  pub new_phase : Option GovernancePhase
  pub reason_code : TransitionReason

pub record ObservationTask : Type 0 where
  pub domain : Text
  pub ip_addresses : List IpAddr
  pub current_phase : GovernancePhase

-- The addresses of the answers.
unfoldable pub ip_addresses : List ResourceRecord → List IpAddr
ip_addresses [] = []
ip_addresses (rr ∷ answers) = elim (address_of rr.rdata) [
  | some ip ↦ ip ∷ ip_addresses answers
  | none ↦ ip_addresses answers
]

unfoldable pub is_no_error : ResponseCode → Bool
is_no_error no_error = true
is_no_error _ = false

-- A response with another code.
abbrev pub with_rcode : ResponseCode → DnsMessage → DnsMessage
with_rcode rcode m = record m { header = record m.header { rcode = rcode } }

abbrev pub with_id : ℕ → DnsMessage → DnsMessage
with_id id m = record m { header = record m.header { id = id } }

-- What a query finds outside: the time of its lookup and of its insertion, the hours that its domain
-- has been under review, the exchange of bytes with an upstream server, and the order in which the
-- tasks of a race finish.
pub record Surroundings : Type 0 where
  pub now : ℕ
  pub later : ℕ
  pub review_hours : ℕ
  pub exchange : UpstreamServer → ℕ → List ℕ → Forwarded (List ℕ)
  pub finish_order : List (Forwarded DnsMessage) → List (Forwarded DnsMessage)

-- The lifetime that stage 7 gives an answer.
unfoldable pub effective_ttl : Pipeline → Route → DnsMessage → ℕ
effective_ttl p route message =
    if same_route route china && in_mainland p.location
    then p.enhanced_ttl_secs
    else extract_min_ttl message

abbrev pub is_first_seen : DomainGovernanceState → Bool
is_first_seen state = (state.observation_count == 0) && same_phase state.phase new

-- Stage 2.
unfoldable pub route_of : Pipeline → DomainName → Route
route_of p domain =
    (decide_by_domain_prior p.location (classify_domain p.knowledge)
      (name_text domain)).execution_route

unfoldable pub hosts_ips : Pipeline → QType → DomainName → List IpAddr
hosts_ips p qtype domain =
    if p.hosts_config.enabled then match_domain (name_text domain) qtype p.hosts else []

unfoldable pub blocks : Pipeline → DomainName → Bool
blocks p domain = p.block_config.enabled && is_blocked p.block_matcher (name_text domain)

module _ (M : EntryMap CacheEntry) (hash : Route → QType → List (List ℕ) → ℕ) (S : StateMap) where
  pub record ResolverState : Type 0 where
    pub cache : RouteScopedCache M hash
    pub store : S.Map

  pub record Outcome : Type 0 where
    pub response : DnsMessage
    pub state : ResolverState
    pub facts : List FactEmitter
    pub tasks : List ObservationTask

  -- A response that changes nothing.
  abbrev pub reply : DnsMessage → ResolverState → Outcome
  reply resp st = record { response = resp; state = st; facts = []; tasks = [] }

  -- Stage 7.
  unfoldable pub cache_answer :
      Pipeline
      → ℕ
      → Route
      → QType
      → DomainName
      → DnsMessage
      → RouteScopedCache M hash
      → RouteScopedCache M hash
  cache_answer p now route qtype domain message cache =
      if is_no_error message.header.rcode && not (is_empty message.answers)
      then insert_scoped_with_ttl M hash now route qtype domain message
          (effective_ttl p route message) cache
      else cache

  -- Stage 4 when it fails.
  unfoldable pub on_failure : Text → DomainGovernanceState → DnsMessage → ResolverState → Outcome
  on_failure domain_str gov_state query st = record {
    response = with_rcode serv_fail (response query);
    state = st;
    facts = [];
    tasks = record { domain = domain_str; ip_addresses = []; current_phase = gov_state.phase } ∷ [];
  }

  module _ (can_promote : Route → AnswerGeoEvidence → Bool) where
    -- Stages 5 to 7, on a response of the upstream servers.
    unfoldable pub on_answer :
        Pipeline
        → Surroundings
        → QType
        → DomainName
        → Text
        → Route
        → DomainGovernanceState
        → DnsMessage
        → ResolverState
        → Outcome
    on_answer p out qtype domain domain_str route gov_state message st =
        let evidence = analyze_answer_geo lookup message.answers in
        let input =
          query_input p.thresholds (can_promote route evidence)
            (ltb 0 evidence.cn_count && ltb 0 evidence.foreign_count) gov_state in
        let transition = evaluate_governance_transition out.review_hours input in
        let update = transition.phase_changed || is_first_seen gov_state in
        let ips = ip_addresses message.answers in
        record {
          response = message;
          state = record {
            cache = cache_answer p out.later route qtype domain message st.cache;
            store =
                if update
                then force_update S domain_str (record_transition out.review_hours input) st.store
                else st.store;
          };
          facts =
              if update
              then record {
                domain = domain_str;
                event_kind = if is_first_seen gov_state then first_seen_domain else phase_changed;
                new_phase = some transition.new_phase;
                reason_code = transition.reason_code;
              }
                ∷ []
              else [];
          tasks =
              if ltb 0 (evidence.cn_count + evidence.foreign_count) && not (is_empty ips)
              then record {
                domain = domain_str;
                ip_addresses = ips;
                current_phase = transition.new_phase;
              }
                ∷ []
              else [];
        }

    unfoldable pub on_forwarded :
        Pipeline
        → Surroundings
        → DnsMessage
        → QType
        → DomainName
        → Route
        → DomainGovernanceState
        → Forwarded DnsMessage
        → ResolverState
        → Outcome
    on_forwarded p out query qtype domain route gov_state (answered message) st =
        on_answer p out qtype domain (name_text domain) route gov_state message st
    on_forwarded p out query qtype domain route gov_state (failed e) st =
        on_failure (name_text domain) gov_state query st

    -- Stage 3: what the cache has, and else the upstream servers.
    unfoldable pub on_cached :
        Pipeline
        → Surroundings
        → DnsMessage
        → QType
        → DomainName
        → Route
        → DomainGovernanceState
        → Option CachedResponse
        → ResolverState
        → Outcome
    on_cached p out query qtype domain route gov_state (some cached) st =
        reply (with_id query.header.id cached.message) st
    on_cached p out query qtype domain route gov_state none st =
        on_forwarded p out query qtype domain route gov_state
          (forward out.exchange out.finish_order query (for_route p.upstreams route)
            p.default_timeout_ms)
          st

    -- Stages 2 and 3.
    unfoldable pub resolve_routed :
        Pipeline → Surroundings → DnsMessage → QType → DomainName → ResolverState → Outcome
    resolve_routed p out query qtype domain st =
        let route = route_of p domain in
        let (gov_state, store) = get_or_create S out.now (name_text domain) st.store in
        let (cached, cache) = get_scoped M hash out.now route qtype domain st.cache in
        on_cached p out query qtype domain route gov_state cached
          (record { cache = cache; store = store })

    module _ (parse_ipv4 parse_ipv6 : Text → Option (List ℕ)) where
      -- Stages 1.5 and 1.6.
      unfoldable pub resolve_question :
          Pipeline → Surroundings → DnsMessage → QType → DomainName → ResolverState → Outcome
      resolve_question p out query qtype domain st =
          if not (is_empty (hosts_ips p qtype domain))
          then reply
              (hosts_response qtype domain p.hosts_config.ttl_secs (hosts_ips p qtype domain) query)
              st
          else if blocks p domain
          then reply (build_block_response parse_ipv4 parse_ipv6 p.block_config query qtype domain)
              st
          else resolve_routed p out query qtype domain st

      unfoldable pub on_question :
          Pipeline → Surroundings → DnsMessage → Option DnsQuestion → ResolverState → Outcome
      on_question p out query none st = reply (with_rcode form_err (response query)) st
      on_question p out query (some q) st = resolve_question p out query q.qtype q.qname st

      unfoldable pub on_parsed :
          Pipeline → Surroundings → Result DnsMessage → ResolverState → Outcome
      on_parsed p out (err _) st = reply malformed_response st
      on_parsed p out (ok query) st = on_question p out query (first_question query) st

      unfoldable pub resolve : Pipeline → Surroundings → List ℕ → ResolverState → Outcome
      resolve p out query_bytes st = on_parsed p out (from_wire query_bytes) st
