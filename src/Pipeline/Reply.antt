-- ===== src/Pipeline/Reply.antt =====
-- Whose query a response answers.
use mathlib.Core.Path.{subst}
use border_dns.Prelude.{
  ℕ, ◌≡◌, refl, Bool, not, Option, none, some, List, [], ◌∷◌, if-elim, unwrap_or, ◌⊎◌, inl, inr,
  AnyOf,
}
use border_dns.Text.{Text, is_empty}
use border_dns.Types.Error.{ok}
use border_dns.Types.Codes.{
  QType, exact, all, axfr, mailb, maila, RecordType, a, ns, cname, soa, ptr, mx, txt, aaaa, srv,
  svcb, https, opt, unknown, as_record_type,
}
use border_dns.Types.Route.{Route}
use border_dns.Protocol.Header.{response_header}
use border_dns.Protocol.Name.{DomainName}
use border_dns.Protocol.Question.{DnsQuestion}
use border_dns.Protocol.Message.{
  DnsMessage, response, from_wire, first_question, add_answer, add_authority,
}
use border_dns.Geo.{IpAddr}
use border_dns.Policy.{AnswerGeoEvidence}
use border_dns.Governance.State.{DomainGovernanceState}
use border_dns.Governance.Store.{StateMap}
use border_dns.Cache.{CacheEntry, CachedResponse}
use border_dns.Cache.Entries.{EntryMap}
use border_dns.Upstream.{UpstreamServer, Forwarded, answered, failed, for_route, forward}
use border_dns.Upstream.Race.{Reorders, Responds, forward-Responds}
use border_dns.Pipeline.Build.{Pipeline, BlockConfig}
use border_dns.Pipeline.Blocking.{
  add_addresses, hosts_response, build_soa_suppress_response, qtype_suppressed, blackhole_response,
  build_block_response,
}
use border_dns.Pipeline.Resolve.{
  Surroundings, ResolverState, Outcome, on_answer, on_failure, on_forwarded, on_cached, route_of,
  resolve_routed, hosts_ips, blocks, resolve_question, on_question, on_parsed, resolve,
}

add_addresses-id :
    (domain : DomainName) (rr_type : RecordType) (ttl : ℕ) (ips : List IpAddr) (m : DnsMessage)
    → (add_addresses domain rr_type ttl ips m).header.id ≡ m.header.id
unfolding add_addresses add_answer
add_addresses-id domain rr_type ttl [] m = refl
add_addresses-id domain rr_type ttl (ip ∷ ips) m = add_addresses-id domain rr_type ttl ips _

module _ (parse_ipv4 parse_ipv6 : Text → Option (List ℕ)) where
  blackhole_response-id :
      (block : BlockConfig) (domain : DomainName) (qtype : QType) (m : DnsMessage)
      → (blackhole_response parse_ipv4 parse_ipv6 block domain qtype m).header.id ≡ m.header.id
  unfolding blackhole_response add_answer build_soa_suppress_response add_authority response
      response_header
  blackhole_response-id block domain (exact a) m = refl
  blackhole_response-id block domain (exact aaaa) m = refl
  blackhole_response-id block domain (exact ns) m = refl
  blackhole_response-id block domain (exact cname) m = refl
  blackhole_response-id block domain (exact soa) m = refl
  blackhole_response-id block domain (exact ptr) m = refl
  blackhole_response-id block domain (exact mx) m = refl
  blackhole_response-id block domain (exact txt) m = refl
  blackhole_response-id block domain (exact srv) m = refl
  blackhole_response-id block domain (exact svcb) m = refl
  blackhole_response-id block domain (exact https) m = refl
  blackhole_response-id block domain (exact opt) m = refl
  blackhole_response-id block domain (exact (unknown v)) m = refl
  blackhole_response-id block domain all m = refl
  blackhole_response-id block domain axfr m = refl
  blackhole_response-id block domain mailb m = refl
  blackhole_response-id block domain maila m = refl

  build_block_response-id :
      (block : BlockConfig) (query : DnsMessage) (qtype : QType) (domain : DomainName)
      → (build_block_response parse_ipv4 parse_ipv6 block query qtype domain).header.id
        ≡ query.header.id
  unfolding build_block_response build_soa_suppress_response add_authority response response_header
  build_block_response-id block query qtype domain =
      if-elim (λ (m : DnsMessage). m.header.id ≡ query.header.id) (qtype_suppressed block qtype)
        (λ _. refl) (λ _. blackhole_response-id block domain qtype (response query))

hosts_response-id :
    (qtype : QType) (domain : DomainName) (ttl : ℕ) (ips : List IpAddr) (query : DnsMessage)
    → (hosts_response qtype domain ttl ips query).header.id ≡ query.header.id
unfolding hosts_response response response_header
hosts_response-id qtype domain ttl ips query =
    add_addresses-id domain (unwrap_or (as_record_type qtype) a) ttl ips (response query)

module _ (M : EntryMap CacheEntry) (hash : Route → QType → List (List ℕ) → ℕ) (S : StateMap)
    (parse_ipv4 parse_ipv6 : Text → Option (List ℕ))
    (can_promote : Route → AnswerGeoEvidence → Bool) (p : Pipeline) where
  -- The message is under the query's identifier, or it is what the upstream servers answered.
  abbrev IsReply : Surroundings → DnsMessage → List UpstreamServer → DnsMessage → Type 0
  IsReply out query servers m =
      (m.header.id ≡ query.header.id)
      ⊎ (forward out.exchange out.finish_order query servers p.default_timeout_ms ≡ answered m)

  on_forwarded-IsReply :
      (out : Surroundings) (query : DnsMessage) (qtype : QType) (domain : DomainName)
      (route : Route) (gov_state : DomainGovernanceState) (forwarded : Forwarded DnsMessage)
      (st : ResolverState M hash S) (servers : List UpstreamServer)
      → forward out.exchange out.finish_order query servers p.default_timeout_ms ≡ forwarded
      → IsReply out query servers
          (on_forwarded M hash S can_promote p out query qtype domain route gov_state forwarded
            st).response
  unfolding on_forwarded on_answer on_failure response response_header
  on_forwarded-IsReply out query qtype domain route gov_state (answered m) st servers h = inr h
  on_forwarded-IsReply out query qtype domain route gov_state (failed e) st servers h = inl refl

  on_cached-IsReply :
      (out : Surroundings) (query : DnsMessage) (qtype : QType) (domain : DomainName)
      (route : Route) (gov_state : DomainGovernanceState) (cached : Option CachedResponse)
      (st : ResolverState M hash S)
      → IsReply out query
          (for_route p.upstreams route)
          (on_cached M hash S can_promote p out query qtype domain route gov_state cached
            st).response
  unfolding on_cached
  on_cached-IsReply out query qtype domain route gov_state (some cached) st = inl refl
  on_cached-IsReply out query qtype domain route gov_state none st =
      on_forwarded-IsReply out query qtype domain route gov_state _ st (for_route p.upstreams route)
        refl

  -- The servers of a domain's route.
  abbrev pub servers_of : DomainName → List UpstreamServer
  servers_of domain = for_route p.upstreams (route_of p domain)

  resolve_question-IsReply :
      (out : Surroundings) (query : DnsMessage) (qtype : QType) (domain : DomainName)
      (st : ResolverState M hash S)
      → IsReply out query
          (servers_of domain)
          (resolve_question M hash S can_promote parse_ipv4 parse_ipv6 p out query qtype domain
            st).response
  unfolding resolve_question resolve_routed
  resolve_question-IsReply out query qtype domain st =
      let answers : Outcome M hash S → Type 0 =
        λ o. IsReply out query (servers_of domain) o.response in
      if-elim answers (not (is_empty (hosts_ips p qtype domain)))
        (λ _.
          inl (
            hosts_response-id qtype domain p.hosts_config.ttl_secs (hosts_ips p qtype domain)
              query))
        (λ _.
          if-elim answers (blocks p domain)
            (λ _.
              inl (build_block_response-id parse_ipv4 parse_ipv6 p.block_config query qtype domain))
            (λ _. on_cached-IsReply out query qtype domain (route_of p domain) _ _ _))

  -- A response of one of the servers of the route of the question's domain.
  abbrev pub FromServers : Surroundings → DnsMessage → Option DnsQuestion → DnsMessage → Type 0
  FromServers out query none m = ⊥
  FromServers out query (some q) m =
      AnyOf (Responds out.exchange query p.default_timeout_ms m) (servers_of q.qname)

  answered-Responds :
      (out : Surroundings) (query : DnsMessage) (servers : List UpstreamServer) (m : DnsMessage)
      → Reorders out.finish_order
      → forward out.exchange out.finish_order query servers p.default_timeout_ms ≡ answered m
      → AnyOf (Responds out.exchange query p.default_timeout_ms m) servers
  answered-Responds out query servers m r e =
      elim (forward-Responds out.exchange query p.default_timeout_ms out.finish_order servers r).1 [
        | inl none_answers ↦ absurd (cc (e, none_answers))
        | inr (n, answers, given) ↦
            let same : n ≡ m = cc in
            subst (λ x. AnyOf (Responds out.exchange query p.default_timeout_ms x) servers) same
              given
      ]

  on_question-id :
      (out : Surroundings) (query : DnsMessage) (question : Option DnsQuestion)
      (st : ResolverState M hash S)
      → Reorders out.finish_order
      → (let m =
            (on_question M hash S can_promote parse_ipv4 parse_ipv6 p out query question
              st).response in
          (m.header.id ≡ query.header.id) ⊎ FromServers out query question m)
  unfolding on_question response response_header
  on_question-id out query none st r = inl refl
  on_question-id out query (some q) st r =
      elim (resolve_question-IsReply out query q.qtype q.qname st) [
        | inl same ↦ inl same
        | inr e ↦ inr (answered-Responds out query (servers_of q.qname) _ r e)
      ]

  -- Every message that can be read is answered, and under its identifier, from whichever stage the
  -- response comes, a failure of the upstream servers included; but for what one of the upstream
  -- servers of the route of the question's domain responded, which is passed on as it is, under
  -- whatever identifier. The order in which the tasks finish may be any.
  pub resolve-id :
      (out : Surroundings) (query_bytes : List ℕ) (query : DnsMessage) (st : ResolverState M hash S)
      → from_wire query_bytes ≡ ok query
      → Reorders out.finish_order
      → (let m =
            (resolve M hash S can_promote parse_ipv4 parse_ipv6 p out query_bytes st).response in
          (m.header.id ≡ query.header.id) ⊎ FromServers out query (first_question query) m)
  unfolding resolve on_parsed
  resolve-id out query_bytes query st e r =
      rw e (on_question-id out query (first_question query) st r)
