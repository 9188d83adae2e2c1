-- ===== src/Pipeline/Sinkhole.antt =====
-- What a client learns of a domain on the block list.
use border_dns.Prelude.{
  ℕ, ◌≡◌, ◌&&◌, ◌⊎◌, inl, inr, refl, sym, ap, ◌∙◌, Bool, true, false, Option, some, List, [], ◌∷◌,
  ◌++◌, map, All, AnyOf, if-elim, unwrap_or,
}
use border_dns.Text.{Text, is_empty}
use border_dns.Types.Error.{ok}
use border_dns.Types.Codes.{
  QType, exact, all, axfr, mailb, maila, a, ns, cname, soa, ptr, mx, txt, aaaa, srv, svcb, https,
  opt, unknown,
}
use border_dns.Types.Route.{Route}
use border_dns.Protocol.Header.{response_header, no_error}
use border_dns.Protocol.Name.{DomainName}
use border_dns.Protocol.Name.Display.{name_text}
use border_dns.Protocol.Question.{DnsQuestion}
use border_dns.Protocol.Rr.{ResourceRecord, a_data, aaaa_data}
use border_dns.Protocol.Message.{
  DnsMessage, response, from_wire, first_question, add_answer, add_authority,
}
use border_dns.Policy.{AnswerGeoEvidence}
use border_dns.Governance.Store.{StateMap}
use border_dns.Cache.{CacheEntry}
use border_dns.Cache.Entries.{EntryMap}
use border_dns.Block.Matcher.{
  BlockMatcher, no_rules, batch_add, suffix_pattern, from_patterns, split_labels_reversed,
  domain_name, is_blocked,
}
use border_dns.Block.Coverage.{Meaning, is_blocked_complete}
use border_dns.Pipeline.Build.{Pipeline, BlockConfig, load_files, build_block_matcher_from_config}
use border_dns.Pipeline.Blocking.{
  build_soa_suppress_response, qtype_suppressed, blackhole_response, build_block_response,
  localhost, unspecified,
}
use border_dns.Pipeline.Resolve.{
  Surroundings, ResolverState, hosts_ips, blocks, resolve_question, on_question, on_parsed, resolve,
}

-- The rules of a configuration, in the order in which they are added.
abbrev pub configured_rules : BlockConfig → List Text
configured_rules block = block.domains ++ (map suffix_pattern block.suffixes ++ block.patterns)

batch_add-append :
    (xs ys : List Text) (m : BlockMatcher) → batch_add (xs ++ ys) m ≡ batch_add ys (batch_add xs m)
unfolding batch_add
batch_add-append [] ys m = refl
batch_add-append (x ∷ xs) ys m = batch_add-append xs ys _

configured_matcher :
    (open_rules : Text → Option (List (Option Text))) (block : BlockConfig)
    → block.enabled ≡ true
    → block.rules_files ≡ []
    → build_block_matcher_from_config open_rules block ≡ from_patterns (configured_rules block)
unfolding build_block_matcher_from_config from_patterns load_files
configured_matcher open_rules block e f =
    rw (e, f)
      (sym (
        batch_add-append block.domains (map suffix_pattern block.suffixes ++ block.patterns)
          no_rules
        ∙ batch_add-append (map suffix_pattern block.suffixes) block.patterns _))

module _ (parse_ipv4 parse_ipv6 : Text → Option (List ℕ)) (block : BlockConfig) where
  -- An address of the sinkhole.
  abbrev pub IsSinkhole : ResourceRecord → Type 0
  IsSinkhole rr =
      (rr.rdata ≡ a_data (unwrap_or (parse_ipv4 block.blackhole_ipv4) localhost))
      ⊎ (rr.rdata ≡ aaaa_data (unwrap_or (parse_ipv6 block.blackhole_ipv6) unspecified))

  -- No error, and no address but those of the sinkhole.
  pub record Hides (m : DnsMessage) : Type 0 where
    pub no_address : All IsSinkhole m.answers
    pub code : m.header.rcode ≡ no_error

  soa-Hides : (m : DnsMessage) (domain : DomainName) → Hides (build_soa_suppress_response m domain)
  unfolding build_soa_suppress_response add_authority response
  soa-Hides m domain = record { no_address = tt; code = refl }

  blackhole_response-Hides :
      (domain : DomainName) (qtype : QType) (query : DnsMessage)
      → Hides (blackhole_response parse_ipv4 parse_ipv6 block domain qtype (response query))
  unfolding blackhole_response response response_header add_answer
  blackhole_response-Hides domain (exact a) m = record { no_address = (inl refl, tt); code = refl }
  blackhole_response-Hides domain (exact aaaa) m = record {
    no_address = (inr refl, tt);
    code = refl;
  }
  blackhole_response-Hides domain (exact ns) m = soa-Hides _ domain
  blackhole_response-Hides domain (exact cname) m = soa-Hides _ domain
  blackhole_response-Hides domain (exact soa) m = soa-Hides _ domain
  blackhole_response-Hides domain (exact ptr) m = soa-Hides _ domain
  blackhole_response-Hides domain (exact mx) m = soa-Hides _ domain
  blackhole_response-Hides domain (exact txt) m = soa-Hides _ domain
  blackhole_response-Hides domain (exact srv) m = soa-Hides _ domain
  blackhole_response-Hides domain (exact svcb) m = soa-Hides _ domain
  blackhole_response-Hides domain (exact https) m = soa-Hides _ domain
  blackhole_response-Hides domain (exact opt) m = soa-Hides _ domain
  blackhole_response-Hides domain (exact (unknown v)) m = soa-Hides _ domain
  blackhole_response-Hides domain all m = soa-Hides _ domain
  blackhole_response-Hides domain axfr m = soa-Hides _ domain
  blackhole_response-Hides domain mailb m = soa-Hides _ domain
  blackhole_response-Hides domain maila m = soa-Hides _ domain

  pub build_block_response-Hides :
      (query : DnsMessage) (qtype : QType) (domain : DomainName)
      → Hides (build_block_response parse_ipv4 parse_ipv6 block query qtype domain)
  unfolding build_block_response
  build_block_response-Hides query qtype domain =
      if-elim Hides (qtype_suppressed block qtype) (λ _. soa-Hides (response query) domain)
        (λ _. blackhole_response-Hides domain qtype query)

module _ (open_rules : Text → Option (List (Option Text))) (block : BlockConfig)
    (matcher : BlockMatcher) where
  -- The block list is on, made from the configuration, and one of its rules means the domain.
  pub record IsListed (domain : DomainName) : Type 0 where
    pub enabled : block.enabled ≡ true
    pub no_files : block.rules_files ≡ []
    pub made : matcher ≡ build_block_matcher_from_config open_rules block
    pub named : is_empty (domain_name (name_text domain)) ≡ false
    pub meant :
        AnyOf
          (Meaning (split_labels_reversed (domain_name (name_text domain))))
          (configured_rules block)

  pub is_blocked-IsListed :
      (domain : DomainName)
      → IsListed domain
      → (block.enabled && is_blocked matcher (name_text domain)) ≡ true
  is_blocked-IsListed domain l =
      let made = l.made ∙ configured_matcher open_rules block l.enabled l.no_files in
      let blocked =
        ap (λ m. is_blocked m (name_text domain)) made
        ∙ is_blocked_complete (configured_rules block) (name_text domain) l.named l.meant in
      rw (l.enabled, blocked) refl

module _ (M : EntryMap CacheEntry) (hash : Route → QType → List (List ℕ) → ℕ) (S : StateMap)
    (can_promote : Route → AnswerGeoEvidence → Bool)
    (parse_ipv4 parse_ipv6 : Text → Option (List ℕ))
    (open_rules : Text → Option (List (Option Text))) (p : Pipeline) where
  -- A query for a domain that one of the configured domains, suffixes or patterns means, with no rule
  -- files and no static address for the domain, is answered without error, with no address but
  -- those of the sinkhole, and it leaves the cache and the governance states as they are and sends
  -- nothing to the workers: whatever the upstream servers would answer, and whatever is cached.
  pub resolve-IsListed :
      (out : Surroundings) (query_bytes : List ℕ) (query : DnsMessage) (q : DnsQuestion)
      (st : ResolverState M hash S)
      → from_wire query_bytes ≡ ok query
      → first_question query ≡ some q
      → is_empty (hosts_ips p q.qtype q.qname) ≡ true
      → IsListed open_rules p.block_config p.block_matcher q.qname
      → Hides parse_ipv4 parse_ipv6 p.block_config
          (resolve M hash S can_promote parse_ipv4 parse_ipv6 p out query_bytes st).response
        × ((resolve M hash S can_promote parse_ipv4 parse_ipv6 p out query_bytes st).state ≡ st)
        × ((resolve M hash S can_promote parse_ipv4 parse_ipv6 p out query_bytes st).facts ≡ [])
        × ((resolve M hash S can_promote parse_ipv4 parse_ipv6 p out query_bytes st).tasks ≡ [])
  unfolding resolve on_parsed on_question resolve_question blocks
  resolve-IsListed out query_bytes query q st e f n l =
      rw (e, f, n, is_blocked-IsListed open_rules p.block_config p.block_matcher q.qname l)
        (
          build_block_response-Hides parse_ipv4 parse_ipv6 p.block_config query q.qtype q.qname,
          refl,
          refl,
          refl,
        )
