-- ===== src/Pipeline/Build.antt =====
-- The tables that a pipeline is made with.
use border_dns.Prelude.{ℕ, Bool, Option, none, some, List, [], ◌∷◌, map, if◌then◌else◌}
use border_dns.Text.{Text}
use border_dns.Types.Route.{ResolverLocation}
use border_dns.Geo.{IpAddr}
use border_dns.Hosts.{HostsTable, empty_table, with_entry, with_file}
use border_dns.Hosts
use border_dns.Block.Matcher.{
  BlockMatcher, no_rules, batch_add, suffix_pattern, load_rules_from_reader,
}
use border_dns.Knowledge.{BuiltInDomainKnowledge}
use border_dns.Governance.State.{GovernanceThresholds}
use border_dns.Upstream.{UpstreamGroups}

-- The map of entries is the list of its pairs.
pub record HostsConfig : Type 0 where
  pub enabled : Bool
  pub entries : List (Text × List Text)
  pub files : List Text
  pub ttl_secs : ℕ

pub record BlockConfig : Type 0 where
  pub enabled : Bool
  pub domains : List Text
  pub suffixes : List Text
  pub patterns : List Text
  pub rules_files : List Text
  pub blackhole_ipv4 : Text
  pub blackhole_ipv6 : Text
  pub suppress_qtypes : List Text

-- Of the configuration what the path of a query reads, and the tables.
pub record Pipeline : Type 0 where
  pub hosts_config : HostsConfig
  pub block_config : BlockConfig
  pub location : ResolverLocation
  pub upstreams : UpstreamGroups
  pub default_timeout_ms : ℕ
  pub enhanced_ttl_secs : ℕ
  pub thresholds : GovernanceThresholds
  pub knowledge : BuiltInDomainKnowledge
  pub hosts : HostsTable
  pub block_matcher : BlockMatcher

module _ (parse_ip : Text → Option IpAddr) where
  unfoldable pub with_entries : Text → List Text → HostsTable → HostsTable
  with_entries domain [] builder = builder
  with_entries domain (ip_str ∷ ips) builder =
      with_entries domain ips (with_entry parse_ip domain ip_str builder)

  unfoldable pub with_all_entries : List (Text × List Text) → HostsTable → HostsTable
  with_all_entries [] builder = builder
  with_all_entries ((domain, ips) ∷ entries) builder =
      with_all_entries entries (with_entries domain ips builder)

  unfoldable pub with_files : List Text → HostsTable → HostsTable
  with_files [] builder = builder
  with_files (file_path ∷ files) builder = with_files files (with_file file_path builder)

  unfoldable pub build_hosts_from_config :
      (Text → Option ℕ) → (Text → Option (List Text)) → HostsConfig → HostsTable
  build_hosts_from_config modified read_lines hosts_config =
      let builder =
        with_files hosts_config.files (with_all_entries hosts_config.entries empty_table) in
      if hosts_config.enabled then Hosts.build parse_ip modified read_lines builder else empty_table

-- The lines of each file that can be opened.
module _ (open_rules : Text → Option (List (Option Text))) where
  unfoldable pub load_rules_from_file : Option (List (Option Text)) → BlockMatcher → BlockMatcher
  load_rules_from_file none matcher = matcher
  load_rules_from_file (some lines) matcher = (load_rules_from_reader lines (matcher, 0)).0

  unfoldable pub load_files : List Text → BlockMatcher → BlockMatcher
  load_files [] matcher = matcher
  load_files (path_str ∷ files) matcher =
      load_files files (load_rules_from_file (open_rules path_str) matcher)

  unfoldable pub build_block_matcher_from_config : BlockConfig → BlockMatcher
  build_block_matcher_from_config block_config =
      let matcher = batch_add block_config.domains no_rules in
      let matcher = batch_add (map suffix_pattern block_config.suffixes) matcher in
      let matcher = batch_add block_config.patterns matcher in
      if block_config.enabled then load_files block_config.rules_files matcher else no_rules
