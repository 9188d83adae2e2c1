-- ===== src/Upstream.antt =====
-- crates/border-dns-upstream/src/lib.rs: a query to all upstream servers at once, and the pool of idle
-- connections. The exchange of bytes with a server over the network is a parameter, as is the order in
-- which the tasks finish.
pub mod Race
pub mod Pool
mod Examples
use border_dns.Prelude.{
  ℕ, ◌+◌, ◌-◌, min, not, Bool, true, false, Option, none, some, List, [], ◌∷◌, map, length, ltb,
  leb, if◌then◌else◌,
}
use border_dns.Text.{Text, is_empty}
use border_dns.Types.Error.{Result, ok, err}
use border_dns.Types.Route.{Route, china, foreign, bootstrap, fallback}
use border_dns.Protocol.Message.{DnsMessage, from_wire, to_wire}

pub data UpstreamError : Type 0 where
  all_failed timed_out io invalid_address protocol tls_handshake doh : UpstreamError

-- A `Result` of this crate.
pub data Forwarded {ℓ} (A : Type ℓ) : Type ℓ where
  answered : A → Forwarded A
  failed : UpstreamError → Forwarded A

pub data DnsProtocol : Type 0 where
  udp tcp tls https quic : DnsProtocol

pub record UpstreamServer : Type 0 where
  pub name : Text
  pub transport : DnsProtocol
  pub endpoint : Text
  pub server_name : Option Text
  pub timeout_ms : ℕ

pub record UpstreamGroups : Type 0 where
  pub china : List UpstreamServer
  pub foreign : List UpstreamServer
  pub bootstrap : List UpstreamServer
  pub default : List UpstreamServer

unfoldable pub group_of : UpstreamGroups → Route → List UpstreamServer
group_of u china = u.china
group_of u foreign = u.foreign
group_of u bootstrap = u.bootstrap
group_of u fallback = u.bootstrap

unfoldable pub for_route : UpstreamGroups → Route → List UpstreamServer
for_route u route =
    if not (is_empty (group_of u route))
    then group_of u route
    else if not (is_empty u.bootstrap)
    then u.bootstrap
    else u.default

unfoldable pub default_upstreams : UpstreamGroups → List UpstreamServer
default_upstreams u = if not (is_empty u.default) then u.default else u.bootstrap

unfoldable pub parsed : Forwarded (List ℕ) → Forwarded DnsMessage
parsed (failed e) = failed e
parsed (answered bytes) = elim (from_wire bytes) [
  | ok message ↦ answered message
  | err _ ↦ failed protocol
]

-- The first task to finish with a response wins.
unfoldable pub race : List (Forwarded DnsMessage) → Forwarded DnsMessage
race [] = failed all_failed
race (answered message ∷ results) = answered message
race (failed e ∷ results) = race results

module _ (exchange : UpstreamServer → ℕ → List ℕ → Forwarded (List ℕ)) where
  unfoldable pub over : DnsProtocol → UpstreamServer → ℕ → List ℕ → Forwarded DnsMessage
  over quic server timeout wire = failed protocol
  over _ server timeout wire = parsed (exchange server timeout wire)

  unfoldable pub forward_single : List ℕ → UpstreamServer → ℕ → Forwarded DnsMessage
  forward_single wire server timeout = over server.transport server timeout wire

  -- What each task ends with.
  unfoldable pub results : DnsMessage → List UpstreamServer → ℕ → List (Forwarded DnsMessage)
  results query upstreams default_timeout =
      map (λ server. forward_single (to_wire query) server (min server.timeout_ms default_timeout))
        upstreams

  unfoldable pub forward :
      (List (Forwarded DnsMessage) → List (Forwarded DnsMessage))
      → DnsMessage
      → List UpstreamServer
      → ℕ
      → Forwarded DnsMessage
  forward finish_order query upstreams default_timeout =
      if is_empty upstreams
      then failed all_failed
      else race (finish_order (results query upstreams default_timeout))

-- The idle connections, the one put back last first.
pub record ConnPool (T : Type 0) : Type 0 where
  pub idle : List (ℕ × T)
  pub max_idle : ℕ
  pub idle_timeout : ℕ

module _ {T : Type 0} where
  -- `ConnPool::new`
  abbrev pub empty_pool : ℕ → ℕ → ConnPool T
  empty_pool max_idle idle_timeout = record {
    idle = [];
    max_idle = max_idle;
    idle_timeout = idle_timeout;
  }

  unfoldable pub evict_stale : ℕ → ℕ → List (ℕ × T) → List (ℕ × T)
  evict_stale now idle_timeout [] = []
  evict_stale now idle_timeout ((inserted, conn) ∷ idle) =
      let rest = evict_stale now idle_timeout idle in
      if leb idle_timeout (now - inserted) then rest else (inserted, conn) ∷ idle

  abbrev pub pop : List (ℕ × T) → Option T × List (ℕ × T)
  pop [] = (none, [])
  pop ((inserted, conn) ∷ idle) = (some conn, idle)

  unfoldable pub take_conn : ℕ → ConnPool T → Option T × ConnPool T
  take_conn now pool =
      let (conn, idle) = pop (evict_stale now pool.idle_timeout pool.idle) in
      (conn, record pool { idle = idle })

  unfoldable pub put_conn : ℕ → T → ConnPool T → ConnPool T
  put_conn now conn pool =
      if ltb (length pool.idle) pool.max_idle
      then record pool { idle = (now, conn) ∷ pool.idle }
      else pool
