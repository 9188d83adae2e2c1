-- ===== src/Upstream/Examples.antt =====
-- The race of two servers, and a pool of one connection.
use border_dns.Prelude.{ℕ, ◌≡◌, ◌⊎◌, none, List, [], ◌∷◌, AnyOf}
use border_dns.Protocol.Message.{DnsMessage, query}
use border_dns.Types.Codes.{qtype_from_u16, qclass_from_u16}
use border_dns.Upstream.{
  UpstreamServer, udp, quic, all_failed, Forwarded, answered, failed, forward,
}
use border_dns.Upstream.Race.{Reorders, Responds, forward-Responds}
use border_dns.Upstream.Pool.{PoolOp, taken, returned}

-- A message of twelve zeros is empty.
abbrev exchange : UpstreamServer → ℕ → List ℕ → Forwarded (List ℕ)
exchange server timeout wire = answered (0 ∷ 0 ∷ 0 ∷ 0 ∷ 0 ∷ 0 ∷ 0 ∷ 0 ∷ 0 ∷ 0 ∷ 0 ∷ 0 ∷ [])

abbrev servers : List UpstreamServer
servers =
    record { name = []; transport = quic; endpoint = []; server_name = none; timeout_ms = 9 }
    ∷ record { name = []; transport = udp; endpoint = []; server_name = none; timeout_ms = 9 }
    ∷ []

abbrev in_turn : List (Forwarded DnsMessage) → List (Forwarded DnsMessage)
in_turn rs = rs

in_turn-Reorders : Reorders in_turn
in_turn-Reorders r rs = (λ h. h, λ h. h)

abbrev message : DnsMessage
message = query 7 (record {
  qname = record { buf = []; ends = [] };
  qtype = qtype_from_u16 1;
  qclass = qclass_from_u16 1;
})

forward-Responds_example :
    ((m : DnsMessage)
      → AnyOf (Responds exchange message 5 m) servers
      → (n : DnsMessage) × (forward exchange in_turn message servers 5 ≡ answered n)
        × AnyOf (Responds exchange message 5 n) servers)
    × ((forward exchange in_turn message servers 5 ≡ failed all_failed)
        ⊎ ((n : DnsMessage) × (forward exchange in_turn message servers 5 ≡ answered n)
            × AnyOf (Responds exchange message 5 n) servers))
forward-Responds_example = forward-Responds exchange message 5 in_turn servers in_turn-Reorders

-- The connections are numbered.
abbrev ops : List (PoolOp ℕ)
ops = returned 0 7 ∷ returned 1 8 ∷ taken 2 ∷ returned 3 9 ∷ []
