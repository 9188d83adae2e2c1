-- ===== src/Cache/Examples.antt =====
-- The cache over an association list, and its theorems at a small cache.
pub mod AssocList
use border_dns.Prelude.{
  ℕ, zero, suc, ◌+◌, ◌≤◌, ◌<◌, ◌≡◌, ◌≢◌, ◌⊎◌, refl, Bool, true, false, Option, none, List, [], ◌∷◌,
  length, All, arith,
}
use border_dns.Types.Codes.{QType, qtype_from_u16, qclass_from_u16, qtype_as_u16}
use border_dns.Types.Route.{Route, china, foreign, bootstrap, fallback}
use border_dns.Protocol.Name.{DomainName, labels}
use border_dns.Protocol.Question.{DnsQuestion}
use border_dns.Protocol.Message.{DnsMessage, query}
use border_dns.Cache.{
  CacheEntry, CacheConfig, RouteScopedCache, CachedResponse, new, get_scoped,
  insert_scoped_with_ttl, insert_negative_scoped, response_of,
}
use border_dns.Cache.Lookup.{insert_negative_scoped_isolated, insert_scoped_with_ttl_isolated}
use border_dns.Cache.Capacity.{insert_scoped_with_ttl-len}
use border_dns.Cache.Examples.AssocList.{assoc_list}

-- A hash that tells the routes apart.
abbrev route_hash : Route → QType → List (List ℕ) → ℕ
route_hash china qtype labels = 1
route_hash foreign qtype labels = 2
route_hash bootstrap qtype labels = 3
route_hash fallback qtype labels = 4

abbrev config : CacheConfig
config = record {
  max_entries = 1;
  min_ttl_secs = 5;
  max_ttl_secs = 86400;
  negative_ttl_secs = 30;
  enhanced_ttl_secs = 3600;
}

abbrev name : DomainName
name = record { buf = 97 ∷ 98 ∷ []; ends = 1 ∷ 2 ∷ [] }

abbrev message : DnsMessage
message = query 7 (record { qname = name; qtype = qtype_from_u16 1; qclass = qclass_from_u16 1 })

abbrev empty_cache : RouteScopedCache (assoc_list CacheEntry) route_hash
empty_cache = record { entries = []; hits = 0; misses = 0; evictions = 0; config = config }

abbrev one_entry : RouteScopedCache (assoc_list CacheEntry) route_hash
one_entry = record empty_cache {
  entries = (2, record { response = response_of message; inserted_at = 4; ttl_secs = 5 }) ∷ [];
}

routes_differ : ◌≢◌ {A = ℕ} 2 1
routes_differ h = omega arith

insert_scoped_with_ttl-len_example :
    length
      (insert_scoped_with_ttl
        (assoc_list CacheEntry)
        route_hash
        9
        china
        (qtype_from_u16 1)
        name
        message
        300
        one_entry).entries
    ≤ 1
insert_scoped_with_ttl-len_example =
    insert_scoped_with_ttl-len (assoc_list CacheEntry) route_hash 9 china (qtype_from_u16 1) name
      message 300 one_entry (omega arith, tt) (omega arith) (omega arith)

insert_scoped_with_ttl_isolated_example :
    ((get_scoped (assoc_list CacheEntry) route_hash 9 foreign (qtype_from_u16 1) name (
        insert_scoped_with_ttl
          (assoc_list CacheEntry)
          route_hash
          8
          china
          (qtype_from_u16 1)
          name
          message
          300
          one_entry)).0
      ≡ (get_scoped
          (assoc_list CacheEntry)
          route_hash
          9
          foreign
          (qtype_from_u16 1)
          name
          one_entry).0)
    ⊎ ((get_scoped (assoc_list CacheEntry) route_hash 9 foreign (qtype_from_u16 1) name (
          insert_scoped_with_ttl
            (assoc_list CacheEntry)
            route_hash
            8
            china
            (qtype_from_u16 1)
            name
            message
            300
            one_entry)).0
        ≡ none)
insert_scoped_with_ttl_isolated_example =
    insert_scoped_with_ttl_isolated (assoc_list CacheEntry) route_hash 8 9 china foreign
      (qtype_from_u16 1) (qtype_from_u16 1) name name message 300 one_entry routes_differ
