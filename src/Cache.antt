-- ===== src/Cache.antt =====
-- crates/border-dns-cache/src/lib.rs: the route-scoped cache. A point in time is the number of its
-- nanosecond, an argument where the source asks the clock. The calls of one thread are taken one
-- after the other. Sharing by `Arc` is left out, as it changes no value.
pub mod Entries
pub mod Lookup
pub mod Capacity
pub mod Examples
use border_dns.Prelude.{
  ℕ, ◌+◌, ◌-◌, ◌/◌, ◌%◌, min, Bool, Option, none, some, List, [], ◌∷◌, length, set, map, ltb, leb,
  if◌then◌else◌,
}
use border_dns.Types.Codes.{QType}
use border_dns.Types.Route.{Route, fallback}
use border_dns.Protocol.Name.{DomainName, labels}
use border_dns.Protocol.Rr.{ResourceRecord}
use border_dns.Protocol.Message.{DnsMessage, to_wire}
use border_dns.Cache.Entries.{EntryMap}

pub record CachedResponse : Type 0 where
  pub wire : List ℕ
  pub message : DnsMessage

-- `CachedResponse::new`
unfoldable pub response_of : DnsMessage → CachedResponse
response_of message = record { wire = to_wire message; message = message }

unfoldable pub wire_with_id : ℕ → CachedResponse → List ℕ
wire_with_id new_id r = set (set r.wire 0 (new_id / 256 % 256)) 1 (new_id % 256)

pub record CacheEntry : Type 0 where
  pub response : CachedResponse
  pub inserted_at : ℕ
  pub ttl_secs : ℕ

-- The nanoseconds of a second.
abbrev pub second : ℕ
second = 1000000000

unfoldable pub is_expired : ℕ → CacheEntry → Bool
is_expired now entry = leb entry.ttl_secs ((now - entry.inserted_at) / second)

pub record CacheStats : Type 0 where
  pub hits : ℕ
  pub misses : ℕ
  pub evictions : ℕ
  pub entries : ℕ

pub record CacheConfig : Type 0 where
  pub max_entries : ℕ
  pub min_ttl_secs : ℕ
  pub max_ttl_secs : ℕ
  pub negative_ttl_secs : ℕ
  pub enhanced_ttl_secs : ℕ

unfoldable pub with_ttl : ℕ → ResourceRecord → ResourceRecord
with_ttl ttl rr = record rr { ttl = ttl }

-- The lowest TTL of the answers, and zero without answers.
unfoldable pub min_ttl : List ResourceRecord → Option ℕ
min_ttl [] = none
min_ttl (rr ∷ records) = elim (min_ttl records) [
  | none ↦ some rr.ttl
  | some t ↦ some (min rr.ttl t)
]

unfoldable pub extract_min_ttl : DnsMessage → ℕ
extract_min_ttl message = elim (min_ttl message.answers) [ none ↦ 0 | some t ↦ t ]

-- `Ord::clamp`. It panics when the bounds are crossed, which no theorem on the TTL allows.
unfoldable pub clamp_ttl : CacheConfig → ℕ → ℕ
clamp_ttl config ttl =
    if ltb ttl config.min_ttl_secs
    then config.min_ttl_secs
    else if ltb config.max_ttl_secs ttl
    then config.max_ttl_secs
    else ttl

-- One step of the search for the oldest entry: the key found so far and its time.
abbrev pub older_of : ℕ → CacheEntry → Option ℕ × ℕ → Option ℕ × ℕ
older_of key entry (oldest_key, oldest_time) =
    if ltb entry.inserted_at oldest_time
    then (some key, entry.inserted_at)
    else (oldest_key, oldest_time)

unfoldable pub find_oldest : List (ℕ × CacheEntry) → Option ℕ × ℕ → Option ℕ × ℕ
find_oldest [] best = best
find_oldest ((key, entry) ∷ entries) best = find_oldest entries (older_of key entry best)

-- Over the concurrent map and the hash of a key, which the standard library computes from the route,
-- the type and the labels.
module _ (M : EntryMap CacheEntry) (hash : Route → QType → List (List ℕ) → ℕ) where
  pub record RouteScopedCache : Type 0 where
    pub entries : M.Map
    pub hits : ℕ
    pub misses : ℕ
    pub evictions : ℕ
    pub config : CacheConfig

  -- `CacheKey::new`
  abbrev pub cache_key : Route → QType → DomainName → ℕ
  cache_key route qtype name = hash route qtype (labels name)

  unfoldable pub new : CacheConfig → RouteScopedCache
  new config = record { entries = M.empty; hits = 0; misses = 0; evictions = 0; config = config }

  -- The rest of a lookup, on what the map has.
  unfoldable pub serve :
      ℕ → ℕ → Option CacheEntry → RouteScopedCache → Option CachedResponse × RouteScopedCache
  serve now key (some entry) c =
      if is_expired now entry
      then (none, record c { entries = M.remove key c.entries; misses = c.misses + 1 })
      else (some entry.response, record c { hits = c.hits + 1 })
  serve now key none c = (none, record c { misses = c.misses + 1 })

  unfoldable pub get_scoped :
      ℕ → Route → QType → DomainName → RouteScopedCache → Option CachedResponse × RouteScopedCache
  get_scoped now route qtype name c =
      let key = cache_key route qtype name in serve now key (M.get key c.entries) c

  unfoldable pub evict : Option ℕ → RouteScopedCache → RouteScopedCache
  evict (some key) c = record c { entries = M.remove key c.entries; evictions = c.evictions + 1 }
  evict none c = c

  unfoldable pub evict_oldest : ℕ → RouteScopedCache → RouteScopedCache
  evict_oldest now c =
      let (oldest_key, _) = find_oldest (M.iter c.entries) (none, now) in evict oldest_key c

  -- The entry that an insertion stores.
  unfoldable pub stored_entry : ℕ → DnsMessage → ℕ → CacheEntry
  stored_entry now message ttl = record {
    response = response_of (record message { answers = map (with_ttl ttl) message.answers });
    inserted_at = now;
    ttl_secs = ttl;
  }

  unfoldable pub make_room : ℕ → RouteScopedCache → RouteScopedCache
  make_room now c = if leb c.config.max_entries (M.len c.entries) then evict_oldest now c else c

  unfoldable pub insert_scoped_with_ttl :
      ℕ → Route → QType → DomainName → DnsMessage → ℕ → RouteScopedCache → RouteScopedCache
  insert_scoped_with_ttl now route qtype name message ttl c =
      let room = make_room now c in
      record room {
        entries =
            M.insert (cache_key route qtype name)
              (stored_entry now message (clamp_ttl c.config ttl)) room.entries;
      }

  unfoldable pub insert_scoped :
      ℕ → Route → QType → DomainName → DnsMessage → RouteScopedCache → RouteScopedCache
  insert_scoped now route qtype name message c =
      insert_scoped_with_ttl now route qtype name message
        (clamp_ttl c.config (extract_min_ttl message)) c

  unfoldable pub insert_negative_scoped :
      ℕ → Route → QType → DomainName → DnsMessage → RouteScopedCache → RouteScopedCache
  insert_negative_scoped now route qtype name message c = record c {
    entries =
        M.insert (cache_key route qtype name)
          (record {
            response = response_of message;
            inserted_at = now;
            ttl_secs = c.config.negative_ttl_secs;
          })
          c.entries;
  }

  unfoldable pub clear : RouteScopedCache → RouteScopedCache
  clear c = record c { entries = M.empty }

  -- The calls without a route are those of the fallback route.
  unfoldable pub get :
      ℕ → QType → DomainName → RouteScopedCache → Option CachedResponse × RouteScopedCache
  get now qtype name c = get_scoped now fallback qtype name c

  unfoldable pub insert : ℕ → QType → DomainName → DnsMessage → RouteScopedCache → RouteScopedCache
  insert now qtype name message c = insert_scoped now fallback qtype name message c

  unfoldable pub insert_negative :
      ℕ → QType → DomainName → DnsMessage → RouteScopedCache → RouteScopedCache
  insert_negative now qtype name message c =
      insert_negative_scoped now fallback qtype name message c

  unfoldable pub stats : RouteScopedCache → CacheStats
  stats c = record {
    hits = c.hits;
    misses = c.misses;
    evictions = c.evictions;
    entries = M.len c.entries;
  }
