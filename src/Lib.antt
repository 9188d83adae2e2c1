-- ===== src/Lib.antt =====
-- BorderDNS: a DNS server that routes queries by geography. A query comes in over a transport, is
-- decoded by the wire codec and answered in wire form. The listeners hand it to a handler (static
-- hosts, block list, cache, upstream servers); the pipeline is the path with the routes (hosts, block
-- list, route, governance, cache, upstream, evidence of the answer), which is not yet called by the
-- listeners. The governance of a domain keeps a phase and counters of evidence, which the queries and a
-- periodic task change. This library models the codec, the framing of TCP, both paths of a query with
-- the tables they consult, the governance, the cache and the race of the upstream servers.
--
-- Files and the code they model (paths from the repository's root):
--   Types (Error, Codes): crates/dns-types/src/error.rs, record_type.rs and record_class.rs. A code is
--     a data type with the source's variants; from_u16 and as_u16 carry the name of their type.
--   Protocol/Wire: crates/dns-protocol/src/wire.rs. WireReader is a record; a method is a function
--     that takes the reader and returns the value with the reader after it, or the error. The
--     writer is its buffer. Wire/Laws and Wire/Bounds hold the two ways to reason on a chain of reads:
--     by the bytes ahead (Decodes), and by what holds of any bytes (Safe).
--   Protocol/Header, Protocol/Name, Protocol/Question, Protocol/Rr, Protocol/Message: header.rs,
--     name.rs, question.rs, rr.rs and message.rs of the same crate, a function each: read_name with its
--     compression pointers is labels_loop under read_name_with_depth; DnsMessage::from_wire is
--     from_wire over read_message and read_section.
--   Protocol/TcpFrame: tcp_frame.rs, and in TcpFrame/Connection the loop of handle_tcp_connection in
--     crates/border-dns-runtime/src/server.rs, over the chunks that the socket gives.
--   Governance/State: crates/border-dns-facts/src (schema/enums.rs, thresholds/thresholds.rs,
--     review/governance_state.rs). Governance/Transition:
--     crates/border-dns-route-policy/src/governance_transition.rs. Governance/Maintenance: what
--     crates/border-dns-runtime/src/governance_worker.rs does to an entry at a tick, and what
--     crates/border-dns-pipeline/src/lib.rs stores after a query.
--     Governance/Store is store/governance_store.rs of border-dns-facts, over the map of a third-party
--     package as an interface.
--   Types/Route and Types/Names: crates/dns-types/src/route.rs, and RecordType::as_str.
--   Protocol/Name/Display: the text of a name and from_str, of name.rs.
--   Text: the string functions of the standard library that the source calls, on ASCII text.
--   Block: crates/border-dns-domain-knowledge/src/block_matcher.rs. Glob is label_matches_glob, Trie
--     the nodes with add_pattern's walk (insert) and match_node, Matcher the BlockMatcher. Rules says
--     what a rule means by itself (matches) and how the search reads it (reading); Search, Answer,
--     Blocked and Meaning take the search of the trie to it.
--   Knowledge: domain_knowledge.rs of the same crate, DomainSet and the two classifications. Hosts:
--     hosts_table.rs of the same crate.
--   Geo: crates/border-dns-geoip/src/lib.rs. Policy: crates/border-dns-route-policy/src/lib.rs.
--   Upstream: forward, forward_single and ConnPool of crates/border-dns-upstream/src/lib.rs, with
--     UpstreamGroupConfig::for_route of crates/border-dns-config/src/model.rs.
--   Pipeline: crates/border-dns-pipeline/src/lib.rs. Build makes the tables from the configuration,
--     Blocking the responses that are made on the spot, and Resolve is Pipeline::resolve, a function for
--     each stage, which takes the cache and the store as a state and returns them with the response
--     and what is sent to the workers.
--   Handler: crates/border-dns-runtime/src/handler.rs, handle_dns_query, which the listeners call. Its
--     builders of responses repeat those of the pipeline and are taken from there.
--   Cache: crates/border-dns-cache/src/lib.rs. get_scoped and the insertions take the time, and the map
--     of a third-party package is the interface Cache/Entries, which Cache/Examples/AssocList fills.
--   Prelude: lists over the native numbers, Boolean tests, bitwise or, and what the parts share.
--
-- Conventions. A byte, a 16-bit and a 32-bit number are natural numbers, and where the source casts
-- or shifts, the wrap is written out (`% 2 ^ w`). Inputs are lists of any numbers unless a theorem says
-- more. A `Result` is a data type with the source's errors; text inside an error is kept where the
-- source has a fixed string. A panic of the source on an index out of range has no counterpart: the
-- functions that index are guarded as in the source, but for wire_with_id, which the source calls on
-- the wire form of a message.
--
-- Bounds and fuel. labels_loop runs on fuel: a round takes a byte at least or ends, so the bytes left
-- are enough (Protocol/Name/Termination). Pointers nest at most to
-- the source's own depth, on which read_name_with_depth recurses. txt_loop runs on RDLENGTH for the
-- same reason. The loops of the TCP decoder recurse on the bytes buffered. The other loops are
-- recursions on a list or a count.
--
-- Parameters. The clock is an argument: a point in time, or the hours that have passed. The socket
-- is the list of the chunks it gives. The hash of a cache key and the map of the cache are parameters;
-- of the hash a theorem asks at most that two keys differ. The parsers of addresses, the times and the
-- lines of files, the exchange with an upstream server and the order in which the tasks of a race finish
-- are parameters; of the order a theorem asks that it loses and makes up no task. Whether the score of
-- an answer can promote its domain, which the source computes in floating point, is one too. The
-- lists of names that are built into the source are arguments of the constructor.
--
-- Not modelled: the text of errors, compression on writing, and capacities, which change no result;
-- the memo of the block list's search; the floating-point scores, of a decision and of a domain, the
-- third-party summary of a domain's state and the refined decision, of which the query path makes
-- only a log; the log; sockets, TLS, HTTP, timeouts and tasks; the validation of the configuration; the
-- HTTP acceptor of the sinkhole; the probes, the fact store and the command line.
pub mod Prelude
pub mod Types
pub mod Text
pub mod Block
pub mod Cache
pub mod Governance
pub mod Protocol
pub mod Geo
pub mod Knowledge
pub mod Hosts
pub mod Policy
pub mod Upstream
pub mod Pipeline
pub mod Handler
