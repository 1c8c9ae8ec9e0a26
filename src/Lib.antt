-- ===== src/Lib.antt =====
-- An authoritative DNS server: names and records, the query parser, the response builder, the zone
-- database and its checks, the slave that serves it, the gateway for dynamic updates, and the rate
-- limiter.
--
-- A slave process holds one zone database and, for a signed zone, an NSEC3 chain. A packet goes
-- through `handleDNS`: `query.New` parses the question, `parseOPT` the EDNS record, `lookupRRset`
-- finds the records in the database, `appendDNSSEC` and `appendNegativeAuthority` add signatures,
-- proofs of denial and the SOA record, and `response.BuildResponse` with `AppendOPT` makes the
-- message, which `serveUDP` and `handleTCPConn` cut to their limits.
--
-- A zone is a set of objects in a Kubernetes cluster. The gateway (internal/rfc2136) changes it: an
-- UPDATE message is parsed, its TSIG signature is checked, each of its records becomes a call of the
-- Kubernetes client, and the response is signed. The master builds a database from the objects and
-- runs `SanityChecks` before it hands the database to the slaves. The router asks the rate limiter
-- before it forwards a query.
--
-- Rec/Domain: internal/rec/domain.go. `new_domain`, `validate_fqdn`, `write`, `compare_domain`;
--   a name is its bytes. strings.ToLower is written out on ASCII text; on other text it is the
--   parameter `Unicode.lower`; that it keeps a final dot is the hypothesis `KeepsDot` where it
--   matters. `compare_domain` panics where the code does. `same_domain` is the outcome of the
--   test `CompareDomain(a, b) == 0`.
-- Rec/Types, Rec/Opts, Rec/Rr: rrtype.go, rrttl.go, rropts.go and rr.go of internal/rec. The two
--   tables of types, the data of each record type with its payload, and `binary_write`.
-- Rec/Parse: internal/rec/parse.go. `parse_rdata` and `parse_dns_name`.
-- Dns/Query: internal/dns/query/query.go. `new_request` is `New`, its loop over labels is `scan`.
-- Dns/Response: internal/dns/response/response.go, each function under its own name.
-- Db: internal/db/db.go. The two indexes are association lists in the order of first insertion
--   (Db/Index); `wildcard_walk` and `blocked` are the two loops of `WildcardLookup`. A call of
--   LookupByType is two definitions: `compare_owners` has its comparisons, any of which may panic,
--   and `lookup_by_type` its result.
-- Db/Sanity: internal/db/sanity.go. The nine checks in their order, one function each; the loop over
--   `depth` is `follow`, with the number of records as its bound, as in the code. A type assertion
--   on the data of a record panics on data of another type, a comparison of names (`compared`,
--   `looked_up`) where `CompareDomain` does.
-- Slave/Wire: internal/slave/wire.go. `parse_opt` with its loops `skip_records` and `find_opt`.
-- Slave/Response: internal/slave/response.go. `lookup_rrset` with its steps `lookup_absent`,
--   `wildcard_answer` and `expand_wildcard`, then `append_dnssec` and `append_negative_authority`.
--   The chain is a record: the function from name, zone and database to a proof or a failure, and
--   the names that it looks up; `served_chain` of Dnssec/Lookups is the one of
--   `closest_encloser_proof`.
-- Slave/Response/Calls: the calls of LookupByType behind one answer, in order; `run_calls` makes their
--   comparisons, and `compare_names` of Slave/Dns runs them where the handler looks records up.
-- Dnssec: HashName of internal/dnssec/nsec3.go and nsec3proof.go. SHA-1 and base32 are the parameter
--   `Hashing`. `find_covering` is `findCovering`, `closest_encloser_proof` is `ClosestEncloserProof`
--   with its search `find_encloser`; an error is `none`.
-- Dnssec/Chain: BuildNSEC3Chain of internal/dnssec/nsec3chain.go. `build_nsec3_chain` sorts the hashes
--   of the names (`sort_hashes`) and links each record to the next (`link_records`). The code takes
--   the names in the order of a map; the model takes them in the order of the name index.
-- Slave/Dns: internal/slave/dns.go. `handle_dns` in the order of its early returns
--   (`handle_request`, `handle_question`, `serve_question`, `serve_type`), `serve_udp`,
--   `handle_tcp_conn`. Both see one database and one chain, since the code reads them once under
--   its lock.
-- Rfc2136/Wire, Rfc2136/Tsig: wire.go and tsig.go of internal/rfc2136, each function under its own
--   name. HMAC-SHA256 is the parameter `Hmac`; where its length matters, that it gives 32 bytes is a
--   hypothesis. Times are seconds.
-- Rfc2136/Naming: naming.go. `cr_name` is `CRName`; SHA-256 is the parameter `Sha256`.
-- Rfc2136/Cluster: what the gateway uses of internal/k8s. `Client` has the calls ApplyOrUpdate,
--   Delete and QueryApi on a state of the cluster that the model does not look into; a step (`Run`)
--   goes from a state to a state and a result. `Store` states what the API server promises: the
--   cluster is a map from names to objects. Tests/Stores has a list of objects that keeps it.
-- Rfc2136/Handler: handler.go and operations.go. `handle_update`, `process_update` and the four
--   operations. strings.EqualFold is written out on ASCII text and the parameter `Folding` elsewhere.
-- Rfc2136/Server: server.go. `process_message` is `processMessage`; the clock is read as `now` for the
--   check of a signature and as `later` for the answer.
-- Ratelimit: internal/ratelimit. `check_at` is `checkAt`, `allow_at` is `allowAt`; the map of
--   buckets is an association list, float64 is the parameter `Floats`, of which nothing is
--   assumed, times are nanoseconds. The comparison with three quarters of MaxBuckets is exact in
--   float64 up to 2 ^ 51 and is written in whole numbers. sort.Slice is an insertion sort;
--   buckets of the same age may be taken in any order by the code.
-- Prelude: lists, bytes, and the results of calls. A call returns a value, an error, or a fault:
--   `panic` is a run-time panic of Go, `stuck` says that a loop of the model had no fuel left.
--
-- Fuel. The loops over bytes (`scan`, `skip_loop`, `name_loop`, `txt_loop`) get one round for each
-- byte and one more, and each round takes a byte; the chunks of a TXT payload and the windows of a
-- type bitmap get one round for each byte or type. The loop of `parseName` follows each of the 16384
-- targets of a pointer once at most and takes a byte between two pointers: its fuel `name_fuel` is
-- 16384 times one more than the bytes, and the bytes, and one. The loops over records count
-- down the header's counts and need none.
--
-- Integers. Bytes and words are natural numbers; `be16` and `be32` cut to the width, and so do the
-- counts of a header and the lengths that the code casts to a byte. Positions are Go ints of 64
-- bits, which no message length reaches.
--
-- Not modelled: the JSON form of names, records and databases; sockets, deadlines, metrics and log lines; pushes, polling and snapshots of the
-- slave (internal/slave/sync.go, snapshot.go); the rebuilding of the NSEC3 chain and signing
-- (internal/dnssec, internal/crypto); the listeners and the key of the gateway (the rest of
-- internal/rfc2136/server.go); internal/router, internal/master, internal/k8s, internal/crd and
-- internal/watch.
pub mod Prelude
pub mod Rec
pub mod Dns
pub mod Db
pub mod Slave
pub mod Dnssec
pub mod Rfc2136
pub mod Ratelimit
pub mod Tests
