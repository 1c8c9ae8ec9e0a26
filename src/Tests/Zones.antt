-- ===== src/Tests/Zones.antt =====
-- A zone with an address of "a.b." and one of "*.b.".
use xfx1_dns.Prelude.{
  ℕ, ◌≤◌, ◌≡◌, ◌↔◌, refl, true, [], ◌∷◌, none, some, length, All, arith, filter, ap,
}
use xfx1_dns.Prelude.Bytes.{at, slice, u16_at, Bytes, bytes_eq}
use xfx1_dns.Prelude.Result.{ok, Returns}
use xfx1_dns.Rec.Domain.{Domain, to_lower}
use xfx1_dns.Rec.Types.{RRtype, to_wire, type_eq}
use xfx1_dns.Db.{
  new_db, wildcard_walk, blocked, has_below, has_suffix, lookup_by_type, lookup_by_name,
  name_exists, wildcard_lookup, wildcard_of,
}
use xfx1_dns.Db.Index.{index_onto, append_at, lookup_all, has_key}
use xfx1_dns.Db.Lookup.{lookup_by_type-new_db}
use xfx1_dns.Db.Wildcard.{Above, Between, Free, wildcard_lookup_sound, wildcard_lookup_closest}
use xfx1_dns.Slave.Response.{lookup_rrset}
use xfx1_dns.Slave.Response.Records.{ChainHolds}
use xfx1_dns.Slave.Response.Rrset.{Answering, Denied, lookup_rrset-Answering, lookup_rrset_nx}
use xfx1_dns.Slave.Dns.{
  no_info, handle_request, Zone, Handled, handle_dns, serve_udp, handle_tcp_conn, max_udp,
}
use xfx1_dns.Db.Dots.{KeepsDot}
use xfx1_dns.Db.{additional_target}
use xfx1_dns.Rec.Domain.{ends_dot}
use xfx1_dns.Slave.Wire.{parse_opt, no_edns, skip_records, find_opt}
use xfx1_dns.Prelude.{◌⊎◌}
use xfx1_dns.Slave.Dns.Safe.{handle_dns-Returns}
use xfx1_dns.Slave.Response.Dots.{LooksUpDots}
use xfx1_dns.Slave.Dns.Servable.{Known, IsServable, IsServable-new_db}
use xfx1_dns.Slave.Dns.Serve.{serve_udp-Returns, handle_tcp_conn-Returns}
use xfx1_dns.Slave.Dns.Limits.{serve_udp-le, handle_tcp_conn-le}
use xfx1_dns.Dns.Query.Question.{query_message}
use xfx1_dns.Dns.Query.{new_request, scan, id, flags}
use xfx1_dns.Dns.Response.{
  refused_response, build_response, append_section, response_header, response_flags,
  rcode_nx_domain,
}
use xfx1_dns.Tests.{ascii_only, apex, host, star, star_address, zone_records}
use xfx1_dns.Dns.Query.{Request}

abbrev zone : Zone
zone = record { curr_db = some (new_db apex zone_records); nsec3_chain = none }

-- "x.y.b."
abbrev deep : Domain
deep = 120 ∷ 46 ∷ 121 ∷ 46 ∷ 98 ∷ 46 ∷ []

known_records : All Known zone_records
unfolding to_wire
known_records = ((λ e. cc), ((λ e. cc), tt))

zone-IsServable : IsServable zone
unfolding ChainHolds LooksUpDots ends_dot additional_target
zone-IsServable =
    IsServable-new_db apex zone_records none refl known_records (refl, (refl, tt)) (tt, (tt, tt)) tt
      tt tt

ascii_only-KeepsDot : KeepsDot ascii_only
ascii_only-KeepsDot s h = h

handle_dns-Returns_example : Returns (handle_dns zone (query_message 7 256 0 0 0 deep 1 1 []))
handle_dns-Returns_example =
    handle_dns-Returns zone zone-IsServable ascii_only-KeepsDot
      (query_message 7 256 0 0 0 deep 1 1 [])

lookup_by_type-new_db_example :
    lookup_by_type (new_db apex zone_records) host RRtype.a
    ≡ filter
        (λ rr. bytes_eq (to_lower rr.name) (to_lower host))
        (filter (λ rr. type_eq rr.rrtype RRtype.a) zone_records)
lookup_by_type-new_db_example = lookup_by_type-new_db apex zone_records host RRtype.a

deep_match :
    wildcard_lookup (new_db apex zone_records) deep apex RRtype.a ≡ some (star, star_address ∷ [])
unfolding wildcard_lookup wildcard_walk new_db index_onto append_at name_exists has_key blocked
    has_below has_suffix lookup_by_name lookup_all bytes_eq type_eq
deep_match = refl

wildcard_lookup_sound_example :
    (parent : Domain) × (star ≡ wildcard_of parent)
    × Above deep parent
    × (name_exists (new_db apex zone_records) star ≡ true)
    × (star_address ∷ [] ≡ lookup_by_name (new_db apex zone_records) star RRtype.a)
wildcard_lookup_sound_example =
    wildcard_lookup_sound (new_db apex zone_records) deep apex RRtype.a star (star_address ∷ [])
      deep_match

-- "y.b."
abbrev middle : Domain
middle = 121 ∷ 46 ∷ 98 ∷ 46 ∷ []

middle-Between : Between apex deep middle
middle-Between =
    Between.past (λ e. absurd (omega arith))
      (Between.next (λ e. absurd (omega (arith, ap (length {A = ℕ}) e))))

wildcard_lookup_closest_example : Free (new_db apex zone_records) middle
wildcard_lookup_closest_example =
    wildcard_lookup_closest (new_db apex zone_records) deep apex RRtype.a apex (star_address ∷ [])
      middle deep_match middle-Between

lookup_rrset-Answering_example :
    All (Answering deep RRtype.a) (lookup_rrset (new_db apex zone_records) deep RRtype.a).answers
lookup_rrset-Answering_example = lookup_rrset-Answering apex zone_records deep RRtype.a

lookup_rrset_nx_example :
    ((lookup_rrset (new_db apex zone_records) deep RRtype.a).rcode ≡ rcode_nx_domain)
    ↔ Denied (new_db apex zone_records) deep RRtype.a
lookup_rrset_nx_example = lookup_rrset_nx (new_db apex zone_records) deep RRtype.a

-- An UPDATE with an empty name.
abbrev update : Bytes
update = 0 ∷ 1 ∷ 40 ∷ 0 ∷ 0 ∷ 1 ∷ 0 ∷ 0 ∷ 0 ∷ 0 ∷ 0 ∷ 0 ∷ 0 ∷ 0 ∷ 6 ∷ 0 ∷ 1 ∷ []

abbrev refusal : Bytes
refusal = 0 ∷ 1 ∷ 132 ∷ 5 ∷ 0 ∷ 0 ∷ 0 ∷ 0 ∷ 0 ∷ 0 ∷ 0 ∷ 0 ∷ []

abbrev refused : Handled
refused = record {
  request =
      some (record { raw = update; question_end = 17; opcode = 5; qname = 46 ∷ []; qtype = 6 });
  response = some refusal;
  info = no_info;
}

update-refused : handle_dns zone update ≡ ok refused
unfolding handle_dns new_request scan at slice u16_at handle_request id flags refused_response
    build_response append_section response_header response_flags
update-refused = refl

serve_udp-update : serve_udp zone update ≡ ok (some refusal)
unfolding serve_udp max_udp
serve_udp-update = rw update-refused

abbrev update_request : Request
update_request = record { raw = update; question_end = 17; opcode = 5; qname = 46 ∷ []; qtype = 6 }

update-request : new_request update ≡ ok update_request
unfolding new_request scan at slice u16_at
update-request = refl

update-plain : parse_opt update 17 ≡ ok no_edns
unfolding parse_opt at slice u16_at skip_records find_opt
update-plain = refl

serve_udp-le_example : ((length refusal ≤ 512) ⊎ (length refusal ≤ 0)) × (length refusal ≤ 4096)
serve_udp-le_example =
    serve_udp-le zone update update_request no_edns update-plain refusal update-request
      serve_udp-update

abbrev tcp_refusal : Bytes
tcp_refusal = 0 ∷ 12 ∷ refusal

handle_tcp_conn-update : handle_tcp_conn zone (0 ∷ 17 ∷ update) ≡ ok tcp_refusal
unfolding handle_tcp_conn
handle_tcp_conn-update = rw update-refused

handle_tcp_conn-le_example : length tcp_refusal ≤ 8194
handle_tcp_conn-le_example =
    handle_tcp_conn-le zone (0 ∷ 17 ∷ update) tcp_refusal handle_tcp_conn-update

serve_udp-Returns_example : Returns (serve_udp zone (query_message 7 256 0 0 0 deep 1 1 []))
serve_udp-Returns_example =
    serve_udp-Returns zone zone-IsServable ascii_only-KeepsDot
      (query_message 7 256 0 0 0 deep 1 1 [])

handle_tcp_conn-Returns_example : Returns (handle_tcp_conn zone (0 ∷ 17 ∷ update))
handle_tcp_conn-Returns_example =
    handle_tcp_conn-Returns zone zone-IsServable ascii_only-KeepsDot (0 ∷ 17 ∷ update)
