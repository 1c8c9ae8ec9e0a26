-- ===== src/Tests/Updates.antt =====
-- Concrete updates, signatures and names of objects, and the theorems applied to them.
use xfx1_dns.Tests.{ascii_only, apex, host, host-IsFqdn, one_byte}
use xfx1_dns.Rfc2136.Wire.{
  name_loop, opcode_update, class_in, class_any, type_tsig, WireRr, Message, at_root, after_label,
  parse_name, parse_rr, parse_questions, parse_rrs, strip_tsig, parse_additional, parse_header,
  parse_message, strip_dot,
}
use xfx1_dns.Tests.Stores.{memory_client, memory_store, listing}
use xfx1_dns.Prelude.{
  ℕ, ◌≤◌, ◌≡◌, refl, ap, ◌≢◌, ◌↔◌, inl, inr, false, none, some, List, [], ◌∷◌, ◌++◌, arith, length,
  replicate, All,
}
use xfx1_dns.Rfc2136.Handler.{
  Folding, equal_fold, Handler, delete_cr, delete_each, delete_listed, delete_rrset, add_rr,
  update_of_type, process_update, process_updates, handle_update,
}
use xfx1_dns.Rfc2136.Naming.{
  replace_all, trim_left, sanitize_fqdn, hex, Sha256, rdata_hash, cr_name,
}
use xfx1_dns.Rfc2136.Tsig.{
  TsigRecord, time_loop, other_at, parse_tsig_rdata, encode_tsig_rdata, Hmac, outside_window,
  compute_mac, check_tsig, validate_tsig, response_tsig, sign_response,
}
use xfx1_dns.Rfc2136.Cluster.{Object, has_label}
use xfx1_dns.Rfc2136.Server.{process_message}
use xfx1_dns.Rfc2136.Server.Safe.{process_message-ok}
use xfx1_dns.Rfc2136.Server.Guard.{Admitted, process_message-Admitted}
use xfx1_dns.Rfc2136.Handler.Refine.{updates_spec, process_updates-find}
use xfx1_dns.Rfc2136.Wire.Names.Pointers.{parse_name-pointer}
use xfx1_dns.Rfc2136.Wire.Names.RoundTrip.{parse_name-write}
use xfx1_dns.Rfc2136.Tsig.Accept.{Accepted, validate_tsig_iff}
use xfx1_dns.Rfc2136.Tsig.Respond.{response_mac, sign_response-parse_rr}
use xfx1_dns.Rfc2136.Tsig.RoundTrip.{IsTsig, parse_tsig_rdata-encode_tsig_rdata}
use xfx1_dns.Rfc2136.Naming.Clash.{cr_name-dash}
use xfx1_dns.Rfc2136.Naming.Legal.{
  StartsAlnum, EndsAlnum, IsNameByte, IsHostByte, cr_name-IsNameByte,
}
use xfx1_dns.Rec.Domain.{lower_byte, to_lower, domain_labels, write}
use xfx1_dns.Rec.Parse.{parse_a, parse_rdata}
use xfx1_dns.Rec.Types.{type_text, from_wire}
use xfx1_dns.Rec.Domain.Labels.{render}
use xfx1_dns.Prelude.Bytes.{Bytes, codes, bytes_eq, at, slice, u16_at, u32_at}
use xfx1_dns.Prelude.Result.{ok}

instance abbrev ascii_folding : Folding
ascii_folding = record { fold = bytes_eq }

-- A digest of 32 bytes, and a hash that is the data.
abbrev toy_hmac : Hmac
toy_hmac key s = replicate 32 1

abbrev toy_sha : Sha256
toy_sha s = s

abbrev gateway : Handler
gateway = record { namespace = codes "dns"; zone = apex }

-- A TSIG record with a toy algorithm.
abbrev host_tsig : TsigRecord
host_tsig = record {
  algorithm = host;
  time_signed = 1700000000;
  fudge = 300;
  mac = 1 ∷ 2 ∷ 3 ∷ [];
  orig_id = 7;
  error = 0;
  other_data = [];
}

host_tsig-IsTsig : IsTsig host_tsig
unfolding to_lower lower_byte
host_tsig-IsTsig = record {
  algorithm = host-IsFqdn;
  lower = refl;
  time_signed = omega arith;
  fudge = omega arith;
  mac = omega arith;
  orig_id = omega arith;
  error = omega arith;
  other_data = omega arith;
}

parse_tsig_rdata-encode_tsig_rdata_example :
    parse_tsig_rdata (encode_tsig_rdata host_tsig) ≡ ok host_tsig
parse_tsig_rdata-encode_tsig_rdata_example =
    parse_tsig_rdata-encode_tsig_rdata host_tsig host_tsig-IsTsig

-- A request's TSIG record.
abbrev request_rr : WireRr
request_rr = record {
  name = host;
  rrtype = type_tsig;
  class = class_any;
  ttl = 0;
  rdlength = length (encode_tsig_rdata host_tsig);
  rdata = encode_tsig_rdata host_tsig;
}

-- The header of a response with id 7.
abbrev small_response : Bytes
small_response = 0 ∷ 7 ∷ 168 ∷ 0 ∷ replicate 8 0

abbrev answer_tsig : TsigRecord
answer_tsig = record (response_tsig host_tsig 1700000001 7) {
  mac = response_mac toy_hmac [] 1700000001 small_response host host_tsig 7;
}

sign_response-parse_rr_example :
    (out : Bytes) × (answer : WireRr) × (used : ℕ) × (sign_response toy_hmac [] 1700000001
        small_response request_rr
      ≡ ok out)
    × (parse_rr out 12 ≡ ok (answer, used))
    × (answer.name ≡ host)
    × (parse_tsig_rdata answer.rdata ≡ ok answer_tsig)
sign_response-parse_rr_example =
    sign_response-parse_rr toy_hmac [] 1700000001 (λ text. refl) small_response request_rr host_tsig
      7 parse_tsig_rdata-encode_tsig_rdata_example host_tsig-IsTsig host-IsFqdn (omega arith)
      (omega arith) (unfold u16_at in refl) (omega arith)

-- A message with that record and nothing else.
abbrev signed_message : Message
signed_message = record {
  header = record {
    id = 7;
    qr = false;
    opcode = opcode_update;
    aa = false;
    tc = false;
    rd = false;
    ra = false;
    z = 0;
    rcode = 0;
    qdcount = 0;
    ancount = 0;
    nscount = 0;
    arcount = 1;
  };
  zone = none;
  prerequisites = [];
  updates = [];
  additional = [];
  tsig = some request_rr;
  raw = 0 ∷ 7 ∷ 40 ∷ 0 ∷ replicate 8 0;
}

validate_tsig_iff_example :
    (validate_tsig toy_hmac [] 1700000002 signed_message ≡ ok tt)
    ↔ Accepted toy_hmac [] 1700000002 signed_message
validate_tsig_iff_example = validate_tsig_iff toy_hmac [] 1700000002 signed_message

-- Two bytes are no message.
process_message-ok_example :
    (out : Bytes) × ((process_message memory_client toy_sha toy_hmac gateway [] 0 0
        (1 ∷ 2 ∷ [])
        []).1
      ≡ ok out)
    × (12 ≤ length out)
process_message-ok_example =
    process_message-ok memory_client toy_sha toy_hmac gateway [] 0 0 (1 ∷ 2 ∷ []) []

-- Adds an address of "a.b.", then deletes all addresses of "A.B.".
abbrev add_then_delete : List WireRr
add_then_delete =
    record {
      name = host;
      rrtype = 1;
      class = class_in;
      ttl = 60;
      rdlength = 4;
      rdata = 10 ∷ 0 ∷ 0 ∷ 1 ∷ [];
    }
    ∷ record {
      name = 65 ∷ 46 ∷ 66 ∷ 46 ∷ [];
      rrtype = 1;
      class = class_any;
      ttl = 0;
      rdlength = 0;
      rdata = [];
    }
    ∷ []

add_then_delete_run : process_updates memory_client toy_sha gateway add_then_delete [] ≡ ([], ok tt)
unfolding process_updates process_update update_of_type add_rr cr_name sanitize_fqdn trim_left
    replace_all strip_dot to_lower lower_byte rdata_hash hex parse_rdata parse_a type_text from_wire
    delete_rrset delete_listed delete_each delete_cr listing has_label bytes_eq equal_fold
add_then_delete_run = refl

process_updates-find_example :
    (memory_store (codes "dns")).find []
    ≡ updates_spec memory_client toy_sha gateway add_then_delete
        ((memory_store (codes "dns")).find [])
process_updates-find_example =
    process_updates-find memory_client toy_sha gateway (memory_store (codes "dns")) add_then_delete
      [] [] add_then_delete_run

-- An UPDATE that adds an address of "a.b.", signed under the key "a.b.".
abbrev signed_update : Bytes
signed_update =
    0
    ∷ 7
    ∷ 40
    ∷ 0
    ∷ 0
    ∷ 0
    ∷ 0
    ∷ 0
    ∷ 0
    ∷ 1
    ∷ 0
    ∷ 1
    ∷ 1
    ∷ 97
    ∷ 1
    ∷ 98
    ∷ 0
    ∷ 0
    ∷ 1
    ∷ 0
    ∷ 1
    ∷ 0
    ∷ 0
    ∷ 0
    ∷ 60
    ∷ 0
    ∷ 4
    ∷ 10
    ∷ 0
    ∷ 0
    ∷ 1
    ∷ 1
    ∷ 97
    ∷ 1
    ∷ 98
    ∷ 0
    ∷ 0
    ∷ 250
    ∷ 0
    ∷ 255
    ∷ 0
    ∷ 0
    ∷ 0
    ∷ 0
    ∷ 0
    ∷ 61
    ∷ 11
    ∷ 104
    ∷ 109
    ∷ 97
    ∷ 99
    ∷ 45
    ∷ 115
    ∷ 104
    ∷ 97
    ∷ 50
    ∷ 53
    ∷ 54
    ∷ 0
    ∷ 0
    ∷ 0
    ∷ 0
    ∷ 0
    ∷ 0
    ∷ 9
    ∷ 0
    ∷ 5
    ∷ 0
    ∷ 32
    ∷ (replicate 32 1 ++ (0 ∷ 7 ∷ 0 ∷ 0 ∷ 0 ∷ 0 ∷ []))

signed_update-run :
    length (process_message memory_client toy_sha toy_hmac gateway [] 10 10 signed_update []).0 ≡ 1
unfolding process_message parse_message parse_header parse_questions parse_rrs parse_additional
    parse_rr parse_name name_loop at_root after_label strip_tsig u16_at u32_at at slice
    validate_tsig check_tsig parse_tsig_rdata time_loop other_at outside_window compute_mac to_lower
    lower_byte bytes_eq handle_update process_updates process_update update_of_type add_rr cr_name
    sanitize_fqdn trim_left replace_all strip_dot rdata_hash hex parse_rdata parse_a type_text
    from_wire
signed_update-run = refl

signed_update-changes :
    (process_message memory_client toy_sha toy_hmac gateway [] 10 10 signed_update []).0 ≢ []
signed_update-changes e = absurd (omega (arith, signed_update-run, ap (length {A = Object}) e))

process_message-Admitted_example :
    (msg : Message) × (parse_message signed_update ≡ ok msg)
    × Admitted memory_client toy_sha toy_hmac gateway [] 10 msg
process_message-Admitted_example =
    process_message-Admitted memory_client toy_sha toy_hmac gateway [] 10 10 signed_update []
      signed_update-changes

-- "a.b." written behind one byte.
parse_name-write_example :
    parse_name (9 ∷ 1 ∷ 97 ∷ 1 ∷ 98 ∷ 0 ∷ []) 1 ≡ ok (host, length (write host))
parse_name-write_example =
    parse_name-write (9 ∷ 1 ∷ 97 ∷ 1 ∷ 98 ∷ 0 ∷ []) 1 host [] host-IsFqdn
      (unfold write domain_labels in refl)

-- "b." at 0, then "a" and a pointer to 0: four bytes, of which three are counted.
parse_name-pointer_example :
    parse_name (1 ∷ 98 ∷ 0 ∷ 1 ∷ 97 ∷ 192 ∷ 0 ∷ []) 3 ≡ ok (render ((97 ∷ []) ∷ (98 ∷ []) ∷ []), 3)
parse_name-pointer_example =
    parse_name-pointer (1 ∷ 98 ∷ 0 ∷ 1 ∷ 97 ∷ 192 ∷ 0 ∷ []) 3 192 0 (97 ∷ []) [] ((98 ∷ []) ∷ []) []
      (1 ∷ 97 ∷ 192 ∷ 0 ∷ []) (one_byte 97 (λ e. absurd (omega arith)), tt)
      (one_byte 98 (λ e. absurd (omega arith)), tt) (omega arith) (omega arith) refl refl
      (omega arith)

letter : (c : ℕ) → 97 ≤ c → c ≤ 122 → IsHostByte c
letter c h k = inl (h, k)

-- A digest of 32 zeros.
abbrev zeros : Bytes
zeros =
    0 ∷ 0 ∷ 0 ∷ 0 ∷ 0 ∷ 0 ∷ 0 ∷ 0 ∷ 0 ∷ 0 ∷ 0 ∷ 0 ∷ 0 ∷ 0 ∷ 0 ∷ 0 ∷ 0 ∷ 0 ∷ 0 ∷ 0 ∷ 0 ∷ 0 ∷ 0 ∷ 0
    ∷ 0 ∷ 0 ∷ 0 ∷ 0 ∷ 0 ∷ 0 ∷ 0 ∷ 0 ∷ []

-- "r-a-a-b-00000000"
abbrev named : Bytes
named = 114 ∷ 45 ∷ 97 ∷ 45 ∷ 97 ∷ 45 ∷ 98 ∷ 45 ∷ 48 ∷ 48 ∷ 48 ∷ 48 ∷ 48 ∷ 48 ∷ 48 ∷ 48 ∷ []

-- The name of an object for "a.b.".
cr_name-IsNameByte_example :
    All IsNameByte named × (length named ≤ 253) × StartsAlnum named × EndsAlnum named
cr_name-IsNameByte_example =
    cr_name-IsNameByte (λ s. zeros) (114 ∷ []) (65 ∷ []) host (10 ∷ []) named (λ s. refl)
      (inl (omega arith, omega arith)) (inl (omega arith, omega arith), tt)
      (inr (inl (omega arith, omega arith)), tt)
      (
        letter 97 (omega arith) (omega arith),
        (
          inr (inr (inr (inr (inl refl)))),
          (letter 98 (omega arith) (omega arith), (inr (inr (inr (inr (inl refl)))), tt)),
        ),
      )
      (unfold cr_name to_lower lower_byte sanitize_fqdn replace_all trim_left strip_dot rdata_hash
          hex in
        refl)

-- "a.b." and "a-b.".
cr_name-dash_example :
    cr_name toy_sha (114 ∷ []) (65 ∷ []) (97 ∷ 46 ∷ 98 ∷ 46 ∷ []) []
    ≡ cr_name toy_sha (114 ∷ []) (65 ∷ []) (97 ∷ 45 ∷ 98 ∷ 46 ∷ []) []
cr_name-dash_example =
    cr_name-dash toy_sha (114 ∷ []) (65 ∷ []) (97 ∷ []) (98 ∷ 46 ∷ []) []
      (letter 97 (omega arith) (omega arith), tt)
      (letter 98 (omega arith) (omega arith), (inr (inr (inr (inr (inl refl)))), tt)) (λ e. cc)
