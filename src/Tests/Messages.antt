-- ===== src/Tests/Messages.antt =====
-- Queries, responses and the OPT record.
use xfx1_dns.Prelude.{◌+◌, ◌%◌, ◌≡◌, refl, true, [], ◌∷◌, ◌++◌, none, length, arith}
use xfx1_dns.Prelude.Bytes.{Bytes, IsU16, be16}
use xfx1_dns.Prelude.Result.{Result, ok, fault, panic, Returns}
use xfx1_dns.Rec.Types.{RRtype, to_wire}
use xfx1_dns.Rec.Opts.{RRopts}
use xfx1_dns.Rec.Rr.{Rr}
use xfx1_dns.Dns.Query.{Request, new_request}
use xfx1_dns.Dns.Query.Safe.{IsRequest, new_request-Returns, new_request-IsRequest}
use xfx1_dns.Dns.Query.Question.{query_message, new_request-query_message}
use xfx1_dns.Dns.Response.{build_response, response_flags, opt_record}
use xfx1_dns.Dns.Response.Flags.{qr_of, opcode_of, aa_of, tc_of, rd_of, response_flags_bits}
use xfx1_dns.Dns.Response.Build.{
  AllKnown, message, wire_section, build_response-wire_section, build_response_panics,
  append_opt-message,
}
use xfx1_dns.Slave.Wire.{parse_opt}
use xfx1_dns.Slave.Wire.Opt.{opt_bytes, opt_info, parse_opt-query_message, parse_opt-append_opt}
use xfx1_dns.Tests.{ascii_only, host, host-IsFqdn, host_address}

-- A query for the address of "a.b." with RD set.
abbrev query : Bytes
query = query_message 7 256 0 0 0 host 1 1 []

abbrev request : Request
request = record { raw = query; question_end = 21; opcode = 0; qname = host; qtype = 1 }

new_request-query_message_example : new_request query ≡ ok request
new_request-query_message_example =
    new_request-query_message 7 256 0 0 0 host 1 1 [] (omega arith) (omega arith) host-IsFqdn
      (omega arith)

new_request-IsRequest_example : IsRequest query request
new_request-IsRequest_example =
    new_request-IsRequest query request new_request-query_message_example

-- A header that announces a question, and nothing behind it.
new_request-Returns_example :
    Returns (new_request (0 ∷ 1 ∷ 1 ∷ 0 ∷ 0 ∷ 1 ∷ 0 ∷ 0 ∷ 0 ∷ 0 ∷ 0 ∷ 0 ∷ []))
new_request-Returns_example =
    new_request-Returns (0 ∷ 1 ∷ 1 ∷ 0 ∷ 0 ∷ 1 ∷ 0 ∷ 0 ∷ 0 ∷ 0 ∷ 0 ∷ 0 ∷ [])

-- An UPDATE with RD that gets NXDOMAIN.
response_flags_bits_example :
    let flags = response_flags 0x2900 3 in
    (qr_of flags ≡ 1)
    × (opcode_of flags ≡ 0)
    × (aa_of flags ≡ 1)
    × (tc_of flags ≡ 0)
    × (rd_of flags ≡ rd_of 0x2900)
    × (flags % 16 ≡ 3 % 16)
    × IsU16 flags
response_flags_bits_example = response_flags_bits 0x2900 3 (omega arith) (omega arith)

known_host : AllKnown (host_address ∷ [])
unfolding to_wire
known_host = ((λ e. cc), tt)

build_response-wire_section_example :
    build_response 7 256 none (host_address ∷ []) [] [] 0
    ≡ ok (
        message 7
          (response_flags 256 0)
          0
          1
          0
          0
          (([] ++ wire_section (host_address ∷ [])) ++ wire_section [] ++ wire_section []))
build_response-wire_section_example =
    build_response-wire_section 7 256 none (host_address ∷ []) [] [] 0 known_host tt tt

abbrev strange : Rr
strange = record { name = host; rrtype = RRtype.other (88 ∷ []); ttl = 1; opts = RRopts.txt [] }

build_response_panics_example :
    ◌≡◌ {A = Result _ Bytes}
      (build_response 7 256 none ((host_address ∷ []) ++ (strange ∷ [])) [] [] 0)
      (fault panic)
build_response_panics_example =
    build_response_panics 7 256 none (host_address ∷ []) strange [] [] [] 0 (unfold to_wire in refl)

parse_opt-query_message_example :
    parse_opt
      (query_message 7 256 0 0 1 host 1 1 (opt_bytes 1232 0 0 0x8000 (be16 0)))
      (17 + length host)
    ≡ ok (opt_info 1232 0 0x8000)
parse_opt-query_message_example =
    parse_opt-query_message 7 256 0 host 1 1 1232 0 0 0x8000 (be16 0) (omega arith) host-IsFqdn
      (omega arith) (omega arith) (omega arith)

abbrev with_opt_record : Bytes
with_opt_record = message 7 256 0 0 0 1 (opt_record true 1)

parse_opt-append_opt_example :
    parse_opt with_opt_record (12 + 0)
    ≡ ok (record { present = true; do_bit = true; version = 0; udp_size = 4096 })
parse_opt-append_opt_example =
    parse_opt-append_opt 7 256 0 [] true 1 with_opt_record
      (append_opt-message 7 256 0 0 0 0 [] true 1 (omega arith))
