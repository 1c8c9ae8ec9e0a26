-- ===== src/Dns/Response.antt =====
-- internal/dns/response/response.go: building of response messages.
pub mod Flags
pub mod Build
use xfx1_dns.Prelude.{
  ℕ, zero, suc, ◌+◌, ◌/◌, ◌%◌, Bool, true, false, bit_and, bit_or, List, [], ◌∷◌, ◌++◌,
}
use xfx1_dns.Prelude.{Option, none, some, length, ltb, if◌then◌else◌}
use xfx1_dns.Prelude.Bytes.{Bytes, be16, put16, u16_at}
use xfx1_dns.Prelude.Result.{Result, ok, err, fault, panic, ◌>>=◌}
use xfx1_dns.Rec.Domain.{Unicode}
use xfx1_dns.Rec.Rr.{Rr, WriteError, binary_write}

-- FlagQR, FlagAA, FlagTC, FlagRD.
abbrev pub flag_qr : ℕ
flag_qr = 0x8000

abbrev pub flag_aa : ℕ
flag_aa = 0x400

abbrev pub flag_tc : ℕ
flag_tc = 0x200

abbrev pub flag_rd : ℕ
flag_rd = 0x100

-- dnssec.EDNSDOBit
abbrev pub edns_do_bit : ℕ
edns_do_bit = 0x8000

-- RcodeNoError, RcodeServFail, RcodeNXDomain, RcodeRefused.
abbrev pub rcode_no_error : ℕ
rcode_no_error = 0

abbrev pub rcode_serv_fail : ℕ
rcode_serv_fail = 2

abbrev pub rcode_nx_domain : ℕ
rcode_nx_domain = 3

abbrev pub rcode_refused : ℕ
rcode_refused = 5

-- optType and optUDPSize.
abbrev pub opt_type : ℕ
opt_type = 41

abbrev pub opt_udp_size : ℕ
opt_udp_size = 4096

unfoldable pub response_flags : ℕ → ℕ → ℕ
response_flags query_flags rcode =
    bit_or (bit_or (bit_or flag_qr flag_aa) (bit_and query_flags flag_rd)) (bit_and rcode 0xf)

-- The loop over one section; a record that cannot be written panics.
unfoldable pub append_section : ⦃u : Unicode⦄ → Bytes → List Rr → Result WriteError Bytes
append_section buf [] = ok buf
append_section buf (rr ∷ rrs) = elim (binary_write rr) [
  | ok b ↦ append_section (buf ++ b) rrs
  | err e ↦ fault panic
  | fault x ↦ fault x
]

abbrev pub question_count : Option Bytes → ℕ
question_count none = 0
question_count (some q) = 1

abbrev pub question_bytes : Option Bytes → Bytes
question_bytes none = []
question_bytes (some q) = q

-- The header that `BuildResponse` writes; the counts are cut to 16 bits.
unfoldable pub response_header : ℕ → ℕ → Option Bytes → ℕ → ℕ → ℕ → Bytes
response_header txid flags question answers authority additional =
    be16 txid
    ++ (be16 flags
        ++ (be16 (question_count question)
            ++ (be16 (answers % 65536) ++ (be16 (authority % 65536) ++ be16 (additional % 65536)))))

-- A nil question is `none`.
unfoldable pub build_response :
    ⦃u : Unicode⦄ → ℕ → ℕ → Option Bytes → List Rr → List Rr → List Rr → ℕ → Result WriteError Bytes
build_response txid query_flags question answers additional authority rcode =
    let header =
      response_header txid (response_flags query_flags rcode) question (length answers)
        (length authority) (length additional) in
    do
      with_answers ← append_section (header ++ question_bytes question) answers
      with_authority ← append_section with_answers authority
      append_section with_authority additional

unfoldable pub refused_response : ⦃u : Unicode⦄ → ℕ → ℕ → Result WriteError Bytes
refused_response txid query_flags = build_response txid query_flags none [] [] [] rcode_refused

unfoldable pub servfail_response : ⦃u : Unicode⦄ → ℕ → ℕ → Result WriteError Bytes
servfail_response txid query_flags = build_response txid query_flags none [] [] [] rcode_serv_fail

unfoldable pub truncated_flags : ℕ → Bool → ℕ
truncated_flags query_flags aa =
    let flags = bit_or (bit_or flag_qr flag_tc) (bit_and query_flags flag_rd) in
    if aa then bit_or flags flag_aa else flags

unfoldable pub truncated_response : ℕ → ℕ → Bool → Bytes
unfolding truncated_flags
truncated_response txid query_flags aa =
    be16 txid ++ (be16 (truncated_flags query_flags aa) ++ (0 ∷ 0 ∷ 0 ∷ 0 ∷ 0 ∷ 0 ∷ 0 ∷ 0 ∷ []))

-- The eleven bytes of the OPT record.
unfoldable pub opt_record : Bool → ℕ → Bytes
opt_record do_bit ext_rcode_high =
    0
    ∷ (be16 opt_type
        ++ (be16 opt_udp_size
            ++ (ext_rcode_high ∷ 0 ∷ (be16 (if do_bit then edns_do_bit else 0) ++ be16 0))))

abbrev add_opt : Bytes → Bool → ℕ → ℕ → Bytes
add_opt msg do_bit ext_rcode_high arcount =
    put16 msg 10 ((arcount + 1) % 65536) ++ opt_record do_bit ext_rcode_high

unfoldable pub append_opt : Bytes → Bool → ℕ → Result WriteError Bytes
unfolding opt_record
append_opt msg do_bit ext_rcode_high =
    if ltb (length msg) 12
    then ok msg
    else do arcount ← u16_at msg 10; ok (add_opt msg do_bit ext_rcode_high arcount)
