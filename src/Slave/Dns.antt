-- ===== src/Slave/Dns.antt =====
-- internal/slave/dns.go: what a query is answered with, over UDP and TCP.
pub mod Servable
pub mod Safe
pub mod Limits
pub mod Serve
use xfx1_dns.Prelude.{
  ℕ, zero, suc, ◌+◌, ◌*◌, ◌/◌, ◌%◌, Bool, true, false, not, ◌&&◌, ◌||◌, List, [], ◌∷◌, ◌++◌,
}
use xfx1_dns.Prelude.{Option, none, some, length, take, ltb, ◌==◌, if◌then◌else◌}
use xfx1_dns.Prelude.Bytes.{Bytes, be16, slice}
use xfx1_dns.Prelude.Result.{Result, ok, err, fault, ◌>>=◌}
use xfx1_dns.Rec.Domain.{Domain, Unicode, NameError, new_domain}
use xfx1_dns.Rec.Types.{RRtype, from_wire}
use xfx1_dns.Rec.Rr.{Rr, WriteError}
use xfx1_dns.Db.{Db}
use xfx1_dns.Dns.Query.{QueryError, Request, new_request, id, flags}
use xfx1_dns.Dns.Response.{
  build_response, refused_response, truncated_response, append_opt, rcode_no_error, rcode_refused,
}
use xfx1_dns.Slave.Wire.{NoError, EdnsInfo, parse_opt}
use xfx1_dns.Slave.Response.{
  Chain, Lookup, Signed, lookup_rrset, append_dnssec, append_negative_authority,
}
use xfx1_dns.Prelude.Result.{Fault, no_error}
use xfx1_dns.Slave.Response.Calls.{run_calls, answer_calls}

-- `rrtype` is the text that goes to the metrics: empty where the code sets none, and the decimal
-- number for a type that is not served.
pub record QueryInfo : Type 0 where
  pub qname : Bytes
  pub rrtype : RRtype
  pub rcode : ℕ
  pub dnssec : Bool
  pub udp_size : ℕ
  pub supported : Bool

abbrev pub no_info : QueryInfo
no_info = record {
  qname = [];
  rrtype = RRtype.other [];
  rcode = 0;
  dnssec = false;
  udp_size = 0;
  supported = false;
}

-- fmt.Sprintf("%d", n) of a uint16: at most five digits.
unfoldable pub decimal : ℕ → ℕ → Bytes → Bytes
decimal zero n digits = digits
decimal (suc fuel) n digits =
    let digits' = (48 + n % 10) ∷ digits in
    let rest = decimal fuel (n / 10) digits' in if ltb n 10 then digits' else rest

abbrev pub numbered : ℕ → RRtype
numbered qtype = RRtype.other (decimal 5 qtype [])

-- The fields of Slave that a query reads under its lock.
pub record Zone : Type 0 where
  pub curr_db : Option Db
  pub nsec3_chain : Option Chain

pub record Handled : Type 0 where
  pub request : Option Request
  pub response : Option Bytes
  pub info : QueryInfo

-- A call that returns no error, or whose error is turned into a panic.
abbrev pub lift {ℓ} : {A : Type ℓ} → Result NoError A → Result WriteError A
lift (ok a) = ok a
lift (err e) = elim e [ ]
lift (fault x) = fault x

-- The records of a response.
pub record Sections : Type 0 where
  pub rcode : ℕ
  pub answers : List Rr
  pub additional : List Rr
  pub authority : List Rr

abbrev pub refused_sections : Sections
refused_sections = record { rcode = rcode_refused; answers = []; additional = []; authority = [] }

-- The largest UDP response for an EDNS payload size.
unfoldable pub max_udp : ℕ → ℕ
max_udp udp_size =
    let size = if ltb 512 udp_size then udp_size else 512 in if ltb 4096 size then 4096 else size

-- A response that is too long is replaced by a truncated one; `req` is not nil where there is
-- a response.
abbrev pub limited : ℕ → Option Request → Bytes → Result WriteError Bytes
limited limit none resp = if ltb limit (length resp) then fault Fault.panic else ok resp
limited limit (some req) resp =
    if ltb limit (length resp)
    then (do txid ← id req; query_flags ← flags req; ok (truncated_response txid query_flags true))
    else ok resp

-- The OPT record is added for a query that has one.
abbrev pub with_opt : EdnsInfo → Bool → ℕ → Bytes → Result WriteError Bytes
with_opt edns do_bit ext_rcode resp =
    if edns.present then append_opt resp do_bit ext_rcode else ok resp

module _ ⦃u : Unicode⦄ where
  -- The lookup in a database for a valid name.
  unfoldable pub answer_sections : Db → Option Chain → Domain → RRtype → ℕ → Bool → Sections
  answer_sections db chain name rrtype qtype do_bit =
      let found = lookup_rrset db name rrtype in
      let signed =
        append_dnssec db chain name found.effective_owner qtype found.rcode found.answers []
          do_bit in
      record {
        rcode = found.rcode;
        answers = signed.answers;
        additional = found.additional;
        authority = append_negative_authority db found.rcode signed.answers signed.authority do_bit;
      }

  -- REFUSED without a database, or for a name that `NewDomain` refuses.
  unfoldable pub sections_for : Zone → Bytes → RRtype → ℕ → Bool → Sections
  sections_for zone qname rrtype qtype do_bit = elim zone.curr_db [
    | none ↦ refused_sections
    | some db ↦ elim (new_domain qname) [
      | ok name ↦ answer_sections db zone.nsec3_chain name rrtype qtype do_bit
      | err e ↦ refused_sections
      | fault x ↦ refused_sections
    ]
  ]

  -- The comparisons of names behind `sections_for`: the calls of `CompareDomain`, which has no error
  -- but may panic.
  unfoldable pub compare_names : Zone → Bytes → RRtype → ℕ → Bool → Result WriteError (Unit {0})
  compare_names zone qname rrtype qtype do_bit = elim zone.curr_db [
    | none ↦ ok tt
    | some db ↦ elim (new_domain qname) [
      | ok name ↦
          no_error (run_calls db (answer_calls db zone.nsec3_chain name rrtype qtype do_bit))
      | err e ↦ ok tt
      | fault x ↦ ok tt
    ]
  ]

  -- The response for a type that is served: BADVERS, or what the lookup gives.
  unfoldable pub serve_type :
      Zone → Request → ℕ → ℕ → EdnsInfo → Bytes → RRtype → Result WriteError Handled
  serve_type zone req txid query_flags edns question rrtype =
      if edns.present && not (edns.version == 0)
      then (do
        built ← build_response txid query_flags (some question) [] [] [] rcode_no_error
        resp ← append_opt built false 1
        ok (record {
          request = some req;
          response = some resp;
          info = record no_info {
            qname = req.qname;
            rrtype = rrtype;
            rcode = 16;
            udp_size = edns.udp_size;
            supported = true;
          };
        }))
      else (do
        compared ← compare_names zone req.qname rrtype req.qtype edns.do_bit
        let s = sections_for zone req.qname rrtype req.qtype edns.do_bit
        built ←
            build_response txid query_flags (some question) s.answers s.additional s.authority
              s.rcode
        resp ← with_opt edns edns.do_bit 0 built
        ok (record {
          request = some req;
          response = some resp;
          info = record {
            qname = req.qname;
            rrtype = rrtype;
            rcode = s.rcode;
            dnssec = edns.do_bit;
            udp_size = edns.udp_size;
            supported = true;
          };
        }))

  -- A type that is not served gets an empty answer.
  unfoldable pub serve_question :
      Zone → Request → ℕ → ℕ → EdnsInfo → Bytes → Option RRtype → Result WriteError Handled
  serve_question zone req txid query_flags edns question none = do
    built ← build_response txid query_flags (some question) [] [] [] rcode_no_error
    resp ← with_opt edns edns.do_bit 0 built
    ok (record {
      request = some req;
      response = some resp;
      info = record no_info {
        qname = req.qname;
        rrtype = numbered req.qtype;
        udp_size = edns.udp_size;
      };
    })
  serve_question zone req txid query_flags edns question (some rrtype) =
      serve_type zone req txid query_flags edns question rrtype

  -- What the code does behind the tests on opcode and transfer types.
  unfoldable pub handle_question : Zone → Bytes → Request → ℕ → ℕ → Result WriteError Handled
  handle_question zone msg req txid query_flags = do
    edns ← lift (parse_opt msg req.question_end)
    question ← slice msg 12 req.question_end
    serve_question zone req txid query_flags edns question (from_wire req.qtype)

  -- The code behind a successful `query.New`: opcodes other than QUERY, then AXFR and IXFR, are
  -- refused.
  unfoldable pub handle_request : Zone → Bytes → Request → Result WriteError Handled
  handle_request zone msg req = do
    txid ← id req
    query_flags ← flags req
    if not (req.opcode == 0)
        then (do
          resp ← refused_response txid query_flags
          ok (record { request = some req; response = some resp; info = no_info }))
        else if req.qtype == 252 || req.qtype == 251
        then (do
          resp ← refused_response txid query_flags
          ok (record {
            request = some req;
            response = some resp;
            info = record no_info {
              qname = req.qname;
              rrtype = numbered req.qtype;
              rcode = rcode_refused;
            };
          }))
        else handle_question zone msg req txid query_flags

  unfoldable pub handle_dns : Zone → Bytes → Result WriteError Handled
  handle_dns zone msg = elim (new_request msg) [
    | ok req ↦ handle_request zone msg req
    | err e ↦ ok (record { request = none; response = none; info = no_info })
    | fault x ↦ fault x
  ]

  -- What the goroutine of `serveUDP` writes back for one packet, if anything.
  unfoldable pub serve_udp : Zone → Bytes → Result WriteError (Option Bytes)
  serve_udp zone packet = do
    handled ← handle_dns zone packet
    elim handled.response [
      | none ↦ ok none
      | some resp ↦ (do
        out ← limited (max_udp handled.info.udp_size) handled.request resp
        ok (some out))
    ]

  abbrev pub tcp_response : Zone → Bytes → Result WriteError Bytes
  tcp_response zone msg = do
    handled ← handle_dns zone msg
    elim handled.response [
      | none ↦ ok []
      | some resp ↦ (do
        out ← limited 8192 handled.request resp
        ok (be16 (length out % 65536) ++ out))
    ]

  -- `handleTCPConn`: from the bytes that arrive before the deadline to the bytes that are written.
  unfoldable pub handle_tcp_conn : Zone → Bytes → Result WriteError Bytes
  handle_tcp_conn zone (a ∷ b ∷ rest) =
      let msg_len = a * 256 + b in
      if ltb (length rest) msg_len then ok [] else tcp_response zone (take msg_len rest)
  handle_tcp_conn zone _ = ok []
