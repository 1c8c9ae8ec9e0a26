-- ===== src/Slave/Dns/Serve.antt =====
-- `serveUDP` and `handleTCPConn` return on every input if `HandleDNS` does: a response that is too
-- long comes with the request whose header the truncated one copies.
use xfx1_dns.Prelude.{
  ℕ, ◌+◌, ◌*◌, ◌≤◌, ◌≡◌, refl, false, not, ◌&&◌, ◌||◌, [], ◌∷◌, ◌++◌, Option, none, some, length,
  take, ltb, ◌==◌, arith, ◌%◌,
}
use xfx1_dns.Prelude.Bytes.{Bytes, be16, slice, u16_at, u16_at-Returns}
use xfx1_dns.Prelude.Result.{
  Result, ok, err, fault, ◌>>=◌, Returns, Returns-if, Returns-bind, Returns-ok, Ensures, Ensures-if,
  Ensures-bind, Ensures-ok, Ensures-fault,
}
use xfx1_dns.Rec.Domain.{Unicode}
use xfx1_dns.Rec.Types.{RRtype, from_wire}
use xfx1_dns.Dns.Query.{QueryError, Request, new_request, id, flags}
use xfx1_dns.Dns.Query.Safe.{IsRequest, new_request-IsRequest}
use xfx1_dns.Dns.Response.{build_response, refused_response, append_opt, rcode_no_error}
use xfx1_dns.Slave.Wire.{EdnsInfo, parse_opt}
use xfx1_dns.Slave.Dns.{
  Zone, Handled, lift, with_opt, sections_for, compare_names, serve_type, serve_question,
  handle_question, handle_request, handle_dns, no_info, limited, max_udp, serve_udp, tcp_response,
  handle_tcp_conn,
}
use xfx1_dns.Db.Dots.{KeepsDot}
use xfx1_dns.Slave.Dns.Safe.{handle_dns-Returns}
use xfx1_dns.Slave.Dns.Servable.{IsServable, header_room}

-- A response comes with a request that has a whole header.
abbrev HeaderOf : Option Request → Option Bytes → Type 0
HeaderOf req none = Unit
HeaderOf none (some resp) = ⊥
HeaderOf (some req) (some resp) = 12 ≤ length req.raw

abbrev HasHeader : Handled → Type 0
HasHeader h = HeaderOf h.request h.response

module _ ⦃u : Unicode⦄ (zone : Zone) where
  module _ (req : Request) (room : 12 ≤ length req.raw) where
    serve_type-HasHeader :
        (txid query_flags : ℕ) (edns : EdnsInfo) (question : Bytes) (t : RRtype)
        → Ensures HasHeader (serve_type zone req txid query_flags edns question t)
    unfolding serve_type
    serve_type-HasHeader txid query_flags edns question t =
        let s = sections_for zone req.qname t req.qtype edns.do_bit in
        Ensures-if (edns.present && not (edns.version == 0)) _ _
          (λ _.
            Ensures-bind (build_response txid query_flags (some question) [] [] [] rcode_no_error) _
              λ built _. Ensures-bind (append_opt built false 1) _ λ resp _. Ensures-ok _ room)
          λ _. Ensures-bind (compare_names zone req.qname t req.qtype edns.do_bit) _ λ compared _.
            Ensures-bind
              (build_response txid query_flags (some question) s.answers s.additional s.authority
                s.rcode)
              _
              λ built _.
                Ensures-bind (with_opt edns edns.do_bit 0 built) _ λ resp _. Ensures-ok _ room

    serve_question-HasHeader :
        (txid query_flags : ℕ) (edns : EdnsInfo) (question : Bytes) (t : Option RRtype)
        → Ensures HasHeader (serve_question zone req txid query_flags edns question t)
    unfolding serve_question
    serve_question-HasHeader txid query_flags edns question (some t) =
        serve_type-HasHeader txid query_flags edns question t
    serve_question-HasHeader txid query_flags edns question none =
        Ensures-bind (build_response txid query_flags (some question) [] [] [] rcode_no_error) _
          λ built _. Ensures-bind (with_opt edns edns.do_bit 0 built) _ λ resp _. Ensures-ok _ room

    handle_question-HasHeader :
        (msg : Bytes) (txid query_flags : ℕ)
        → Ensures HasHeader (handle_question zone msg req txid query_flags)
    unfolding handle_question
    handle_question-HasHeader msg txid query_flags =
        Ensures-bind (lift (parse_opt msg req.question_end)) _ λ edns _.
          Ensures-bind (slice msg 12 req.question_end) _ λ question _.
            serve_question-HasHeader txid query_flags edns question (from_wire req.qtype)

    handle_request-HasHeader : (msg : Bytes) → Ensures HasHeader (handle_request zone msg req)
    unfolding handle_request
    handle_request-HasHeader msg = Ensures-bind (id req) _ λ txid _.
        Ensures-bind (flags req) _ λ query_flags _.
          Ensures-if (not (req.opcode == 0)) _ _
            (λ _. Ensures-bind (refused_response txid query_flags) _ λ resp _. Ensures-ok _ room)
            λ _.
              Ensures-if (req.qtype == 252 || req.qtype == 251) _ _
                (λ _.
                  Ensures-bind (refused_response txid query_flags) _ λ resp _. Ensures-ok _ room)
                λ _. handle_question-HasHeader msg txid query_flags

    limited-Returns : (limit : ℕ) (resp : Bytes) → Returns (limited limit (some req) resp)
    unfolding id flags
    limited-Returns limit resp =
        Returns-if (ltb limit (length resp)) _ _
          (λ _. Returns-bind (u16_at req.raw 0) _ (u16_at-Returns req.raw 0 (omega arith)) λ txid _.
            Returns-bind (u16_at req.raw 2) _ (u16_at-Returns req.raw 2 (omega arith))
              λ query_flags _. Returns-ok _)
          λ _. Returns-ok _

  parsed-HasHeader :
      (msg : Bytes) (req : Result QueryError Request)
      → ((r : Request) → req ≡ ok r → IsRequest msg r)
      → Ensures HasHeader (elim req [
        | ok req ↦ handle_request zone msg req
        | err e ↦ ok (record { request = none; response = none; info = no_info })
        | fault x ↦ fault x
      ])
  parsed-HasHeader msg (ok req) e =
      handle_request-HasHeader req (header_room msg req (e req refl)) msg
  parsed-HasHeader msg (err x) e = Ensures-ok _ tt
  parsed-HasHeader msg (fault x) e = Ensures-fault x

  handle_dns-HasHeader : (msg : Bytes) → Ensures HasHeader (handle_dns zone msg)
  unfolding handle_dns
  handle_dns-HasHeader msg = parsed-HasHeader msg (new_request msg) (new_request-IsRequest msg)

  fitted-Returns :
      (limit : ℕ) (req : Option Request) (resp : Bytes)
      → HeaderOf req (some resp)
      → Returns (limited limit req resp)
  fitted-Returns limit none resp h = absurd h
  fitted-Returns limit (some req) resp h = limited-Returns req h limit resp

  replied-Returns :
      (limit : ℕ) (req : Option Request) (response : Option Bytes)
      → HeaderOf req response
      → Returns (elim response [
        | none ↦ ok none
        | some resp ↦ limited limit req resp >>= λ out. ok (some out)
      ])
  replied-Returns limit req none h = Returns-ok _
  replied-Returns limit req (some resp) h =
      Returns-bind (limited limit req resp) _ (fitted-Returns limit req resp h)
        λ out _. Returns-ok _

  framed-Returns :
      (req : Option Request) (response : Option Bytes)
      → HeaderOf req response
      → Returns (elim response [
        | none ↦ ok []
        | some resp ↦ limited 8192 req resp >>= λ out. ok (be16 (length out % 65536) ++ out)
      ])
  framed-Returns req none h = Returns-ok _
  framed-Returns req (some resp) h =
      Returns-bind (limited 8192 req resp) _ (fitted-Returns 8192 req resp h) λ out _. Returns-ok _

  module _ (h : IsServable zone) (law : KeepsDot u) where
    pub serve_udp-Returns : (packet : Bytes) → Returns (serve_udp zone packet)
    unfolding serve_udp
    serve_udp-Returns packet =
        Returns-bind (handle_dns zone packet) _ (handle_dns-Returns zone h law packet) λ handled e.
          replied-Returns (max_udp handled.info.udp_size) handled.request handled.response
            ((handle_dns-HasHeader packet).on_ok handled e)

    tcp_response-Returns : (msg : Bytes) → Returns (tcp_response zone msg)
    tcp_response-Returns msg =
        Returns-bind (handle_dns zone msg) _ (handle_dns-Returns zone h law msg) λ handled e.
          framed-Returns handled.request handled.response
            ((handle_dns-HasHeader msg).on_ok handled e)

    pub handle_tcp_conn-Returns : (input : Bytes) → Returns (handle_tcp_conn zone input)
    unfolding handle_tcp_conn
    handle_tcp_conn-Returns [] = Returns-ok _
    handle_tcp_conn-Returns (a ∷ []) = Returns-ok _
    handle_tcp_conn-Returns (a ∷ b ∷ rest) =
        Returns-if (ltb (length rest) (a * 256 + b)) _ _ (λ _. Returns-ok _)
          λ _. tcp_response-Returns (take (a * 256 + b) rest)
