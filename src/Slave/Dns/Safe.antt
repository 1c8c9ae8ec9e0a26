-- ===== src/Slave/Dns/Safe.antt =====
-- `HandleDNS` returns on every message if the records it may send have types with a wire value.
use xfx1_dns.Prelude.{
  ℕ, ◌≡◌, refl, Bool, false, not, ◌&&◌, ◌||◌, [], Option, none, some, ◌==◌, arith, Option-cases,
  inl, inr,
}
use xfx1_dns.Prelude.Bytes.{Bytes, slice, slice-Returns, u16_at, u16_at-Returns}
use xfx1_dns.Prelude.Result.{
  Result, ok, err, fault, Returns, Returns-if, Returns-bind, Returns-ok, no_error, no_error-Returns,
}
use xfx1_dns.Rec.Domain.{Domain, Unicode, new_domain, NameError}
use xfx1_dns.Rec.Types.{RRtype, from_wire}
use xfx1_dns.Rec.Rr.{WriteError}
use xfx1_dns.Db.{Db}
use xfx1_dns.Dns.Query.{QueryError, Request, new_request, id, flags}
use xfx1_dns.Dns.Query.Safe.{new_request-Returns, new_request-IsRequest, IsRequest}
use xfx1_dns.Dns.Response.{build_response, refused_response, append_opt, rcode_no_error}
use xfx1_dns.Slave.Wire.{EdnsInfo, parse_opt}
use xfx1_dns.Slave.Wire.Safe.{parse_opt-Returns}
use xfx1_dns.Slave.Response.Calls.{run_calls, answer_calls}
use xfx1_dns.Db.Dots.{Dotted, KeepsDot}
use xfx1_dns.Slave.Response.Dots.{HasDots, answer_calls-Returns}
use xfx1_dns.Slave.Response.Known.{Holds}
use xfx1_dns.Slave.Dns.{
  Zone, Sections, lift, with_opt, refused_sections, answer_sections, sections_for, compare_names,
  handle_question, handle_request, handle_dns, serve_type, serve_question, no_info,
}
use xfx1_dns.Slave.Dns.Servable.{
  Known, Known-rename, IsServable, new_domain-Dotted, lift-Returns, append_opt-Returns,
  with_opt-Returns, header_room, AllSections, build_response-Returns, refused_response-Returns,
  answer_sections-AllSections, refused-AllSections,
}

module _ ⦃u : Unicode⦄ where
  module _ (zone : Zone) (h : IsServable zone) (law : KeepsDot u) where
    named-compared :
        (db : Db) (t : RRtype) (qtype : ℕ) (do_bit : Bool) (name : Result NameError Domain)
        → ((d : Domain) → name ≡ ok d → Dotted d)
        → HasDots db
        → Returns {E = WriteError} (elim name [
          | ok d ↦ no_error (run_calls db (answer_calls db zone.nsec3_chain d t qtype do_bit))
          | err e ↦ ok tt
          | fault x ↦ ok tt
        ])
    named-compared db t qtype do_bit (ok d) k dots = no_error-Returns _ (
        answer_calls-Returns law db dots d (k d refl) zone.nsec3_chain t qtype do_bit h.chain_dots
          h.chain_lookups)
    named-compared db t qtype do_bit (err e) k dots = Returns-ok tt
    named-compared db t qtype do_bit (fault x) k dots = Returns-ok tt

    compare_names-Returns :
        (qname : Bytes) (t : RRtype) (qtype : ℕ) (do_bit : Bool)
        → Returns (compare_names zone qname t qtype do_bit)
    unfolding compare_names
    compare_names-Returns qname t qtype do_bit = elim (Option-cases zone.curr_db) [
      | inl e ↦ rw e (Returns-ok tt)
      | inr (db, e) ↦ rw e (
          named-compared db t qtype do_bit (new_domain qname) (new_domain-Dotted qname)
            (h.dots db e))
    ]

    named-AllSections :
        (db : Db) (t : RRtype) (qtype : ℕ) (do_bit : Bool) (name : Result NameError Domain)
        → Holds Known Known-rename db
        → AllSections (elim name [
          | ok n ↦ answer_sections db zone.nsec3_chain n t qtype do_bit
          | err e ↦ refused_sections
          | fault x ↦ refused_sections
        ])
    named-AllSections db t qtype do_bit (ok name) k =
        answer_sections-AllSections db zone.nsec3_chain name t qtype do_bit k h.chain
    named-AllSections db t qtype do_bit (err e) k = refused-AllSections
    named-AllSections db t qtype do_bit (fault x) k = refused-AllSections

    sections_for-AllSections :
        (qname : Bytes) (t : RRtype) (qtype : ℕ) (do_bit : Bool)
        → AllSections (sections_for zone qname t qtype do_bit)
    unfolding sections_for
    sections_for-AllSections qname t qtype do_bit = elim (Option-cases zone.curr_db) [
      | inl e ↦ rw e refused-AllSections
      | inr (db, e) ↦
          rw e (named-AllSections db t qtype do_bit (new_domain qname) (h.database db e))
    ]

    build_sections-Returns :
        (txid query_flags : ℕ) (question : Option Bytes) (s : Sections)
        → AllSections s
        → Returns
            (build_response txid query_flags question s.answers s.additional s.authority s.rcode)
    build_sections-Returns txid query_flags question s k =
        build_response-Returns txid query_flags question s.answers s.additional s.authority s.rcode
          k.answers k.additional k.authority

    served-Returns :
        (req : Request) (txid query_flags : ℕ) (edns : EdnsInfo) (question : Bytes) (t : RRtype)
        → Returns (serve_type zone req txid query_flags edns question t)
    unfolding serve_type
    served-Returns req txid query_flags edns question t =
        Returns-if (edns.present && not (edns.version == 0)) _ _
          (λ _.
            Returns-bind (build_response txid query_flags (some question) [] [] [] rcode_no_error) _
              (build_response-Returns txid query_flags (some question) [] [] [] rcode_no_error tt tt
                tt)
              λ built _.
                Returns-bind (append_opt built false 1) _ (append_opt-Returns built false 1)
                  λ resp _. Returns-ok _)
          λ _.
            let s = sections_for zone req.qname t req.qtype edns.do_bit in
            Returns-bind (compare_names zone req.qname t req.qtype edns.do_bit) _
              (compare_names-Returns req.qname t req.qtype edns.do_bit)
              λ compared _.
                Returns-bind
                  (build_response txid query_flags (some question) s.answers s.additional
                    s.authority s.rcode)
                  _
                  (build_sections-Returns txid query_flags (some question) s
                    (sections_for-AllSections req.qname t req.qtype edns.do_bit))
                  λ built _.
                    Returns-bind (with_opt edns edns.do_bit 0 built) _
                      (with_opt-Returns edns edns.do_bit 0 built) λ resp _. Returns-ok _

    typed-Returns :
        (req : Request) (txid query_flags : ℕ) (edns : EdnsInfo) (question : Bytes)
        (t : Option RRtype)
        → Returns (serve_question zone req txid query_flags edns question t)
    unfolding serve_question
    typed-Returns req txid query_flags edns question (some t) =
        served-Returns req txid query_flags edns question t
    typed-Returns req txid query_flags edns question none =
        Returns-bind (build_response txid query_flags (some question) [] [] [] rcode_no_error) _
          (build_response-Returns txid query_flags (some question) [] [] [] rcode_no_error tt tt tt)
          λ built _.
            Returns-bind (with_opt edns edns.do_bit 0 built) _
              (with_opt-Returns edns edns.do_bit 0 built) λ resp _. Returns-ok _

    handle_question-Returns :
        (msg : Bytes) (req : Request) (txid query_flags : ℕ)
        → IsRequest msg req
        → Returns (handle_question zone msg req txid query_flags)
    unfolding handle_question
    handle_question-Returns msg req txid query_flags r =
        Returns-bind (lift (parse_opt msg req.question_end)) _
          (lift-Returns _ (parse_opt-Returns msg req.question_end))
          λ edns _.
            Returns-bind (slice msg 12 req.question_end) _
              (slice-Returns msg 12 req.question_end (omega (arith, r.starts)) r.ends)
              λ question _. typed-Returns req txid query_flags edns question (from_wire req.qtype)

    handle_request-Returns :
        (msg : Bytes) (req : Request) → IsRequest msg req → Returns (handle_request zone msg req)
    unfolding handle_request id flags
    handle_request-Returns msg req r =
        let room = header_room msg req r in
        Returns-bind (u16_at req.raw 0) _ (u16_at-Returns req.raw 0 (omega arith)) λ txid _.
          Returns-bind (u16_at req.raw 2) _ (u16_at-Returns req.raw 2 (omega arith))
            λ query_flags _.
              Returns-if (not (req.opcode == 0)) _ _
                (λ _.
                  Returns-bind (refused_response txid query_flags) _
                    (refused_response-Returns txid query_flags) λ resp _. Returns-ok _)
                λ _.
                  Returns-if (req.qtype == 252 || req.qtype == 251) _ _
                    (λ _.
                      Returns-bind (refused_response txid query_flags) _
                        (refused_response-Returns txid query_flags) λ resp _. Returns-ok _)
                    λ _. handle_question-Returns msg req txid query_flags r

    parsed-Returns :
        (msg : Bytes) (req : Result QueryError Request)
        → Returns req
        → ((r : Request) → req ≡ ok r → IsRequest msg r)
        → Returns (elim req [
          | ok req ↦ handle_request zone msg req
          | err e ↦ ok (record { request = none; response = none; info = no_info })
          | fault x ↦ fault x
        ])
    parsed-Returns msg (ok req) k e = handle_request-Returns msg req (e req refl)
    parsed-Returns msg (err x) k e = Returns-ok _
    parsed-Returns msg (fault x) k e = absurd k.holds

    pub handle_dns-Returns : (msg : Bytes) → Returns (handle_dns zone msg)
    unfolding handle_dns
    handle_dns-Returns msg =
        parsed-Returns msg (new_request msg) (new_request-Returns msg) (new_request-IsRequest msg)
