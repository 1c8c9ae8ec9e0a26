-- ===== src/Dns/Response/Build.antt =====
-- The layout of the messages that are built.
use xfx1_dns.Prelude.{
  ℕ, ◌+◌, ◌*◌, ◌/◌, ◌%◌, ◌≤◌, ◌≡◌, ◌≢◌, sym, ap, ◌∙◌, Bool, Option, none, some, List, [], ◌∷◌, ◌++◌,
  length, All, arith, ge→ltb, Option-cases, inl, inr,
}
use xfx1_dns.Prelude.Bytes.{Bytes, IsU16, be16, be32, u16_at}
use xfx1_dns.Prelude.Result.{ok, err, fault, panic}
use xfx1_dns.Rec.Domain.{Unicode, write}
use xfx1_dns.Rec.Types.{to_wire}
use xfx1_dns.Rec.Opts.{payload}
use xfx1_dns.Rec.Rr.{Rr, WriteError, unknown_rrtype, binary_write}
use xfx1_dns.Dns.Response.{
  append_section, build_response, response_header, response_flags, append_opt, opt_record, add_opt,
  question_bytes, question_count,
}
use mathlib.Core.List.{append_assoc, append-nil}

-- A message from its header words and the rest.
abbrev pub message : ℕ → ℕ → ℕ → ℕ → ℕ → ℕ → Bytes → Bytes
message txid flags qdcount ancount nscount arcount body =
    be16 txid
    ++ (be16 flags ++ (be16 qdcount ++ (be16 ancount ++ (be16 nscount ++ (be16 arcount ++ body)))))

-- The wire bytes of a record of wire type `t`.
abbrev pub wire_rr : ⦃u : Unicode⦄ → Rr → ℕ → Bytes
wire_rr rr t =
    write rr.name
    ++ (be16 t ++ (be16 1 ++ (be32 rr.ttl ++ (be16 (length (payload rr.opts)) ++ payload rr.opts))))

-- The records of a section one after the other; a record of unknown type adds nothing.
unfoldable pub wire_section : ⦃u : Unicode⦄ → List Rr → Bytes
wire_section [] = []
wire_section (rr ∷ rrs) = elim (to_wire rr.rrtype) [
  | none ↦ wire_section rrs
  | some t ↦ wire_rr rr t ++ wire_section rrs
]

-- Each record has a type with a wire value.
abbrev pub AllKnown : List Rr → Type 0
AllKnown = All (λ rr. to_wire rr.rrtype ≢ none)

module _ ⦃u : Unicode⦄ where
  binary_write-wire_rr :
      (rr : Rr) (t : ℕ) → to_wire rr.rrtype ≡ some t → binary_write rr ≡ ok (wire_rr rr t)
  unfolding binary_write
  binary_write-wire_rr rr t e = rw (e, binary_write)

  binary_write-unknown :
      (rr : Rr) → to_wire rr.rrtype ≡ none → binary_write rr ≡ err (unknown_rrtype rr.rrtype)
  unfolding binary_write
  binary_write-unknown rr e = rw (e, binary_write)

  append_section-known :
      (buf : Bytes) (rr : Rr) (rrs : List Rr) (t : ℕ)
      → to_wire rr.rrtype ≡ some t
      → append_section buf (rr ∷ rrs) ≡ append_section (buf ++ wire_rr rr t) rrs
  unfolding append_section
  append_section-known buf rr rrs t e = rw (binary_write-wire_rr rr t e, append_section)

  append_section-unknown :
      (buf : Bytes) (rr : Rr) (rrs : List Rr)
      → to_wire rr.rrtype ≡ none
      → append_section buf (rr ∷ rrs) ≡ fault panic
  unfolding append_section
  append_section-unknown buf rr rrs e = rw (binary_write-unknown rr e, append_section)

  wire_section-cons :
      (rr : Rr) (rrs : List Rr) (t : ℕ)
      → to_wire rr.rrtype ≡ some t
      → wire_section (rr ∷ rrs) ≡ wire_rr rr t ++ wire_section rrs
  unfolding wire_section
  wire_section-cons rr rrs t e = rw (e, wire_section)

  append_section-wire_section :
      (buf : Bytes) (rrs : List Rr)
      → AllKnown rrs
      → append_section buf rrs ≡ ok (buf ++ wire_section rrs)
  append_section-wire_section buf [] h =
      unfold append_section wire_section in ap ok (sym (append-nil buf))
  append_section-wire_section buf (rr ∷ rrs) (known, h) = elim (Option-cases (to_wire rr.rrtype)) [
    | inl e ↦ absurd (known e)
    | inr (t, e) ↦
        append_section-known buf rr rrs t e
        ∙ append_section-wire_section (buf ++ wire_rr rr t) rrs h
        ∙ ap ok (
            append_assoc buf (wire_rr rr t) (wire_section rrs)
            ∙ ap (λ s. buf ++ s) (sym (wire_section-cons rr rrs t e)))
  ]

  -- With records of known types only, `BuildResponse` returns a message whose header has the
  -- identifier, the flags, one question or none, and the numbers of answers, authority records and
  -- additional records, cut to 16 bits, in this order; behind it come the question and, in the same
  -- order, each record with name, type, class IN, TTL, length and data.
  pub build_response-wire_section :
      (txid query_flags : ℕ) (question : Option Bytes) (answers additional authority : List Rr)
      (rcode : ℕ)
      → AllKnown answers
      → AllKnown additional
      → AllKnown authority
      → build_response txid query_flags question answers additional authority rcode
        ≡ ok (
            message txid
              (response_flags query_flags rcode)
              (question_count question)
              (length answers % 65536)
              (length authority % 65536)
              (length additional % 65536)
              (((question_bytes question ++ wire_section answers) ++ wire_section authority)
                ++ wire_section additional))
  unfolding build_response response_header
  build_response-wire_section txid query_flags question answers additional authority rcode ha hd
        hu =
      rw (
        append_section-wire_section _ answers ha,
        append_section-wire_section _ authority hu,
        append_section-wire_section _ additional hd,
      )

  append_section_panics :
      (buf : Bytes) (front : List Rr) (bad : Rr) (back : List Rr)
      → to_wire bad.rrtype ≡ none
      → append_section buf (front ++ (bad ∷ back)) ≡ fault panic
  append_section_panics buf [] bad back e = append_section-unknown buf bad back e
  append_section_panics buf (rr ∷ front) bad back e = elim (Option-cases (to_wire rr.rrtype)) [
    | inl e' ↦ append_section-unknown buf rr (front ++ (bad ∷ back)) e'
    | inr (t, e') ↦
        append_section-known buf rr (front ++ (bad ∷ back)) t e'
        ∙ append_section_panics (buf ++ wire_rr rr t) front bad back e
  ]

  -- One answer of a type with no wire value makes the whole call panic.
  pub build_response_panics :
      (txid query_flags : ℕ) (question : Option Bytes) (front : List Rr) (bad : Rr) (back : List Rr)
      (additional authority : List Rr) (rcode : ℕ)
      → to_wire bad.rrtype ≡ none
      → build_response txid query_flags question (front ++ (bad ∷ back)) additional authority rcode
        ≡ fault panic
  unfolding build_response
  build_response_panics txid query_flags question front bad back additional authority rcode e =
      rw (append_section_panics _ front bad back e)

append_opt_lem :
    (msg : Bytes) (do_bit : Bool) (ext_rcode arcount : ℕ)
    → 12 ≤ length msg
    → u16_at {E = WriteError} msg 10 ≡ ok arcount
    → append_opt msg do_bit ext_rcode ≡ ok (add_opt msg do_bit ext_rcode arcount)
unfolding append_opt
append_opt_lem msg do_bit ext_rcode arcount h e = rw (ge→ltb (length msg) 12 h, e)

-- `AppendOPT` adds one to ARCOUNT, modulo 2^16, and the OPT record at the end; the rest stays.
pub append_opt-message :
    (txid flags qdcount ancount nscount arcount : ℕ) (body : Bytes) (do_bit : Bool) (ext_rcode : ℕ)
    → IsU16 arcount
    → append_opt (message txid flags qdcount ancount nscount arcount body) do_bit ext_rcode
      ≡ ok (
          message txid flags qdcount ancount nscount
            ((arcount + 1) % 65536)
            (body ++ opt_record do_bit ext_rcode))
unfolding u16_at
append_opt-message txid flags qdcount ancount nscount arcount body do_bit ext_rcode h =
    let whole : arcount / 256 % 256 * 256 + arcount % 256 ≡ arcount = omega arith in
    append_opt_lem (message txid flags qdcount ancount nscount arcount body) do_bit ext_rcode
      arcount (omega arith) (ap ok whole)
