-- ===== src/Slave/Dns/Limits.antt =====
-- No response exceeds the limit of its transport.
use xfx1_dns.Prelude.{
  ◌++◌, ℕ, ◌+◌, ◌*◌, ◌%◌, ◌≤◌, ◌≡◌, Option, none, some, length, ltb, ltb→ge, arith, [], ◌∷◌, take,
}
use xfx1_dns.Prelude.Bytes.{Bytes, be16}
use xfx1_dns.Prelude.Result.{
  ok, ◌>>=◌, Ensures, Ensures-if, Ensures-bind, Ensures-ok, Ensures-fault,
}
use native.Mathlib.Nat.{le_trans}
use xfx1_dns.Rec.Domain.{Unicode}
use xfx1_dns.Dns.Query.{Request, id, flags, new_request}
use xfx1_dns.Dns.Response.{
  truncated_response, build_response, append_opt, refused_response, rcode_no_error,
}
use xfx1_dns.Rec.Types.{RRtype, from_wire}
use xfx1_dns.Slave.Wire.{EdnsInfo, parse_opt}
use mathlib.Core.Path.{subst}
use xfx1_dns.Prelude.{refl, sym, ap, ◌⊎◌, inl, inr, not, ◌&&◌, ◌||◌, ◌==◌, false}
use xfx1_dns.Prelude.Result.{>>=-eq-ok}
use xfx1_dns.Prelude.Bytes.{slice}
use xfx1_dns.Slave.Dns.{
  Zone, Handled, handle_dns, limited, max_udp, serve_udp, tcp_response, handle_tcp_conn, lift,
  with_opt, sections_for, compare_names, serve_type, serve_question, handle_question,
  handle_request,
}

max_udp_bounds : (n : ℕ) → (512 ≤ max_udp n) × (max_udp n ≤ 4096)
unfolding max_udp
max_udp_bounds n = ground arith

-- The limit is 512 bytes or less, or no more than the payload size.
max_udp_cases : (n : ℕ) → (max_udp n ≤ 512) ⊎ (max_udp n ≤ n)
unfolding max_udp
max_udp_cases n = ground arith

max_udp_small : max_udp 0 ≤ 512
unfolding max_udp
max_udp_small = omega arith

limited-le :
    (limit : ℕ) (req : Option Request) (resp : Bytes)
    → 12 ≤ limit
    → Ensures (λ out. length out ≤ limit) (limited limit req resp)
limited-le limit none resp h =
    Ensures-if (ltb limit (length resp)) _ _ (λ _. Ensures-fault _) λ e. Ensures-ok _ (ltb→ge _ _ e)
limited-le limit (some req) resp h =
    Ensures-if (ltb limit (length resp)) _ _
      (λ _. Ensures-bind (id req) _ λ txid _.
        Ensures-bind (flags req) _ λ query_flags _. Ensures-ok _ (unfold truncated_response in h))
      λ e. Ensures-ok _ (ltb→ge _ _ e)

-- The packet, if there is one, fits the limit.
abbrev PacketFits : ℕ → Option Bytes → Type 0
PacketFits limit none = Unit
PacketFits limit (some out) = length out ≤ limit

module _ ⦃u : Unicode⦄ (zone : Zone) where
  reply_fits :
      (handled : Handled) (response : Option Bytes)
      → Ensures (PacketFits (max_udp handled.info.udp_size)) (elim response [
        | none ↦ ok none
        | some resp ↦
            limited (max_udp handled.info.udp_size) handled.request resp >>= λ out. ok (some out)
      ])
  reply_fits handled none = Ensures-ok _ tt
  reply_fits handled (some resp) =
      let (lo, hi) = max_udp_bounds handled.info.udp_size in
      Ensures-bind (limited (max_udp handled.info.udp_size) handled.request resp) _
        λ out e. Ensures-ok _ ((limited-le _ handled.request resp (omega arith)).on_ok out e)

  -- The payload size that is remembered is that of the EDNS record, or none.
  abbrev Sized : EdnsInfo → Handled → Type 0
  Sized edns h = (h.info.udp_size ≡ 0) ⊎ (h.info.udp_size ≡ edns.udp_size)

  module _ (req : Request) (txid query_flags : ℕ) (edns : EdnsInfo) (question : Bytes) where
    serve_type-Sized :
        (t : RRtype) → Ensures (Sized edns) (serve_type zone req txid query_flags edns question t)
    unfolding serve_type
    serve_type-Sized t =
        let s = sections_for zone req.qname t req.qtype edns.do_bit in
        Ensures-if (edns.present && not (edns.version == 0)) _ _
          (λ _.
            Ensures-bind (build_response txid query_flags (some question) [] [] [] rcode_no_error) _
              λ built _.
                Ensures-bind (append_opt built false 1) _ λ resp _. Ensures-ok _ (inr refl))
          λ _. Ensures-bind (compare_names zone req.qname t req.qtype edns.do_bit) _ λ compared _.
            Ensures-bind
              (build_response txid query_flags (some question) s.answers s.additional s.authority
                s.rcode)
              _
              λ built _.
                Ensures-bind (with_opt edns edns.do_bit 0 built) _ λ resp _. Ensures-ok _ (inr refl)

    serve_question-Sized :
        (t : Option RRtype)
        → Ensures (Sized edns) (serve_question zone req txid query_flags edns question t)
    unfolding serve_question
    serve_question-Sized (some t) = serve_type-Sized t
    serve_question-Sized none =
        Ensures-bind (build_response txid query_flags (some question) [] [] [] rcode_no_error) _
          λ built _.
            Ensures-bind (with_opt edns edns.do_bit 0 built) _ λ resp _. Ensures-ok _ (inr refl)

  module _ (packet : Bytes) (req : Request) (edns : EdnsInfo)
      (read : parse_opt packet req.question_end ≡ ok edns) where
    handle_question-Sized :
        (txid query_flags : ℕ)
        → Ensures (Sized edns) (handle_question zone packet req txid query_flags)
    unfolding handle_question
    handle_question-Sized txid query_flags =
        Ensures-bind (lift (parse_opt packet req.question_end)) _ λ e run.
          Ensures-bind (slice packet 12 req.question_end) _ λ question _.
            let same : edns ≡ e = cc (rw read at run) in
            subst
              (λ x.
                Ensures (Sized x)
                  (serve_question zone req txid query_flags e question (from_wire req.qtype)))
              (sym same)
              (serve_question-Sized req txid query_flags e question (from_wire req.qtype))

    handle_request-Sized : Ensures (Sized edns) (handle_request zone packet req)
    unfolding handle_request
    handle_request-Sized = Ensures-bind (id req) _ λ txid _.
        Ensures-bind (flags req) _ λ query_flags _.
          Ensures-if (not (req.opcode == 0)) _ _
            (λ _.
              Ensures-bind (refused_response txid query_flags) _ λ resp _. Ensures-ok _ (inl refl))
            λ _.
              Ensures-if (req.qtype == 252 || req.qtype == 251) _ _
                (λ _.
                  Ensures-bind (refused_response txid query_flags) _
                    λ resp _. Ensures-ok _ (inl refl))
                λ _. handle_question-Sized txid query_flags

    handle_dns-Sized : new_request packet ≡ ok req → Ensures (Sized edns) (handle_dns zone packet)
    unfolding handle_dns
    handle_dns-Sized parsed = rw (parsed, handle_dns) handle_request-Sized

    fitting :
        (handled : Handled) (out : Bytes)
        → Sized edns handled
        → length out ≤ max_udp handled.info.udp_size
        → (length out ≤ 512) ⊎ (length out ≤ edns.udp_size)
    fitting handled out (inl zeroed) fits =
        inl (omega (arith, fits, max_udp_small, ap max_udp zeroed))
    fitting handled out (inr same) fits = elim (max_udp_cases edns.udp_size) [
      | inl small ↦ inl (omega (arith, fits, small, ap max_udp same))
      | inr short ↦ inr (omega (arith, fits, short, ap max_udp same))
    ]

    -- A packet that is sent over UDP in answer to a query is at most 512 bytes long, or at most as
    -- long as the payload size in the query's EDNS record says, and never longer than 4096 bytes.
    pub serve_udp-le :
        (out : Bytes)
        → new_request packet ≡ ok req
        → serve_udp zone packet ≡ ok (some out)
        → ((length out ≤ 512) ⊎ (length out ≤ edns.udp_size)) × (length out ≤ 4096)
    unfolding serve_udp
    serve_udp-le out parsed run =
        let (handled, h, last) = >>=-eq-ok (handle_dns zone packet) _ run in
        let fits = (reply_fits handled handled.response).on_ok (some out) last in
        (
          fitting handled out ((handle_dns-Sized parsed).on_ok handled h) fits,
          le_trans fits (max_udp_bounds handled.info.udp_size).1,
        )

  tcp_response-le : (msg : Bytes) → Ensures (λ out. length out ≤ 8194) (tcp_response zone msg)
  tcp_response-le msg =
      Ensures-bind (handle_dns zone msg) _ λ handled _. go handled handled.response
    where
      go :
          (handled : Handled) (response : Option Bytes)
          → Ensures
              (λ (out : Bytes). length out ≤ 8194)
              (elim response [
                | none ↦ ok []
                | some resp ↦ limited 8192 handled.request resp >>= λ out.
                    ok (be16 (length out % 65536) ++ out)
              ])
      go handled none = Ensures-ok _ (omega arith)
      go handled (some resp) = Ensures-bind (limited 8192 handled.request resp) _ λ out e.
          Ensures-ok _
            (omega (arith, (limited-le 8192 handled.request resp (omega arith)).on_ok out e))

  handle_tcp_conn-Ensures :
      (input : Bytes) → Ensures (λ out. length out ≤ 8194) (handle_tcp_conn zone input)
  unfolding handle_tcp_conn
  handle_tcp_conn-Ensures [] = Ensures-ok _ (omega arith)
  handle_tcp_conn-Ensures (a ∷ []) = Ensures-ok _ (omega arith)
  handle_tcp_conn-Ensures (a ∷ b ∷ rest) =
      Ensures-if (ltb (length rest) (a * 256 + b)) _ _ (λ _. Ensures-ok _ (omega arith))
        λ _. tcp_response-le (take (a * 256 + b) rest)

  -- A TCP connection gets at most 8192 bytes behind the length prefix.
  pub handle_tcp_conn-le :
      (input out : Bytes) → handle_tcp_conn zone input ≡ ok out → length out ≤ 8194
  handle_tcp_conn-le input out h = (handle_tcp_conn-Ensures input).on_ok out h
