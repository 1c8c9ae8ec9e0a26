-- ===== src/Rfc2136/Wire/Safe.antt =====
-- `ParseMessage` returns on every message.
use xfx1_dns.Prelude.{ℕ, zero, suc, ◌+◌, ◌≤◌, List, arith, length, ltb, ltb→ge, ◌==◌, ◌&&◌}
use xfx1_dns.Prelude.Bytes.{
  Bytes, slice, u16_at, u32_at, slice-Returns, u16_at-Returns, u32_at-Returns, length-slice,
}
use xfx1_dns.Prelude.Result.{
  Returns, Returns-if, Returns-bind, Returns-ok, Returns-err, Ensures, Ensures-if, Ensures-bind,
  Ensures-ok, Ensures-err,
}
use xfx1_dns.Rfc2136.Wire.{
  WireRr, WireError, parse_name, parse_question, parse_rr, parse_questions, parse_rrs,
  parse_additional, strip_tsig, parse_header, parse_message, type_tsig,
}
use xfx1_dns.Rfc2136.Wire.Names.{parse_name-Returns}

module _ (msg : Bytes) where
  -- What was consumed from `start` on lies within the message.
  Within : ℕ → WireRr × ℕ → Type 0
  Within start (rr, used) = start + used ≤ length msg

  parse_question-Returns : (start : ℕ) → Returns (parse_question msg start)
  unfolding parse_question
  parse_question-Returns start =
      Returns-bind (parse_name msg start) _ (parse_name-Returns msg start) λ (name, n) _.
        Returns-if (ltb (length msg) (start + n + 4)) _ _ (λ _. Returns-err _)
          λ e.
            let fits = ltb→ge _ _ e in
            Returns-bind (u16_at msg (start + n)) _ (u16_at-Returns msg (start + n) (omega arith))
              λ qtype _.
                Returns-bind (u16_at msg (start + n + 2)) _
                  (u16_at-Returns msg (start + n + 2) (omega arith)) λ qclass _. Returns-ok _

  parse_question-Within : (start : ℕ) → Ensures (Within start) (parse_question msg start)
  unfolding parse_question Within
  parse_question-Within start = Ensures-bind (parse_name msg start) _ λ (name, n) _.
      Ensures-if (ltb (length msg) (start + n + 4)) _ _ (λ _. Ensures-err _)
        λ e. Ensures-bind (u16_at msg (start + n)) _ λ qtype _.
          Ensures-bind (u16_at msg (start + n + 2)) _
            λ qclass _. Ensures-ok _ (omega (arith, ltb→ge _ _ e))

  parse_rr-Returns : (start : ℕ) → Returns (parse_rr msg start)
  unfolding parse_rr
  parse_rr-Returns start =
      Returns-bind (parse_name msg start) _ (parse_name-Returns msg start) λ (name, n) _.
        let p : ℕ = start + n in
        Returns-if (ltb (length msg) (p + 10)) _ _ (λ _. Returns-err _)
          λ e.
            let fits = ltb→ge _ _ e in
            Returns-bind (u16_at msg p) _ (u16_at-Returns msg p (omega arith)) λ rrtype _.
              Returns-bind (u16_at msg (p + 2)) _ (u16_at-Returns msg (p + 2) (omega arith))
                λ class _.
                  Returns-bind (u32_at msg (p + 4)) _ (u32_at-Returns msg (p + 4) (omega arith))
                    λ ttl _.
                      Returns-bind (u16_at msg (p + 8)) _ (u16_at-Returns msg (p + 8) (omega arith))
                        λ len _.
                          Returns-if (ltb (length msg) (p + 10 + len)) _ _ (λ _. Returns-err _)
                            λ d.
                              Returns-bind (slice msg (p + 10) (p + 10 + len)) _
                                (slice-Returns msg (p + 10) (p + 10 + len) (omega arith)
                                  (ltb→ge _ _ d))
                                λ rdata _. Returns-ok _

  parse_rr-Within : (start : ℕ) → Ensures (Within start) (parse_rr msg start)
  unfolding parse_rr Within
  parse_rr-Within start = Ensures-bind (parse_name msg start) _ λ (name, n) _.
      let p : ℕ = start + n in
      Ensures-if (ltb (length msg) (p + 10)) _ _ (λ _. Ensures-err _)
        λ e. Ensures-bind (u16_at msg p) _ λ rrtype _.
          Ensures-bind (u16_at msg (p + 2)) _ λ class _.
            Ensures-bind (u32_at msg (p + 4)) _ λ ttl _.
              Ensures-bind (u16_at msg (p + 8)) _ λ len _.
                Ensures-if (ltb (length msg) (p + 10 + len)) _ _ (λ _. Ensures-err _)
                  λ d.
                    Ensures-bind (slice msg (p + 10) (p + 10 + len)) _
                      λ rdata _. Ensures-ok _ (omega (arith, ltb→ge _ _ d))

  -- Where a section ends.
  EndsWithin : ℕ → List WireRr × ℕ → Type 0
  EndsWithin start (rrs, end) = (start ≤ end) × (end ≤ length msg)

  parse_questions-Returns : (n start : ℕ) → Returns (parse_questions n msg start)
  unfolding parse_questions
  parse_questions-Returns zero start = Returns-ok _
  parse_questions-Returns (suc n) start =
      Returns-bind (parse_question msg start) _ (parse_question-Returns start) λ (rr, used) _.
        Returns-bind (parse_questions n msg (start + used)) _
          (parse_questions-Returns n (start + used)) λ (rrs, end) _. Returns-ok _

  parse_questions-Within :
      (n start : ℕ) → start ≤ length msg → Ensures (EndsWithin start) (parse_questions n msg start)
  unfolding parse_questions EndsWithin
  parse_questions-Within zero start h = Ensures-ok _ (omega arith)
  parse_questions-Within (suc n) start h = Ensures-bind (parse_question msg start) _ λ (rr, used) e.
      let within : start + used ≤ length msg =
        unfold Within in (parse_question-Within start).on_ok (rr, used) e in
      Ensures-bind (parse_questions n msg (start + used)) _ λ (rrs, end) d.
        let tail = (parse_questions-Within n (start + used) within).on_ok (rrs, end) d in
        Ensures-ok _ (omega arith)

  parse_rrs-Returns : (n start : ℕ) → Returns (parse_rrs n msg start)
  unfolding parse_rrs
  parse_rrs-Returns zero start = Returns-ok _
  parse_rrs-Returns (suc n) start =
      Returns-bind (parse_rr msg start) _ (parse_rr-Returns start) λ (rr, used) _.
        Returns-bind (parse_rrs n msg (start + used)) _ (parse_rrs-Returns n (start + used))
          λ (rrs, end) _. Returns-ok _

  parse_rrs-Within :
      (n start : ℕ) → start ≤ length msg → Ensures (EndsWithin start) (parse_rrs n msg start)
  unfolding parse_rrs EndsWithin
  parse_rrs-Within zero start h = Ensures-ok _ (omega arith)
  parse_rrs-Within (suc n) start h = Ensures-bind (parse_rr msg start) _ λ (rr, used) e.
      let within : start + used ≤ length msg =
        unfold Within in (parse_rr-Within start).on_ok (rr, used) e in
      Ensures-bind (parse_rrs n msg (start + used)) _ λ (rrs, end) d.
        let tail = (parse_rrs-Within n (start + used) within).on_ok (rrs, end) d in
        Ensures-ok _ (omega arith)

  strip_tsig-Returns :
      (start : ℕ) → 12 ≤ start → start ≤ length msg → Returns (strip_tsig msg start)
  unfolding strip_tsig
  strip_tsig-Returns start h k =
      Returns-bind (slice msg 0 start) _ (slice-Returns msg 0 start (omega arith) k) λ raw e.
        Returns-bind (u16_at raw 10) _
          (u16_at-Returns raw 10 (omega (arith, length-slice {E = WireError} msg 0 start raw e)))
          λ arcount _. Returns-ok _

  parse_additional-Returns :
      (n start : ℕ) → 12 ≤ start → start ≤ length msg → Returns (parse_additional n msg start)
  unfolding parse_additional
  parse_additional-Returns zero start h k = Returns-ok _
  parse_additional-Returns (suc n) start h k =
      Returns-bind (parse_rr msg start) _ (parse_rr-Returns start) λ (rr, used) e.
        let within : start + used ≤ length msg =
          unfold Within in (parse_rr-Within start).on_ok (rr, used) e in
        Returns-bind (parse_additional n msg (start + used)) _
          (parse_additional-Returns n (start + used) (omega arith) within)
          λ (rrs, tsig, raw) _.
            Returns-if (rr.rrtype == type_tsig && n == 0) _ _
              (λ _.
                Returns-bind (strip_tsig msg start) _ (strip_tsig-Returns start h k)
                  λ raw' _. Returns-ok _)
              λ _. Returns-ok _

  parse_header-Returns : 12 ≤ length msg → Returns (parse_header msg)
  unfolding parse_header
  parse_header-Returns h =
      Returns-bind (u16_at msg 0) _ (u16_at-Returns msg 0 (omega arith)) λ id _.
        Returns-bind (u16_at msg 2) _ (u16_at-Returns msg 2 (omega arith)) λ word _.
          Returns-bind (u16_at msg 4) _ (u16_at-Returns msg 4 (omega arith)) λ qdcount _.
            Returns-bind (u16_at msg 6) _ (u16_at-Returns msg 6 (omega arith)) λ ancount _.
              Returns-bind (u16_at msg 8) _ (u16_at-Returns msg 8 (omega arith)) λ nscount _.
                Returns-bind (u16_at msg 10) _ (u16_at-Returns msg 10 (omega arith))
                  λ arcount _. Returns-ok _

  -- `ParseMessage` neither panics nor loops for ever, whatever bytes arrive.
  pub parse_message-Returns : Returns (parse_message msg)
  unfolding parse_message EndsWithin
  parse_message-Returns =
      Returns-if (ltb (length msg) 12) _ _ (λ _. Returns-err _)
        λ long.
          let room : 12 ≤ length msg = ltb→ge _ _ long in
          Returns-bind (parse_header msg) _ (parse_header-Returns room) λ header _.
            Returns-bind (parse_questions header.qdcount msg 12) _
              (parse_questions-Returns header.qdcount 12)
              λ (zones, a) ea.
                let wa = (parse_questions-Within header.qdcount 12 room).on_ok (zones, a) ea in
                Returns-bind (parse_rrs header.ancount msg a) _ (parse_rrs-Returns header.ancount a)
                  λ (prerequisites, b) eb.
                    let wb = (parse_rrs-Within header.ancount a wa.1).on_ok (prerequisites, b) eb in
                    Returns-bind (parse_rrs header.nscount msg b) _
                      (parse_rrs-Returns header.nscount b)
                      λ (updates, c) ec.
                        let wc = (parse_rrs-Within header.nscount b wb.1).on_ok (updates, c) ec in
                        Returns-bind (parse_additional header.arcount msg c) _
                          (parse_additional-Returns header.arcount c (omega arith) wc.1)
                          λ (additional, tsig, raw) _. Returns-ok _
