-- ===== src/Rfc2136/Tsig/Accept.antt =====
-- Which messages `ValidateTSIG` accepts.
use xfx1_dns.Prelude.{
  ℕ, ◌+◌, ◌≤◌, ◌≡◌, refl, sym, ap, ◌∙◌, ◌↔◌, Bool, true, false, not, Option, none, some, ◌++◌,
  arith, if◌then◌else◌,
}
use xfx1_dns.Rfc2136.Wire.{WireRr, Message}
use xfx1_dns.Rfc2136.Tsig.{
  hmac_sha256_name, TsigRecord, TsigError, parse_tsig_rdata, encode_tsig_rdata, tsig_variables,
  Hmac, fudge_of, outside_window, compute_mac, check_tsig, validate_tsig, bad_signature,
  time_window_violation, bad_algorithm,
}
use xfx1_dns.Rfc2136.Tsig.RoundTrip.{IsTsig, parse_tsig_rdata-encode_tsig_rdata}
use xfx1_dns.Rec.Domain.{Unicode}
use xfx1_dns.Prelude.Result.{Result, >>=-eq-ok, ok, err}
use xfx1_dns.Prelude.Bytes.{Bytes, bytes_eq, bytes_eq_iff}

-- The only way through three tests in a row.
exits :
    (algorithm late mac : Bool) (e : TsigError)
    → ◌≡◌ {A = Result TsigError (Unit {0})}
        (if not algorithm
          then err e
          else if late
          then err time_window_violation
          else if mac
          then ok tt
          else err bad_signature)
        (ok tt)
    → (algorithm ≡ true) × (late ≡ false) × (mac ≡ true)
exits true false true e h = (refl, refl, refl)
exits true false false e h = cc
exits true true mac e h = cc
exits false late mac e h = cc

module _ ⦃u : Unicode⦄ (hmac : Hmac) (secret : Bytes) (now : ℕ) where
  -- The signature of a record is good for the message bytes: HMAC-SHA256 over them and the
  -- record's variables under the shared secret, made at most the fudge from now.
  pub record IsSigned (raw : Bytes) (rr : WireRr) (t : TsigRecord) : Type 0 where
    pub algorithm : t.algorithm ≡ hmac_sha256_name
    pub not_late : now ≤ t.time_signed + fudge_of t.fudge
    pub not_early : t.time_signed ≤ now + fudge_of t.fudge
    pub mac : t.mac ≡ hmac secret (raw ++ tsig_variables rr.name t)

  -- The message carries a TSIG record that is parsed to such a signature.
  pub record Accepted (msg : Message) : Type 0 where
    pub rr : WireRr
    pub t : TsigRecord
    pub carried : msg.tsig ≡ some rr
    pub parsed : parse_tsig_rdata rr.rdata ≡ ok t
    pub signed : IsSigned msg.raw rr t

  outside_window-cases :
      (t : TsigRecord)
      → (outside_window now t ≡ false)
        ↔ ((now ≤ t.time_signed + fudge_of t.fudge) × (t.time_signed ≤ now + fudge_of t.fudge))
  unfolding outside_window
  outside_window-cases t = ground arith

  check_tsig-ok :
      (raw : Bytes) (rr : WireRr) (t : TsigRecord)
      → parse_tsig_rdata rr.rdata ≡ ok t
      → IsSigned raw rr t
      → check_tsig hmac secret now raw rr ≡ ok tt
  unfolding check_tsig compute_mac
  check_tsig-ok raw rr t parsed signed =
      let algorithm = (bytes_eq_iff t.algorithm hmac_sha256_name).1 signed.algorithm in
      let window = (outside_window-cases t).1 (signed.not_late, signed.not_early) in
      let mac =
        (bytes_eq_iff (hmac secret (raw ++ tsig_variables rr.name t)) t.mac).1 (sym signed.mac) in
      rw (parsed, algorithm, window, mac)

  check_tsig-IsSigned :
      (raw : Bytes) (rr : WireRr)
      → check_tsig hmac secret now raw rr ≡ ok tt
      → (t : TsigRecord) × (parse_tsig_rdata rr.rdata ≡ ok t) × IsSigned raw rr t
  unfolding check_tsig compute_mac
  check_tsig-IsSigned raw rr h =
      let (t, parsed, run) = >>=-eq-ok (parse_tsig_rdata rr.rdata) _ h in
      let (algorithm, window, mac) =
        exits (bytes_eq t.algorithm hmac_sha256_name) (outside_window now t)
          (bytes_eq (hmac secret (raw ++ tsig_variables rr.name t)) t.mac)
          (bad_algorithm t.algorithm) run in
      let (not_late, not_early) = (outside_window-cases t).0 window in
      (
        t,
        parsed,
        record {
          algorithm = (bytes_eq_iff t.algorithm hmac_sha256_name).0 algorithm;
          not_late = not_late;
          not_early = not_early;
          mac = sym ((bytes_eq_iff (hmac secret (raw ++ tsig_variables rr.name t)) t.mac).0 mac);
        },
      )

  -- `ValidateTSIG` accepts exactly the messages with a TSIG record whose data is parsed, whose
  -- algorithm is HMAC-SHA256, whose time is at most the fudge from now, and whose MAC is the one
  -- of the message without that record and of the record's variables.
  pub validate_tsig_iff :
      (msg : Message) → (validate_tsig hmac secret now msg ≡ ok tt) ↔ Accepted msg
  unfolding validate_tsig
  validate_tsig_iff msg = (sound msg.tsig refl, complete)
    where
      sound :
          (o : Option WireRr)
          → msg.tsig ≡ o
          → validate_tsig hmac secret now msg ≡ ok tt
          → Accepted msg
      sound none e h = cc (rw e at h)
      sound (some rr) e h =
          let (t, parsed, signed) = check_tsig-IsSigned msg.raw rr (rw e at h) in
          record { rr = rr; t = t; carried = e; parsed = parsed; signed = signed }

      complete : Accepted msg → validate_tsig hmac secret now msg ≡ ok tt
      complete a = rw (a.carried) (check_tsig-ok msg.raw a.rr a.t a.parsed a.signed)

  -- A message to which a client has put a TSIG record with the MAC for the shared secret, made at
  -- most the fudge from now, is accepted.
  pub validate_tsig-encode_tsig_rdata :
      (msg : Message) (rr : WireRr) (t : TsigRecord)
      → msg.tsig ≡ some rr
      → rr.rdata ≡ encode_tsig_rdata t
      → IsTsig t
      → IsSigned msg.raw rr t
      → validate_tsig hmac secret now msg ≡ ok tt
  validate_tsig-encode_tsig_rdata msg rr t carried written fields signed =
      (validate_tsig_iff msg).1 (record {
        rr = rr;
        t = t;
        carried = carried;
        parsed = ap (λ r. parse_tsig_rdata r) written ∙ parse_tsig_rdata-encode_tsig_rdata t fields;
        signed = signed;
      })
