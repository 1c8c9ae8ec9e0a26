-- ===== src/Rfc2136/Tsig/Safe.antt =====
-- `ParseTSIGRdata` and `ValidateTSIG` return on every record data.
use xfx1_dns.Prelude.{ℕ, zero, suc, ◌+◌, ◌*◌, ◌≤◌, arith, length, ltb, ltb→ge}
use xfx1_dns.Rfc2136.Wire.{WireError, parse_name}
use xfx1_dns.Rfc2136.Tsig.{algorithm_error, time_loop, other_at, parse_tsig_rdata}
use xfx1_dns.Rfc2136.Wire.Names.{parse_name-Returns}
use xfx1_dns.Rec.Domain.{Unicode}
use xfx1_dns.Prelude.Result.{
  Result, Returns, Returns-ok, Returns-err, Returns-if, Returns-bind, ok, err, fault,
}
use xfx1_dns.Prelude.Bytes.{Bytes, at, slice, u16_at, at-Returns, slice-Returns, u16_at-Returns}

module _ (rdata : Bytes) where
  time_loop-Returns :
      (n pos time : ℕ) → pos + n ≤ length rdata → Returns (time_loop n rdata pos time)
  unfolding time_loop
  time_loop-Returns zero pos time h = Returns-ok _
  time_loop-Returns (suc n) pos time h =
      Returns-bind (at rdata pos) _ (at-Returns rdata pos (omega arith))
        λ b _. time_loop-Returns n (pos + 1) (time * 256 + b) (omega arith)

  other_at-Returns : (pos len : ℕ) → Returns (other_at rdata pos len)
  unfolding other_at
  other_at-Returns pos len =
      Returns-if (ltb 0 len) _ _
        (λ _.
          Returns-if (ltb (length rdata) (pos + len)) _ _ (λ _. Returns-err _)
            λ e. slice-Returns rdata pos (pos + len) (omega arith) (ltb→ge _ _ e))
        λ _. Returns-ok _

algorithm_error-Returns {ℓ} :
    {A : Type ℓ} (r : Result WireError A) → Returns r → Returns (algorithm_error r)
algorithm_error-Returns (ok a) h = Returns-ok a
algorithm_error-Returns (err e) h = Returns-err _
algorithm_error-Returns (fault x) h = absurd h.holds

module _ ⦃u : Unicode⦄ where
  -- The record data of a TSIG record is parsed without a panic, whatever it holds.
  pub parse_tsig_rdata-Returns : (rdata : Bytes) → Returns (parse_tsig_rdata rdata)
  unfolding parse_tsig_rdata
  parse_tsig_rdata-Returns rdata =
      Returns-bind (algorithm_error (parse_name rdata 0)) _
        (algorithm_error-Returns (parse_name rdata 0) (parse_name-Returns rdata 0))
        λ (algo, n) _.
          Returns-if (ltb (length rdata) (n + 10)) _ _ (λ _. Returns-err _)
            λ e.
              let fixed : n + 10 ≤ length rdata = ltb→ge _ _ e in
              Returns-bind (time_loop 6 rdata n 0) _ (time_loop-Returns rdata 6 n 0 (omega arith))
                λ time _.
                  Returns-bind (u16_at rdata (n + 6)) _ (u16_at-Returns rdata (n + 6) (omega arith))
                    λ fudge _.
                      Returns-bind (u16_at rdata (n + 8)) _
                        (u16_at-Returns rdata (n + 8) (omega arith))
                        λ size _.
                          let tail : ℕ = n + 10 + size in
                          Returns-if (ltb (length rdata) tail) _ _ (λ _. Returns-err _)
                            λ d.
                              Returns-bind (slice rdata (n + 10) tail) _
                                (slice-Returns rdata (n + 10) tail (omega arith) (ltb→ge _ _ d))
                                λ mac _.
                                  Returns-if (ltb (length rdata) (tail + 6)) _ _
                                    (λ _. Returns-err _)
                                    λ c.
                                      let whole : tail + 6 ≤ length rdata = ltb→ge _ _ c in
                                      Returns-bind (u16_at rdata tail) _
                                        (u16_at-Returns rdata tail (omega arith))
                                        λ orig_id _.
                                          Returns-bind (u16_at rdata (tail + 2)) _
                                            (u16_at-Returns rdata (tail + 2) (omega arith))
                                            λ error _.
                                              Returns-bind (u16_at rdata (tail + 4)) _
                                                (u16_at-Returns rdata (tail + 4) (omega arith))
                                                λ len _.
                                                  Returns-bind (other_at rdata (tail + 6) len) _
                                                    (other_at-Returns rdata (tail + 6) len)
                                                    λ other _. Returns-ok _
