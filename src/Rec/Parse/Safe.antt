-- ===== src/Rec/Parse/Safe.antt =====
-- `ParseRdata` returns on all record data.
use xfx1_dns.Prelude.{
  ℕ, zero, suc, ◌+◌, ◌≤◌, ◌<◌, not, [], ◌++◌, arith, ◌==◌, if◌then◌else◌, length, ltb, leb, ltb→ge,
  leb→gt,
}
use xfx1_dns.Rec.Parse.{
  ParseError, parse_dns_name, txt_loop, parse_a, parse_aaaa, parse_txt, parse_cname, parse_ns,
  parse_ptr, parse_mx, parse_srv, parse_caa, parse_rdata, bad_length,
}
use xfx1_dns.Rec.Types.{RRtype}
use xfx1_dns.Rec.Opts.{RRopts}
use xfx1_dns.Rec.Parse.Names.{parse_dns_name-Returns}
use xfx1_dns.Prelude.Result.{
  Returns, Returns-ok, Returns-err, Returns-if, Returns-bind, ok, err, ◌>>=◌,
}
use xfx1_dns.Prelude.Bytes.{Bytes, at, slice, u16_at, at-Returns, slice-Returns, u16_at-Returns}

txt_loop-Returns :
    (fuel : ℕ) (rdata : Bytes) (offset : ℕ) (txt : Bytes)
    → offset ≤ length rdata
    → length rdata < offset + fuel
    → Returns (txt_loop fuel rdata offset txt)
unfolding txt_loop
txt_loop-Returns zero rdata offset txt within h = absurd (omega arith)
txt_loop-Returns (suc fuel) rdata offset txt within h =
    Returns-if (leb (length rdata) offset) _ _ (λ _. Returns-ok _)
      λ e. Returns-bind (at rdata offset) _ (at-Returns rdata offset (leb→gt _ _ e)) λ len _.
        Returns-if (ltb (length rdata) (offset + 1 + len)) _ _ (λ _. Returns-err _)
          λ d.
            Returns-bind (slice rdata (offset + 1) (offset + 1 + len)) _
              (slice-Returns rdata (offset + 1) (offset + 1 + len) (omega arith) (ltb→ge _ _ d))
              λ segment _.
                txt_loop-Returns fuel rdata (offset + 1 + len) (txt ++ segment) (ltb→ge _ _ d)
                  (omega arith)

named-Returns :
    (rdata : Bytes) (offset : ℕ) (f : Bytes × ℕ → RRopts)
    → Returns (parse_dns_name rdata offset >>= λ r. ok (f r))
named-Returns rdata offset f =
    Returns-bind (parse_dns_name rdata offset) _ (parse_dns_name-Returns rdata offset)
      λ r _. Returns-ok _

parse_srv-Returns : (rdata : Bytes) → Returns (parse_srv rdata)
unfolding parse_srv
parse_srv-Returns rdata =
    Returns-if (ltb (length rdata) 7) _ _ (λ _. Returns-err _)
      λ e.
        let long : 7 ≤ length rdata = ltb→ge _ _ e in
        Returns-bind (u16_at rdata 0) _ (u16_at-Returns rdata 0 (omega arith)) λ priority _.
          Returns-bind (u16_at rdata 2) _ (u16_at-Returns rdata 2 (omega arith)) λ weight _.
            Returns-bind (u16_at rdata 4) _ (u16_at-Returns rdata 4 (omega arith)) λ port _.
              Returns-bind (parse_dns_name rdata 6) _ (parse_dns_name-Returns rdata 6)
                λ (target, n) _. Returns-ok _

parse_caa-Returns : (rdata : Bytes) → Returns (parse_caa rdata)
unfolding parse_caa
parse_caa-Returns rdata =
    Returns-if (ltb (length rdata) 2) _ _ (λ _. Returns-err _)
      λ e.
        let long : 2 ≤ length rdata = ltb→ge _ _ e in
        Returns-bind (at rdata 0) _ (at-Returns rdata 0 (omega arith)) λ flags _.
          Returns-bind (at rdata 1) _ (at-Returns rdata 1 (omega arith)) λ tag_len _.
            Returns-if (ltb (length rdata) (2 + tag_len)) _ _ (λ _. Returns-err _)
              λ d.
                let fits : 2 + tag_len ≤ length rdata = ltb→ge _ _ d in
                Returns-bind (slice rdata 2 (2 + tag_len)) _
                  (slice-Returns rdata 2 (2 + tag_len) (omega arith) fits)
                  λ tag _.
                    Returns-bind (slice rdata (2 + tag_len) (length rdata)) _
                      (slice-Returns rdata (2 + tag_len) (length rdata) fits (omega arith))
                      λ value _. Returns-ok _

parse_mx-Returns : (rdata : Bytes) → Returns (parse_mx rdata)
unfolding parse_mx
parse_mx-Returns rdata =
    Returns-if (ltb (length rdata) 3) _ _ (λ _. Returns-err _)
      λ e.
        let long : 3 ≤ length rdata = ltb→ge _ _ e in
        Returns-bind (u16_at rdata 0) _ (u16_at-Returns rdata 0 (omega arith))
          λ preference _. named-Returns rdata 2 (λ (name, n). RRopts.mx preference name)

sized-Returns :
    (n : ℕ) (rdata : Bytes) (o : RRopts)
    → Returns {E = ParseError} (if not (length rdata == n) then err bad_length else ok o)
sized-Returns n rdata o =
    Returns-if (not (length rdata == n)) _ _ (λ _. Returns-err _) (λ _. Returns-ok _)

-- Record data of any type and length is parsed without a panic.
pub parse_rdata-Returns : (t : RRtype) (rdata : Bytes) → Returns (parse_rdata t rdata)
unfolding parse_rdata parse_a parse_aaaa parse_txt parse_cname parse_ns parse_ptr
parse_rdata-Returns RRtype.a rdata = sized-Returns 4 rdata (RRopts.a rdata)
parse_rdata-Returns RRtype.aaaa rdata = sized-Returns 16 rdata (RRopts.aaaa rdata)
parse_rdata-Returns RRtype.txt rdata =
    Returns-bind (txt_loop (suc (length rdata)) rdata 0 []) _
      (txt_loop-Returns (suc (length rdata)) rdata 0 [] (omega arith) (omega arith))
      λ s _. Returns-ok _
parse_rdata-Returns RRtype.cname rdata = named-Returns rdata 0 (λ (name, n). RRopts.cname name)
parse_rdata-Returns RRtype.ns rdata = named-Returns rdata 0 (λ (name, n). RRopts.ns name)
parse_rdata-Returns RRtype.ptr rdata = named-Returns rdata 0 (λ (name, n). RRopts.ptr name)
parse_rdata-Returns RRtype.mx rdata = parse_mx-Returns rdata
parse_rdata-Returns RRtype.srv rdata = parse_srv-Returns rdata
parse_rdata-Returns RRtype.caa rdata = parse_caa-Returns rdata
parse_rdata-Returns t rdata = Returns-err _
