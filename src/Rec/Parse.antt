-- ===== src/Rec/Parse.antt =====
-- internal/rec/parse.go: record data read back from its wire form.
pub mod Names
pub mod RoundTrip
pub mod Safe
use xfx1_dns.Prelude.{ℕ, zero, suc, ◌+◌, ◌-◌, Bool, true, false, not, bit_and, List, [], ◌∷◌, ◌++◌}
use xfx1_dns.Prelude.{length, leb, ltb, ◌==◌, if◌then◌else◌}
use xfx1_dns.Prelude.Bytes.{Bytes, at, slice, u16_at}
use xfx1_dns.Prelude.Result.{Result, ok, err, fault, stuck, ◌>>=◌}
use xfx1_dns.Rec.Domain.{Domain, dot}
use xfx1_dns.Rec.Types.{RRtype}
use xfx1_dns.Rec.Opts.{RRopts}

pub data ParseError : Type 0 where
  unsupported_rrtype : RRtype → ParseError
  bad_length name_overrun bad_label_length label_overrun too_short truncated : ParseError

-- The loop of `parseDNSName`; it returns the labels and the offset behind the name.
unfoldable pub name_loop : ℕ → Bytes → ℕ → List Bytes → Result ParseError (List Bytes × ℕ)
name_loop zero rdata offset labels = fault stuck
name_loop (suc fuel) rdata offset labels =
    if leb (length rdata) offset then err name_overrun else do
      len ← at rdata offset
      if len == 0
          then ok (labels, offset + 1)
          else if not (bit_and len 0xc0 == 0)
          then err bad_label_length
          else if ltb (length rdata) (offset + 1 + len)
          then err label_overrun
          else do
            label ← slice rdata (offset + 1) (offset + 1 + len)
            name_loop fuel rdata (offset + 1 + len) (labels ++ (label ∷ []))

-- strings.Join(labels, ".")
unfoldable pub join_dots : List Bytes → Bytes
join_dots [] = []
join_dots (l ∷ []) = l
join_dots (l ∷ m ∷ r) = l ++ (dot ∷ join_dots (m ∷ r))

-- An empty list of labels is the root.
abbrev pub full_name : List Bytes → Bytes
full_name [] = dot ∷ []
full_name (l ∷ ls) = join_dots (l ∷ ls) ++ (dot ∷ [])

-- The name and the bytes consumed. Each round takes a byte, so the fuel is enough.
unfoldable pub parse_dns_name : Bytes → ℕ → Result ParseError (Bytes × ℕ)
unfolding name_loop join_dots
parse_dns_name rdata offset = do
  (labels, next) ← name_loop (suc (length rdata)) rdata offset []
  ok (full_name labels, next - offset)

-- The loop of `ParseTXT`; `txt` is what the builder holds.
unfoldable pub txt_loop : ℕ → Bytes → ℕ → Bytes → Result ParseError Bytes
txt_loop zero rdata offset txt = fault stuck
txt_loop (suc fuel) rdata offset txt = if leb (length rdata) offset then ok txt else do
  len ← at rdata offset
  if ltb (length rdata) (offset + 1 + len) then err truncated else do
    segment ← slice rdata (offset + 1) (offset + 1 + len)
    txt_loop fuel rdata (offset + 1 + len) (txt ++ segment)

unfoldable pub parse_a : Bytes → Result ParseError RRopts
parse_a rdata = if not (length rdata == 4) then err bad_length else ok (RRopts.a rdata)

unfoldable pub parse_aaaa : Bytes → Result ParseError RRopts
parse_aaaa rdata = if not (length rdata == 16) then err bad_length else ok (RRopts.aaaa rdata)

unfoldable pub parse_txt : Bytes → Result ParseError RRopts
unfolding txt_loop
parse_txt rdata = txt_loop (suc (length rdata)) rdata 0 [] >>= λ s. ok (RRopts.txt s)

unfoldable pub parse_cname : Bytes → Result ParseError RRopts
parse_cname rdata = do (name, n) ← parse_dns_name rdata 0; ok (RRopts.cname name)

unfoldable pub parse_ns : Bytes → Result ParseError RRopts
parse_ns rdata = do (name, n) ← parse_dns_name rdata 0; ok (RRopts.ns name)

unfoldable pub parse_ptr : Bytes → Result ParseError RRopts
parse_ptr rdata = do (name, n) ← parse_dns_name rdata 0; ok (RRopts.ptr name)

unfoldable pub parse_mx : Bytes → Result ParseError RRopts
parse_mx rdata = if ltb (length rdata) 3 then err too_short else do
  preference ← u16_at rdata 0
  (name, n) ← parse_dns_name rdata 2
  ok (RRopts.mx preference name)

unfoldable pub parse_srv : Bytes → Result ParseError RRopts
parse_srv rdata = if ltb (length rdata) 7 then err too_short else do
  priority ← u16_at rdata 0
  weight ← u16_at rdata 2
  port ← u16_at rdata 4
  (target, n) ← parse_dns_name rdata 6
  ok (RRopts.srv (record { priority = priority; weight = weight; port = port; target = target }))

unfoldable pub parse_caa : Bytes → Result ParseError RRopts
parse_caa rdata = if ltb (length rdata) 2 then err too_short else do
  flags ← at rdata 0
  tag_len ← at rdata 1
  if ltb (length rdata) (2 + tag_len) then err truncated else do
    tag ← slice rdata 2 (2 + tag_len)
    value ← slice rdata (2 + tag_len) (length rdata)
    ok (RRopts.caa flags tag value)

unfoldable pub parse_rdata : RRtype → Bytes → Result ParseError RRopts
parse_rdata RRtype.a rdata = parse_a rdata
parse_rdata RRtype.aaaa rdata = parse_aaaa rdata
parse_rdata RRtype.txt rdata = parse_txt rdata
parse_rdata RRtype.cname rdata = parse_cname rdata
parse_rdata RRtype.ns rdata = parse_ns rdata
parse_rdata RRtype.ptr rdata = parse_ptr rdata
parse_rdata RRtype.mx rdata = parse_mx rdata
parse_rdata RRtype.srv rdata = parse_srv rdata
parse_rdata RRtype.caa rdata = parse_caa rdata
parse_rdata t rdata = err (unsupported_rrtype t)
