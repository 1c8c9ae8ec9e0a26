-- ===== src/Rfc2136/Tsig/Records.antt =====
-- `parseRR` reads back what `encodeRR` writes.
use xfx1_dns.Prelude.{
  ℕ, ◌+◌, ◌-◌, ◌/◌, ◌%◌, ◌≤◌, ◌≡◌, refl, ap, ◌∙◌, [], ◌∷◌, ◌++◌, arith, length, drop, length-append,
  drop-behind, drop-cons-lt, ge→ltb,
}
use xfx1_dns.Rfc2136.Wire.{WireRr, WireError, parse_name, parse_rr}
use xfx1_dns.Rfc2136.Tsig.{encode_rr}
use xfx1_dns.Rfc2136.Wire.Encode.{encode_name-write}
use xfx1_dns.Rfc2136.Wire.Names.RoundTrip.{parse_name-write}
use xfx1_dns.Rfc2136.Tsig.RoundTrip.{IsFqdn-ne}
use xfx1_dns.Rec.Domain.{write}
use xfx1_dns.Rec.Domain.Valid.{IsFqdn}
use xfx1_dns.Prelude.Bytes.{
  Bytes, IsU16, IsU32, be16, be32, slice, u16_at, u32_at, slice-drop, u16_at-be16, u32_at-be32,
}
use xfx1_dns.Prelude.Result.{ok}
use mathlib.Core.List.{append_assoc}

-- A record whose numbers fit their fields.
pub record IsWireRr (rr : WireRr) : Type 0 where
  pub name : IsFqdn rr.name
  pub rrtype : IsU16 rr.rrtype
  pub class : IsU16 rr.class
  pub ttl : IsU32 rr.ttl
  pub rdlength : rr.rdlength ≡ length rr.rdata
  pub rdata : IsU16 (length rr.rdata)

abbrev pub encoded : WireRr → Bytes
encoded rr = encode_rr rr.name rr.rrtype rr.class rr.ttl rr.rdata

module _ (msg : Bytes) where
  parse_rr-fields :
      (rr : WireRr) (start n used : ℕ)
      → parse_name msg start ≡ ok (rr.name, n)
      → u16_at {E = WireError} msg (start + n) ≡ ok rr.rrtype
      → u16_at {E = WireError} msg (start + n + 2) ≡ ok rr.class
      → u32_at {E = WireError} msg (start + n + 4) ≡ ok rr.ttl
      → u16_at {E = WireError} msg (start + n + 8) ≡ ok rr.rdlength
      → slice {E = WireError} msg (start + n + 10) (start + n + 10 + rr.rdlength) ≡ ok rr.rdata
      → start + n + 10 + rr.rdlength ≤ length msg
      → used ≡ start + n + 10 + rr.rdlength - start
      → parse_rr msg start ≡ ok (rr, used)
  unfolding parse_rr
  parse_rr-fields rr start n used name rrtype class ttl rdlength rdata whole e = rw (
    name,
    ge→ltb (length msg) (start + n + 10) (omega arith),
    rrtype,
    class,
    ttl,
    rdlength,
    ge→ltb (length msg) (start + n + 10 + rr.rdlength) whole,
    rdata,
    e,
  )

  -- The record that is written at a position is read there.
  pub parse_rr-encode_rr :
      (rr : WireRr) (start : ℕ) (r : Bytes)
      → IsWireRr rr
      → drop start msg ≡ encoded rr ++ r
      → parse_rr msg start ≡ ok (rr, length (encoded rr))
  parse_rr-encode_rr rr start r h e =
      let d = rr.name in
      let from_len = be16 (length rr.rdata) ++ rr.rdata in
      let from_ttl = be32 rr.ttl ++ from_len in
      let from_class = be16 rr.class ++ from_ttl in
      let from_type = be16 rr.rrtype ++ from_class in
      let text : encoded rr ≡ write d ++ from_type =
        unfold encode_rr in
        ap (λ s. s ++ from_type) (encode_name-write d h.name.ends (IsFqdn-ne d h.name)) in
      let here : drop start msg ≡ write d ++ (from_type ++ r) =
        e ∙ ap (λ s. s ++ r) text ∙ append_assoc (write d) from_type r in
      let p = start + length (write d) in
      let rrtype = drop-behind msg (write d) (from_type ++ r) start p here refl in
      let class = drop-behind msg (be16 rr.rrtype) (from_class ++ r) p (p + 2) rrtype refl in
      let ttl =
        drop-behind msg (be16 rr.class) (from_ttl ++ r) (p + 2) (p + 4) class (omega arith) in
      let len = drop-behind msg (be32 rr.ttl) (from_len ++ r) (p + 4) (p + 8) ttl (omega arith) in
      let rdata =
        drop-behind msg (be16 (length rr.rdata)) (rr.rdata ++ r) (p + 8) (p + 10) len
          (omega arith) in
      let size : length (encoded rr) ≡ length (write d) + 10 + length rr.rdata =
        omega (arith, ap (length {A = ℕ}) text, length-append (write d) from_type) in
      let room : length msg ≡ p + 10 + length rr.rdata + length r = omega (
        arith,
        drop-cons-lt msg (p + 9) {a = length rr.rdata % 256} {r = rr.rdata ++ r} (
            drop-behind msg (length rr.rdata / 256 % 256 ∷ [])
              (length rr.rdata % 256 ∷ (rr.rdata ++ r)) (p + 8) (p + 9) len (omega arith)),
        length-append rr.rdata r,
      ) in
      parse_rr-fields rr start (length (write d)) (length (encoded rr))
        (parse_name-write msg start d (from_type ++ r) h.name here)
        (u16_at-be16 msg p rr.rrtype (from_class ++ r) h.rrtype rrtype)
        (u16_at-be16 msg (p + 2) rr.class (from_ttl ++ r) h.class class)
        (u32_at-be32 msg (p + 4) rr.ttl (from_len ++ r) h.ttl ttl)
        (rw h.rdlength (u16_at-be16 msg (p + 8) (length rr.rdata) (rr.rdata ++ r) h.rdata len))
        (slice-drop msg rr.rdata r (p + 10) (p + 10 + rr.rdlength) (omega (arith, room)) rdata
          (rw h.rdlength))
        (omega (arith, room, h.rdlength)) (omega (arith, size, h.rdlength))
