-- ===== src/Rfc2136/Tsig/Respond.antt =====
-- What `SignResponse` puts behind a response.
use xfx1_dns.Prelude.{
  ℕ, ◌+◌, ◌/◌, ◌%◌, ◌≤◌, ◌<◌, ◌≡◌, refl, sym, ap, ◌∙◌, [], ◌++◌, arith, length, set, drop,
  length-append, length-set, drop-append,
}
use xfx1_dns.Rfc2136.Wire.{class_any, type_tsig, WireRr, parse_rr, encode_name}
use xfx1_dns.Rfc2136.Tsig.{
  TsigRecord, TsigError, parse_tsig_rdata, be48, encode_tsig_rdata, tsig_variables, Hmac,
  append_tsig, response_tsig, mac_wire, sign_response,
}
use xfx1_dns.Rfc2136.Server.{parsed}
use xfx1_dns.Rfc2136.Wire.Encode.{encode_name-write}
use xfx1_dns.Rfc2136.Tsig.RoundTrip.{IsTsig, IsFqdn-ne, parse_tsig_rdata-encode_tsig_rdata}
use xfx1_dns.Rfc2136.Tsig.Records.{IsWireRr, encoded, parse_rr-encode_rr}
use xfx1_dns.Rec.Domain.{Unicode}
use xfx1_dns.Rec.Domain.Labels.{length-write}
use xfx1_dns.Rec.Domain.Valid.{IsFqdn}
use xfx1_dns.Prelude.Bytes.{Bytes, IsU16, be16, u16_at, put16, u16_at-ok}
use xfx1_dns.Prelude.Result.{ok}
use mathlib.Core.List.{append-nil}

-- The record data of a TSIG record is short where its parts are.
length-encode_tsig_rdata :
    ⦃u : Unicode⦄ (t : TsigRecord)
    → IsTsig t
    → length (encode_tsig_rdata t) ≡ length t.algorithm + 17 + length t.mac + length t.other_data
unfolding encode_tsig_rdata
length-encode_tsig_rdata t h =
    let rest = be16 t.orig_id ++ (be16 t.error ++ (be16 (length t.other_data) ++ t.other_data)) in
    let from_size = be16 (length t.mac) ++ (t.mac ++ rest) in
    omega (
      arith,
      ap (length {A = ℕ})
          (encode_name-write t.algorithm h.algorithm.ends (IsFqdn-ne t.algorithm h.algorithm)),
      length-write t.algorithm h.algorithm.ends,
      length-append (encode_name t.algorithm) (be48 t.time_signed ++ (be16 t.fudge ++ from_size)),
      length-append t.mac rest,
    )

pub length-put16 : (msg : Bytes) (i n : ℕ) → length (put16 msg i n) ≡ length msg
length-put16 msg i n =
    length-set (set msg i (n / 256 % 256)) (i + 1) (n % 256) ∙ length-set msg i (n / 256 % 256)

-- The record that is put behind a response.
abbrev pub tsig_rr : Bytes → TsigRecord → WireRr
tsig_rr key_name t = record {
  name = key_name;
  rrtype = type_tsig;
  class = class_any;
  ttl = 0;
  rdlength = length (encode_tsig_rdata t);
  rdata = encode_tsig_rdata t;
}

module _ ⦃u : Unicode⦄ where
  append_tsig-parse_rr :
      (resp key_name : Bytes) (t : TsigRecord)
      → 12 ≤ length resp
      → IsFqdn key_name
      → IsTsig t
      → length t.mac + length t.other_data ≤ 65000
      → (out : Bytes) × (used : ℕ) × (append_tsig resp key_name t ≡ ok out)
        × (parse_rr out (length resp) ≡ ok (tsig_rr key_name t, used))
  unfolding append_tsig
  append_tsig-parse_rr resp key_name t long name fields small =
      let (arcount, read) = u16_at-ok {E = TsigError} resp 10 (omega arith) in
      let front = put16 resp 10 ((arcount + 1) % 65536) in
      let rr = tsig_rr key_name t in
      let fits : IsWireRr rr = record {
        name = name;
        rrtype = omega arith;
        class = omega arith;
        ttl = omega arith;
        rdlength = refl;
        rdata = omega (arith, length-encode_tsig_rdata t fields, fields.algorithm.short);
      } in
      let behind : drop (length resp) (front ++ encoded rr) ≡ encoded rr ++ [] =
        ap (λ n. drop n (front ++ encoded rr)) (sym (length-put16 resp 10 ((arcount + 1) % 65536)))
        ∙ drop-append front (encoded rr)
        ∙ sym (append-nil (encoded rr)) in
      (
        front ++ encoded rr,
        length (encoded rr),
        rw read,
        parse_rr-encode_rr (front ++ encoded rr) rr (length resp) [] fits behind,
      )

  module _ (hmac : Hmac) (secret : Bytes) (now : ℕ) where
    -- The MAC of a response: over the MAC of the request, the response and the record's variables.
    abbrev pub response_mac : Bytes → Bytes → TsigRecord → ℕ → Bytes
    response_mac resp key_name t orig_id =
        hmac secret
          (mac_wire t.mac ++ (resp ++ tsig_variables key_name (response_tsig t now orig_id)))

    sign_response-ok :
        (resp : Bytes) (rr : WireRr) (t : TsigRecord) (orig_id : ℕ)
        → parse_tsig_rdata rr.rdata ≡ ok t
        → u16_at {E = TsigError} resp 0 ≡ ok orig_id
        → sign_response hmac secret now resp rr
          ≡ append_tsig resp rr.name
              (record (response_tsig t now orig_id) { mac = response_mac resp rr.name t orig_id })
    unfolding sign_response
    sign_response-ok resp rr t orig_id parsed front = rw (parsed, front)

    -- A response to a request with a TSIG record gets, behind its end, a record under the name of
    -- the same key; its data is parsed to the algorithm of the request, the present time, and the
    -- MAC over the request's MAC, the response and the variables. HMAC-SHA256 gives 32 bytes.
    pub sign_response-parse_rr :
        (digest : (text : Bytes) → length (hmac secret text) ≡ 32) (resp : Bytes) (rr : WireRr)
        (t : TsigRecord) (orig_id : ℕ)
        → parse_tsig_rdata rr.rdata ≡ ok t
        → IsTsig t
        → IsFqdn rr.name
        → now < 281474976710656
        → 12 ≤ length resp
        → u16_at {E = TsigError} resp 0 ≡ ok orig_id
        → IsU16 orig_id
        → (out : Bytes) × (answer : WireRr) × (used : ℕ) × (sign_response hmac secret now resp rr
            ≡ ok out)
          × (parse_rr out (length resp) ≡ ok (answer, used))
          × (answer.name ≡ rr.name)
          × (parse_tsig_rdata answer.rdata
              ≡ ok (record (response_tsig t now orig_id) {
                mac = response_mac resp rr.name t orig_id;
              }))
    sign_response-parse_rr digest resp rr t orig_id parsed fields name small long front id_fits =
        let signed = record (response_tsig t now orig_id) {
          mac = response_mac resp rr.name t orig_id;
        } in
        let size =
          digest
            (mac_wire t.mac ++ (resp ++ tsig_variables rr.name (response_tsig t now orig_id))) in
        let fits : IsTsig signed = record {
          algorithm = fields.algorithm;
          lower = fields.lower;
          time_signed = small;
          fudge = ground (arith, fields.fudge);
          mac = omega (arith, size);
          orig_id = id_fits;
          error = omega arith;
          other_data = omega arith;
        } in
        let (out, used, run, read) =
          append_tsig-parse_rr resp rr.name signed long name fits (omega (arith, size)) in
        (
          out,
          tsig_rr rr.name signed,
          used,
          sign_response-ok resp rr t orig_id parsed front ∙ run,
          read,
          refl,
          parse_tsig_rdata-encode_tsig_rdata signed fits,
        )
