-- ===== src/Rfc2136/Tsig.antt =====
-- internal/rfc2136/tsig.go: signatures of update messages.
pub mod Safe
pub mod RoundTrip
pub mod Accept
pub mod Records
pub mod Respond
use xfx1_dns.Prelude.{
  ℕ, zero, suc, ◌+◌, ◌-◌, ◌*◌, ◌/◌, ◌%◌, Bool, true, false, ◌&&◌, ◌||◌, not, List, [], ◌∷◌, ◌++◌,
}
use xfx1_dns.Prelude.{Option, none, some, length, ltb, ◌==◌, if◌then◌else◌}
use xfx1_dns.Prelude.Bytes.{Bytes, at, slice, u16_at, be16, be32, put16, bytes_eq}
use xfx1_dns.Prelude.Result.{Result, ok, err, fault, ◌>>=◌}
use xfx1_dns.Rec.Domain.{Unicode, to_lower}
use xfx1_dns.Rfc2136.Wire.{
  WireRr, WireError, Message, parse_name, encode_name, type_tsig, class_any,
}

-- algorithmHMACSHA256: "hmac-sha256."
abbrev pub hmac_sha256_name : Bytes
hmac_sha256_name = 104 ∷ 109 ∷ 97 ∷ 99 ∷ 45 ∷ 115 ∷ 104 ∷ 97 ∷ 50 ∷ 53 ∷ 54 ∷ 46 ∷ []

-- tsigFudgeDefault
abbrev pub fudge_default : ℕ
fudge_default = 300

pub record TsigRecord : Type 0 where
  pub algorithm : Bytes
  pub time_signed : ℕ
  pub fudge : ℕ
  pub mac : Bytes
  pub orig_id : ℕ
  pub error : ℕ
  pub other_data : Bytes

pub data TsigError : Type 0 where
  algorithm_name : WireError → TsigError
  fixed_truncated mac_truncated tail_truncated other_truncated : TsigError
  missing bad_signature time_window_violation : TsigError
  bad_algorithm : Bytes → TsigError

-- fmt.Errorf around the error of `parseName`.
abbrev pub algorithm_error {ℓ} : {A : Type ℓ} → Result WireError A → Result TsigError A
algorithm_error (ok a) = ok a
algorithm_error (err e) = err (algorithm_name e)
algorithm_error (fault x) = fault x

-- The loop over the six bytes of the time; `n` are left.
unfoldable pub time_loop : ℕ → Bytes → ℕ → ℕ → Result TsigError ℕ
time_loop zero rdata pos time = ok time
time_loop (suc n) rdata pos time = do b ← at rdata pos; time_loop n rdata (pos + 1) (time * 256 + b)

-- Other data is nil where its length is 0.
unfoldable pub other_at : Bytes → ℕ → ℕ → Result TsigError Bytes
other_at rdata pos len =
    if ltb 0 len
    then (if ltb (length rdata) (pos + len)
        then err other_truncated
        else slice rdata pos (pos + len))
    else ok []

module _ ⦃u : Unicode⦄ where
  unfoldable pub parse_tsig_rdata : Bytes → Result TsigError TsigRecord
  parse_tsig_rdata rdata = do
    (algo, n) ← algorithm_error (parse_name rdata 0)
    if ltb (length rdata) (n + 10) then err fixed_truncated else do
      time ← time_loop 6 rdata n 0
      fudge ← u16_at rdata (n + 6)
      mac_size ← u16_at rdata (n + 8)
      if ltb (length rdata) (n + 10 + mac_size) then err mac_truncated else do
        mac ← slice rdata (n + 10) (n + 10 + mac_size)
        let tail = n + 10 + mac_size
        if ltb (length rdata) (tail + 6) then err tail_truncated else do
          orig_id ← u16_at rdata tail
          error ← u16_at rdata (tail + 2)
          other_len ← u16_at rdata (tail + 4)
          other ← other_at rdata (tail + 6) other_len
          ok (record {
            algorithm = to_lower algo;
            time_signed = time;
            fudge = fudge;
            mac = mac;
            orig_id = orig_id;
            error = error;
            other_data = other;
          })

-- The six bytes of a time: byte(t >> 40) to byte(t).
abbrev pub be48 : ℕ → Bytes
be48 t =
    (t / 1099511627776 % 256)
    ∷ (t / 4294967296 % 256)
    ∷ (t / 16777216 % 256)
    ∷ (t / 65536 % 256)
    ∷ (t / 256 % 256)
    ∷ (t % 256)
    ∷ []

-- `encodeTSIGRdata`; the lengths are cut to 16 bits.
unfoldable pub encode_tsig_rdata : TsigRecord → Bytes
encode_tsig_rdata t =
    encode_name t.algorithm
    ++ (be48 t.time_signed
        ++ (be16 t.fudge
            ++ (be16 (length t.mac)
                ++ (t.mac
                    ++ (be16 t.orig_id
                        ++ (be16 t.error ++ (be16 (length t.other_data) ++ t.other_data)))))))

-- `encodeRR`
unfoldable pub encode_rr : Bytes → ℕ → ℕ → ℕ → Bytes → Bytes
encode_rr name rrtype class ttl rdata =
    encode_name name
    ++ (be16 rrtype ++ (be16 class ++ (be32 ttl ++ (be16 (length rdata) ++ rdata))))

-- `buildTSIGVariables`
unfoldable pub tsig_variables : Bytes → TsigRecord → Bytes
tsig_variables key_name t =
    encode_name key_name
    ++ (be16 class_any
        ++ (be32 0
            ++ (encode_name t.algorithm
                ++ (be48 t.time_signed
                    ++ (be16 t.fudge
                        ++ (be16 t.error ++ (be16 (length t.other_data) ++ t.other_data)))))))

-- What the code takes from crypto/hmac over crypto/sha256: from key and data to the digest.
-- hmac.Equal compares bytes.
abbrev pub Hmac : Type 0
Hmac = Bytes → Bytes → Bytes

-- A fudge of 0 stands for the default.
abbrev pub fudge_of : ℕ → ℕ
fudge_of fudge = if fudge == 0 then fudge_default else fudge

-- now > signed + fudge, or the signature lies in the future by more than the fudge.
unfoldable pub outside_window : ℕ → TsigRecord → Bool
outside_window now t =
    ltb (t.time_signed + fudge_of t.fudge) now
    || (ltb now t.time_signed && ltb (fudge_of t.fudge) (t.time_signed - now))

-- `computeMAC`
unfoldable pub compute_mac : Hmac → Bytes → Bytes → WireRr → TsigRecord → Bytes
compute_mac hmac secret msg rr t = hmac secret (msg ++ tsig_variables rr.name t)

module _ ⦃u : Unicode⦄ where
  -- What `ValidateTSIG` does behind the test for a missing record.
  unfoldable pub check_tsig : Hmac → Bytes → ℕ → Bytes → WireRr → Result TsigError (Unit {0})
  check_tsig hmac secret now raw rr = do
    t ← parse_tsig_rdata rr.rdata
    if not (bytes_eq t.algorithm hmac_sha256_name)
        then err (bad_algorithm t.algorithm)
        else if outside_window now t
        then err time_window_violation
        else if bytes_eq (compute_mac hmac secret raw rr t) t.mac
        then ok tt
        else err bad_signature

  -- `now` are Unix seconds.
  unfoldable pub validate_tsig : Hmac → Bytes → ℕ → Message → Result TsigError (Unit {0})
  validate_tsig hmac secret now msg = elim msg.tsig [
    | none ↦ err missing
    | some rr ↦ check_tsig hmac secret now msg.raw rr
  ]

-- The TSIG record of `SignResponse` or `appendUnsignedTSIG`, put behind the response with ARCOUNT
-- one more.
unfoldable pub append_tsig : Bytes → Bytes → TsigRecord → Result TsigError Bytes
append_tsig resp key_name t = do
  arcount ← u16_at resp 10
  ok (
      put16 resp 10 ((arcount + 1) % 65536)
      ++ encode_rr key_name type_tsig class_any 0 (encode_tsig_rdata t))

-- The fields that a response is signed over.
abbrev pub response_tsig : TsigRecord → ℕ → ℕ → TsigRecord
response_tsig t now orig_id = record {
  algorithm = t.algorithm;
  time_signed = now;
  fudge = fudge_of t.fudge;
  mac = [];
  orig_id = orig_id;
  error = 0;
  other_data = [];
}

-- `encodeMACWire`: the length in two bytes and the MAC.
abbrev pub mac_wire : Bytes → Bytes
mac_wire mac = be16 (length mac % 65536) ++ mac

abbrev pub unsigned_tsig : Bytes → ℕ → ℕ → TsigRecord
unsigned_tsig algorithm now orig_id = record {
  algorithm = algorithm;
  time_signed = now;
  fudge = fudge_default;
  mac = [];
  orig_id = orig_id;
  error = 5;
  other_data = [];
}

-- The unsigned record has the algorithm of the request, or the only one where its record cannot be
-- parsed.
abbrev pub unsigned_for :
    ℕ → Bytes → ℕ → Bytes → Result TsigError TsigRecord → Result TsigError Bytes
unsigned_for now resp orig_id name (ok t) =
    append_tsig resp name (unsigned_tsig t.algorithm now orig_id)
unsigned_for now resp orig_id name (err e) =
    append_tsig resp name (unsigned_tsig hmac_sha256_name now orig_id)
unsigned_for now resp orig_id name (fault x) = fault x

-- The TSIG record of a response, with its MAC.
abbrev pub signed_for : Hmac → Bytes → ℕ → Bytes → ℕ → Bytes → TsigRecord → TsigRecord
signed_for hmac secret now resp orig_id name t =
    let signed = response_tsig t now orig_id in
    record signed { mac = hmac secret (mac_wire t.mac ++ (resp ++ tsig_variables name signed)) }

module _ ⦃u : Unicode⦄ where
  -- `appendUnsignedTSIG`
  unfoldable pub append_unsigned : ℕ → Bytes → WireRr → Result TsigError Bytes
  append_unsigned now resp rr = do
    orig_id ← u16_at resp 0
    unsigned_for now resp orig_id rr.name (parse_tsig_rdata rr.rdata)

  -- `SignResponse` behind the parser of the request's record.
  abbrev pub sign_for :
      Hmac → Bytes → ℕ → Bytes → WireRr → Result TsigError TsigRecord → Result TsigError Bytes
  sign_for hmac secret now resp rr (ok t) = do
    orig_id ← u16_at resp 0
    append_tsig resp rr.name (signed_for hmac secret now resp orig_id rr.name t)
  sign_for hmac secret now resp rr (err e) = append_unsigned now resp rr
  sign_for hmac secret now resp rr (fault x) = fault x

  -- `SignResponse`; a request whose TSIG record cannot be parsed gets an unsigned one.
  unfoldable pub sign_response : Hmac → Bytes → ℕ → Bytes → WireRr → Result TsigError Bytes
  sign_response hmac secret now resp rr =
      sign_for hmac secret now resp rr (parse_tsig_rdata rr.rdata)
