-- ===== src/Rfc2136/Tsig/RoundTrip.antt =====
-- `ParseTSIGRdata` reads back what `encodeTSIGRdata` writes.
use xfx1_dns.Prelude.{
  ℕ, suc, ◌+◌, ◌*◌, ◌≤◌, ◌<◌, ◌≡◌, refl, sym, ap, ◌∙◌, ◌≢◌, [], ◌∷◌, ◌++◌, arith, length, drop, All,
  length-append, drop-behind, drop-cons-lt, ge→ltb,
}
use xfx1_dns.Rfc2136.Wire.{parse_name}
use xfx1_dns.Rfc2136.Tsig.{
  TsigRecord, TsigError, time_loop, other_at, parse_tsig_rdata, be48, encode_tsig_rdata,
}
use xfx1_dns.Rfc2136.Wire.Encode.{encode_name-write}
use xfx1_dns.Rfc2136.Wire.Names.RoundTrip.{parse_name-write}
use xfx1_dns.Rec.Domain.{Unicode, Domain, dot, to_lower, split_dots, domain_labels, write}
use xfx1_dns.Rec.Domain.Valid.{IsLabel, IsFqdn}
use xfx1_dns.Prelude.Bytes.{Bytes, IsU16, be16, slice, u16_at, at-drop, slice-drop, u16_at-be16}
use xfx1_dns.Prelude.Result.{ok}
use mathlib.Core.Path.{subst}
use mathlib.Core.List.{append-nil}

-- A record whose numbers fit their fields, with a well-formed algorithm in lower case.
pub record IsTsig ⦃u : Unicode⦄ (t : TsigRecord) : Type 0 where
  pub algorithm : IsFqdn t.algorithm
  pub lower : to_lower t.algorithm ≡ t.algorithm
  pub time_signed : t.time_signed < 281474976710656
  pub fudge : IsU16 t.fudge
  pub mac : IsU16 (length t.mac)
  pub orig_id : IsU16 t.orig_id
  pub error : IsU16 t.error
  pub other_data : IsU16 (length t.other_data)

-- A well-formed name is not the root.
pub IsFqdn-ne : (d : Domain) → IsFqdn d → d ≢ dot ∷ []
IsFqdn-ne d f e =
    let root : All IsLabel (domain_labels (dot ∷ [])) =
      subst (λ s. All IsLabel (domain_labels s)) e f.labels in
    unfold domain_labels split_dots in (let empty = root.0.nonempty in absurd (omega arith))

-- The number that bytes stand for, behind `time`.
abbrev big_endian : Bytes → ℕ → ℕ
big_endian [] time = time
big_endian (b ∷ bs) time = big_endian bs (time * 256 + b)

-- The six bytes of a time stand for it.
time_of_be48 : (t : ℕ) → t < 281474976710656 → big_endian (be48 t) 0 ≡ t
time_of_be48 t h = omega arith

module _ (rdata : Bytes) where
  time_loop-cons :
      (n pos time b : ℕ) (r : Bytes)
      → drop pos rdata ≡ b ∷ r
      → time_loop (suc n) rdata pos time ≡ time_loop n rdata (pos + 1) (time * 256 + b)
  unfolding time_loop
  time_loop-cons n pos time b r h = rw (at-drop rdata pos b r h)

  -- The loop takes the bytes that stand at the position.
  time_loop-bytes :
      (bs r : Bytes) (pos time : ℕ)
      → drop pos rdata ≡ bs ++ r
      → time_loop (length bs) rdata pos time ≡ ok (big_endian bs time)
  time_loop-bytes [] r pos time h = unfold time_loop in refl
  time_loop-bytes (b ∷ bs) r pos time h =
      time_loop-cons (length bs) pos time b (bs ++ r) h
      ∙ time_loop-bytes bs r (pos + 1) (time * 256 + b)
          (drop-behind rdata (b ∷ []) (bs ++ r) pos (pos + 1) h refl)

  time_loop-be48 :
      (t pos : ℕ) (r : Bytes)
      → t < 281474976710656
      → drop pos rdata ≡ be48 t ++ r
      → time_loop 6 rdata pos 0 ≡ ok t
  time_loop-be48 t pos r h e = time_loop-bytes (be48 t) r pos 0 e ∙ ap ok (time_of_be48 t h)

  other_at-data :
      (pos : ℕ) (other : Bytes)
      → pos ≤ length rdata
      → drop pos rdata ≡ other
      → other_at rdata pos (length other) ≡ ok other
  unfolding other_at
  other_at-data pos [] h e = refl
  other_at-data pos (c ∷ other) h e =
      let whole : length rdata ≡ pos + suc (length other) = drop-cons-lt rdata pos e in
      rw
        (slice-drop rdata (c ∷ other) [] pos (pos + suc (length other)) h
          (e ∙ sym (append-nil (c ∷ other))) refl)
        (ground arith)

module _ ⦃u : Unicode⦄ where
  parse_tsig_rdata-fields :
      (rdata : Bytes) (t : TsigRecord) (n tail : ℕ)
      → to_lower t.algorithm ≡ t.algorithm
      → parse_name rdata 0 ≡ ok (t.algorithm, n)
      → time_loop 6 rdata n 0 ≡ ok t.time_signed
      → u16_at {E = TsigError} rdata (n + 6) ≡ ok t.fudge
      → u16_at {E = TsigError} rdata (n + 8) ≡ ok (length t.mac)
      → slice {E = TsigError} rdata (n + 10) tail ≡ ok t.mac
      → u16_at {E = TsigError} rdata tail ≡ ok t.orig_id
      → u16_at {E = TsigError} rdata (tail + 2) ≡ ok t.error
      → u16_at {E = TsigError} rdata (tail + 4) ≡ ok (length t.other_data)
      → other_at rdata (tail + 6) (length t.other_data) ≡ ok t.other_data
      → tail ≡ n + 10 + length t.mac
      → tail + 6 ≤ length rdata
      → parse_tsig_rdata rdata ≡ ok t
  unfolding parse_tsig_rdata
  parse_tsig_rdata-fields rdata t n tail lower name time fudge size mac orig_id error len other e
        whole =
      rw (
        name,
        ge→ltb (length rdata) (n + 10) (omega arith),
        time,
        fudge,
        size,
        ← e,
        ge→ltb (length rdata) tail (omega arith),
        mac,
        ge→ltb (length rdata) (tail + 6) whole,
        orig_id,
        error,
        len,
        other,
        lower,
      )

  -- The record data that is written for a TSIG record is parsed to this record again.
  pub parse_tsig_rdata-encode_tsig_rdata :
      (t : TsigRecord) → IsTsig t → parse_tsig_rdata (encode_tsig_rdata t) ≡ ok t
  parse_tsig_rdata-encode_tsig_rdata t h =
      let d = t.algorithm in
      let rdata = encode_tsig_rdata t in
      let from_error = be16 t.error ++ (be16 (length t.other_data) ++ t.other_data) in
      let from_id = be16 t.orig_id ++ from_error in
      let from_size = be16 (length t.mac) ++ (t.mac ++ from_id) in
      let from_time = be48 t.time_signed ++ (be16 t.fudge ++ from_size) in
      let whole : rdata ≡ write d ++ from_time =
        unfold encode_tsig_rdata in
        ap (λ s. s ++ from_time) (encode_name-write d h.algorithm.ends (IsFqdn-ne d h.algorithm)) in
      let n = length (write d) in
      let tail = n + 10 + length t.mac in
      let time = drop-behind rdata (write d) from_time 0 n whole (omega arith) in
      let fudge =
        drop-behind rdata (be48 t.time_signed) (be16 t.fudge ++ from_size) n (n + 6) time refl in
      let size = drop-behind rdata (be16 t.fudge) from_size (n + 6) (n + 8) fudge (omega arith) in
      let mac =
        drop-behind rdata (be16 (length t.mac)) (t.mac ++ from_id) (n + 8) (n + 10) size
          (omega arith) in
      let orig_id = drop-behind rdata t.mac from_id (n + 10) tail mac refl in
      let error = drop-behind rdata (be16 t.orig_id) from_error tail (tail + 2) orig_id refl in
      let len =
        drop-behind rdata (be16 t.error) (be16 (length t.other_data) ++ t.other_data) (tail + 2)
          (tail + 4) error (omega arith) in
      let other =
        drop-behind rdata (be16 (length t.other_data)) t.other_data (tail + 4) (tail + 6) len
          (omega arith) in
      let room : length rdata ≡ n + 10 + length t.mac + 6 + length t.other_data = omega (
        arith,
        ap (length {A = ℕ}) whole,
        length-append (write d) from_time,
        length-append t.mac from_id,
      ) in
      parse_tsig_rdata-fields rdata t n tail h.lower
        (parse_name-write rdata 0 d from_time h.algorithm whole)
        (time_loop-be48 rdata t.time_signed n (be16 t.fudge ++ from_size) h.time_signed time)
        (u16_at-be16 rdata (n + 6) t.fudge from_size h.fudge fudge)
        (u16_at-be16 rdata (n + 8) (length t.mac) (t.mac ++ from_id) h.mac size)
        (slice-drop rdata t.mac from_id (n + 10) tail (omega (arith, room)) mac refl)
        (u16_at-be16 rdata tail t.orig_id from_error h.orig_id orig_id)
        (u16_at-be16 rdata (tail + 2) t.error (be16 (length t.other_data) ++ t.other_data) h.error
          error)
        (u16_at-be16 rdata (tail + 4) (length t.other_data) t.other_data h.other_data len)
        (other_at-data rdata (tail + 6) t.other_data (omega (arith, room)) other) refl
        (omega (arith, room))
