-- ===== src/Slave/Wire/Opt.antt =====
-- `parseOPT` finds the OPT record that follows the question.
use xfx1_dns.Prelude.{
  ℕ, suc, ◌+◌, ◌≤◌, ◌<◌, ◌≡◌, refl, ◌∙◌, Bool, true, false, not, bit_and, [], ◌∷◌, ◌++◌, length,
  drop, ◌==◌, if◌then◌else◌, arith, ge→ltb, lt→ltb, drop-cons-lt, drop-behind, length-append, sym,
  ap,
}
use xfx1_dns.Prelude.Bytes.{Bytes, IsU16, u16_at, at-drop, be16, u16_at-be16}
use xfx1_dns.Prelude.Result.{ok}
use xfx1_dns.Rec.Domain.{Domain, write}
use xfx1_dns.Rec.Domain.Labels.{length-write}
use xfx1_dns.Rec.Domain.Valid.{IsFqdn}
use xfx1_dns.Dns.Response.{edns_do_bit, append_opt, opt_record}
use xfx1_dns.Dns.Response.Build.{message, append_opt-message}
use xfx1_dns.Dns.Query.Question.{query_message}
use mathlib.Core.List.{append_assoc}
use xfx1_dns.Slave.Wire.{
  EdnsInfo, NoError, skip_loop, skip_name, skip_records, opt_fields, find_opt, parse_opt,
}

-- The bytes of an OPT record up to its RDLENGTH.
abbrev pub opt_bytes : ℕ → ℕ → ℕ → ℕ → Bytes → Bytes
opt_bytes udp_size ext_rcode version ext_flags rest =
    0 ∷ (be16 41 ++ (be16 udp_size ++ (ext_rcode ∷ version ∷ (be16 ext_flags ++ rest))))

-- What such a record says.
abbrev pub opt_info : ℕ → ℕ → ℕ → EdnsInfo
opt_info udp_size version ext_flags = record {
  present = true;
  do_bit = not (bit_and ext_flags edns_do_bit == 0);
  version = version;
  udp_size = udp_size;
}

skip_name-root :
    (msg : Bytes) (pos : ℕ) (r : Bytes) → drop pos msg ≡ 0 ∷ r → skip_name msg pos ≡ ok (pos + 1)
unfolding skip_name skip_loop
skip_name-root msg pos r h =
    rw (lt→ltb pos (length msg) (omega (arith, drop-cons-lt msg pos h)), at-drop msg pos 0 r h)

-- The fields behind the root name of an OPT record.
opt_fields-opt_bytes :
    (msg : Bytes) (pos udp_size ext_rcode version ext_flags : ℕ) (rest : Bytes)
    → IsU16 udp_size
    → IsU16 ext_flags
    → 2 ≤ length rest
    → drop pos msg ≡ be16 41 ++ (be16 udp_size ++ (ext_rcode ∷ version ∷ (be16 ext_flags ++ rest)))
    → opt_fields msg pos ≡ ok (opt_info udp_size version ext_flags)
unfolding opt_fields
opt_fields-opt_bytes msg pos udp_size ext_rcode version ext_flags rest hu hf hr h =
    let tail : Bytes = ext_rcode ∷ version ∷ (be16 ext_flags ++ rest) in
    rw (
      ge→ltb (length msg) (pos + 10) (omega (arith, drop-cons-lt msg pos h)),
      u16_at-be16 msg (pos + 2) udp_size tail hu (drop-behind msg (be16 41) _ pos (pos + 2) h refl),
      at-drop {E = NoError} msg (pos + 5) version (be16 ext_flags ++ rest)
          (drop-behind msg (be16 41 ++ (be16 udp_size ++ (ext_rcode ∷ []))) _ pos (pos + 5) h refl),
      u16_at-be16 msg (pos + 6) ext_flags rest hf (
          drop-behind msg (be16 41 ++ (be16 udp_size ++ (ext_rcode ∷ version ∷ []))) _ pos (pos + 6)
            h refl),
    )

find_opt-opt_bytes :
    (n : ℕ) (msg : Bytes) (pos udp_size ext_rcode version ext_flags : ℕ) (rest : Bytes)
    → IsU16 udp_size
    → IsU16 ext_flags
    → 2 ≤ length rest
    → drop pos msg ≡ opt_bytes udp_size ext_rcode version ext_flags rest
    → find_opt (suc n) msg pos ≡ ok (opt_info udp_size version ext_flags)
unfolding find_opt
find_opt-opt_bytes n msg pos udp_size ext_rcode version ext_flags rest hu hf hr h =
    let room = drop-cons-lt msg pos h in
    let behind = drop-behind msg (0 ∷ []) _ pos (pos + 1) h refl in
    rw
      (
        lt→ltb pos (length msg) (omega (arith, room)),
        skip_name-root msg pos _ h,
        ge→ltb (length msg) (pos + 1 + 10) (omega (arith, room)),
        u16_at-be16 msg (pos + 1) 41 _ (omega arith) behind,
      )
      (opt_fields-opt_bytes msg (pos + 1) udp_size ext_rcode version ext_flags rest hu hf hr behind)

-- With no answer and no authority record the first additional record is the OPT record.
parse_opt_lem :
    (msg : Bytes) (n pos udp_size ext_rcode version ext_flags : ℕ) (rest : Bytes)
    → u16_at {E = NoError} msg 6 ≡ ok 0
    → u16_at {E = NoError} msg 8 ≡ ok 0
    → u16_at {E = NoError} msg 10 ≡ ok (suc n)
    → 12 ≤ length msg
    → IsU16 udp_size
    → IsU16 ext_flags
    → 2 ≤ length rest
    → drop pos msg ≡ opt_bytes udp_size ext_rcode version ext_flags rest
    → parse_opt msg pos ≡ ok (opt_info udp_size version ext_flags)
unfolding parse_opt skip_records
parse_opt_lem msg n pos udp_size ext_rcode version ext_flags rest h6 h8 h10 hl hu hf hr h =
    rw (ge→ltb (length msg) 12 hl, h6, h8, h10)
      (find_opt-opt_bytes n msg pos udp_size ext_rcode version ext_flags rest hu hf hr h)

-- Behind the question of a query for a well-formed name without answer and authority records,
-- `parseOPT` reads the size, version and DO bit of an OPT record that comes first among the
-- additional records, whatever follows it.
pub parse_opt-query_message :
    (id flags n : ℕ) (name : Domain) (qtype qclass udp_size ext_rcode version ext_flags : ℕ)
    (rest : Bytes)
    → suc n < 65536
    → IsFqdn name
    → IsU16 udp_size
    → IsU16 ext_flags
    → 2 ≤ length rest
    → parse_opt
        (query_message id flags 0 0
          (suc n)
          name
          qtype
          qclass
          (opt_bytes udp_size ext_rcode version ext_flags rest))
        (17 + length name)
      ≡ ok (opt_info udp_size version ext_flags)
parse_opt-query_message id flags n name qtype qclass udp_size ext_rcode version ext_flags rest hn
      valid hu hf hr =
    let opt = opt_bytes udp_size ext_rcode version ext_flags rest in
    let msg = query_message id flags 0 0 (suc n) name qtype qclass opt in
    let wire = length-write name valid.ends in
    let question : Bytes = write name ++ (be16 qtype ++ be16 qclass) in
    let size : length question ≡ length name + 5 =
      omega (arith, length-append (write name) (be16 qtype ++ be16 qclass), wire) in
    let behind : drop (17 + length name) msg ≡ opt =
      drop-behind msg question opt 12 _ (sym (append_assoc (write name) _ opt))
        (omega (arith, size)) in
    let long : length msg ≡ 12 + length (write name) + (4 + length opt) =
      omega (arith, length-append (write name) (be16 qtype ++ (be16 qclass ++ opt))) in
    parse_opt_lem msg n (17 + length name) udp_size ext_rcode version ext_flags rest
      (u16_at-be16 msg 6 0 _ (omega arith) refl) (u16_at-be16 msg 8 0 _ (omega arith) refl)
      (u16_at-be16 msg 10 (suc n) _ hn refl) (omega (arith, long)) hu hf hr behind

flag_fits : (b : Bool) → IsU16 (if b then edns_do_bit else 0)
flag_fits true = omega arith
flag_fits false = omega arith

do_bit-flag : (b : Bool) → not (bit_and (if b then edns_do_bit else 0) edns_do_bit == 0) ≡ b
do_bit-flag true = refl
do_bit-flag false = refl

opt_record-opt_bytes :
    (do_bit : Bool) (ext_rcode : ℕ)
    → opt_record do_bit ext_rcode
      ≡ opt_bytes 4096 ext_rcode 0 (if do_bit then edns_do_bit else 0) (be16 0)
unfolding opt_record
opt_record-opt_bytes do_bit ext_rcode = refl

-- The OPT record that `AppendOPT` puts behind a message without records is read back by
-- `parseOPT`: EDNS version 0, 4096 bytes, and the DO bit as given.
pub parse_opt-append_opt :
    (txid flags qdcount : ℕ) (body : Bytes) (do_bit : Bool) (ext_rcode : ℕ) (msg : Bytes)
    → append_opt (message txid flags qdcount 0 0 0 body) do_bit ext_rcode ≡ ok msg
    → parse_opt msg (12 + length body)
      ≡ ok (record { present = true; do_bit = do_bit; version = 0; udp_size = 4096 })
unfolding u16_at
parse_opt-append_opt txid flags qdcount body do_bit ext_rcode msg h =
    let opt = opt_record do_bit ext_rcode in
    let built : message txid flags qdcount 0 0 1 (body ++ opt) ≡ msg =
      cc (h, append_opt-message txid flags qdcount 0 0 0 body do_bit ext_rcode (omega arith)) in
    let here = ap (λ t. body ++ t) (opt_record-opt_bytes do_bit ext_rcode) in
    let behind : drop (12 + length body) (message txid flags qdcount 0 0 1 (body ++ opt))
        ≡ opt_bytes 4096 ext_rcode 0 (if do_bit then edns_do_bit else 0) (be16 0) =
      drop-behind (message txid flags qdcount 0 0 1 (body ++ opt)) body _ 12 _ here refl in
    rw (← built) (
      parse_opt_lem (message txid flags qdcount 0 0 1 (body ++ opt)) 0 (12 + length body) 4096
        ext_rcode 0 (if do_bit then edns_do_bit else 0) (be16 0) refl refl refl (omega arith)
        (omega arith) (flag_fits do_bit) (omega arith) behind
      ∙ rw (do_bit-flag do_bit))
