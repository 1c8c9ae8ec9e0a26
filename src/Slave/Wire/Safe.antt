-- ===== src/Slave/Wire/Safe.antt =====
-- `parseOPT` returns on every message.
use xfx1_dns.Prelude.{
  ℕ, zero, suc, ◌+◌, ◌≤◌, ◌<◌, bit_and, length, ltb, ◌==◌, arith, ltb→lt, ltb→ge,
}
use xfx1_dns.Prelude.Bytes.{Bytes, at, u16_at, at-Returns, u16_at-Returns}
use xfx1_dns.Prelude.Result.{Returns, Returns-if, Returns-bind, Returns-ok}
use xfx1_dns.Slave.Wire.{
  Scan, went_on, returned, skip_loop, skip_name, skip_records, opt_fields, find_opt, continue_scan,
  parse_opt,
}

skip_loop-Returns :
    (fuel : ℕ) (msg : Bytes) (pos : ℕ)
    → length msg < fuel + pos
    → 0 < fuel
    → Returns (skip_loop fuel msg pos)
unfolding skip_loop
skip_loop-Returns zero msg pos h p = absurd (omega arith)
skip_loop-Returns (suc fuel) msg pos h p =
    Returns-if (ltb pos (length msg)) _ _
      (λ inside. Returns-bind (at msg pos) _ (at-Returns msg pos (ltb→lt _ _ inside)) λ len _.
        Returns-if (len == 0) _ _ (λ _. Returns-ok _)
          λ _.
            Returns-if (bit_and len 0xc0 == 0xc0) _ _ (λ _. Returns-ok _)
              λ _.
                skip_loop-Returns fuel msg (pos + (1 + len)) (omega arith)
                  (omega (arith, ltb→lt _ _ inside)))
      λ _. Returns-ok _

skip_name-Returns : (msg : Bytes) (pos : ℕ) → Returns (skip_name msg pos)
unfolding skip_name
skip_name-Returns msg pos = skip_loop-Returns (suc (length msg)) msg pos (omega arith) (omega arith)

skip_records-Returns : (n : ℕ) (msg : Bytes) (pos : ℕ) → Returns (skip_records n msg pos)
unfolding skip_records
skip_records-Returns zero msg pos = Returns-ok _
skip_records-Returns (suc n) msg pos =
    Returns-if (ltb pos (length msg)) _ _
      (λ _. Returns-bind (skip_name msg pos) _ (skip_name-Returns msg pos) λ behind _.
        Returns-if (ltb (length msg) (behind + 10)) _ _ (λ _. Returns-ok _)
          λ room.
            Returns-bind (u16_at msg (behind + 8)) _
              (u16_at-Returns msg (behind + 8) (omega (arith, ltb→ge _ _ room)))
              λ rdlen _. skip_records-Returns n msg (behind + (10 + rdlen)))
      λ _. Returns-ok _

opt_fields-Returns : (msg : Bytes) (pos : ℕ) → Returns (opt_fields msg pos)
unfolding opt_fields
opt_fields-Returns msg pos =
    Returns-if (ltb (length msg) (pos + 10)) _ _ (λ _. Returns-ok _)
      λ outside.
        let room : pos + 10 ≤ length msg = ltb→ge _ _ outside in
        Returns-bind (u16_at msg (pos + 2)) _ (u16_at-Returns msg (pos + 2) (omega arith))
          λ udp_size _.
            Returns-bind (at msg (pos + 5)) _ (at-Returns msg (pos + 5) (omega arith)) λ version _.
              Returns-bind (u16_at msg (pos + 6)) _ (u16_at-Returns msg (pos + 6) (omega arith))
                λ ext_flags _. Returns-ok _

find_opt-Returns : (n : ℕ) (msg : Bytes) (pos : ℕ) → Returns (find_opt n msg pos)
unfolding find_opt
find_opt-Returns zero msg pos = Returns-ok _
find_opt-Returns (suc n) msg pos =
    Returns-if (ltb pos (length msg)) _ _
      (λ _. Returns-bind (skip_name msg pos) _ (skip_name-Returns msg pos) λ behind _.
        Returns-if (ltb (length msg) (behind + 10)) _ _ (λ _. Returns-ok _)
          λ outside.
            let room : behind + 10 ≤ length msg = ltb→ge _ _ outside in
            Returns-bind (u16_at msg behind) _ (u16_at-Returns msg behind (omega arith)) λ rrtype _.
              Returns-if (rrtype == 41) _ _ (λ _. opt_fields-Returns msg behind)
                λ _.
                  Returns-bind (u16_at msg (behind + 8)) _
                    (u16_at-Returns msg (behind + 8) (omega arith))
                    λ rdlen _. find_opt-Returns n msg (behind + (10 + rdlen)))
      λ _. Returns-ok _

continue_scan-Returns :
    (arcount : ℕ) (msg : Bytes) (s : Scan) → Returns (continue_scan arcount msg s)
continue_scan-Returns arcount msg (returned info) = Returns-ok _
continue_scan-Returns arcount msg (went_on pos) = find_opt-Returns arcount msg pos

-- `parseOPT` neither panics nor loops for ever, on any bytes and from any position.
pub parse_opt-Returns : (msg : Bytes) (pos : ℕ) → Returns (parse_opt msg pos)
unfolding parse_opt
parse_opt-Returns msg pos =
    Returns-if (ltb (length msg) 12) _ _ (λ _. Returns-ok _)
      λ short.
        let room : 12 ≤ length msg = ltb→ge _ _ short in
        Returns-bind (u16_at msg 6) _ (u16_at-Returns msg 6 (omega arith)) λ ancount _.
          Returns-bind (u16_at msg 8) _ (u16_at-Returns msg 8 (omega arith)) λ nscount _.
            Returns-bind (u16_at msg 10) _ (u16_at-Returns msg 10 (omega arith)) λ arcount _.
              Returns-bind (skip_records (ancount + nscount) msg pos) _
                (skip_records-Returns (ancount + nscount) msg pos)
                λ scanned _. continue_scan-Returns arcount msg scanned
