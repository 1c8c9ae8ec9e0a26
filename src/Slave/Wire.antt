-- ===== src/Slave/Wire.antt =====
-- internal/slave/wire.go: the EDNS record of a query.
pub mod Safe
pub mod Opt
use xfx1_dns.Prelude.{
  ℕ, zero, suc, ◌+◌, ◌*◌, ◌/◌, ◌%◌, Bool, true, false, not, bit_and, [], ◌∷◌, ◌&&◌,
}
use xfx1_dns.Prelude.{length, ltb, ◌==◌, if◌then◌else◌}
use xfx1_dns.Prelude.Bytes.{Bytes, at, u16_at}
use xfx1_dns.Prelude.Result.{Result, ok, fault, stuck, ◌>>=◌}
use xfx1_dns.Dns.Response.{edns_do_bit}

pub record EdnsInfo : Type 0 where
  pub present : Bool
  pub do_bit : Bool
  pub version : ℕ
  pub udp_size : ℕ

-- The zero value: no OPT record.
abbrev pub no_edns : EdnsInfo
no_edns = record { present = false; do_bit = false; version = 0; udp_size = 0 }

-- None of the functions below returns an error.
pub data NoError : Type 0 where

-- Each round passes a byte at least, so the fuel `suc (length msg)` is enough.
unfoldable pub skip_loop : ℕ → Bytes → ℕ → Result NoError ℕ
skip_loop zero msg pos = fault stuck
skip_loop (suc fuel) msg pos =
    if ltb pos (length msg)
    then (do
      len ← at msg pos
      if len == 0
          then ok (pos + 1)
          else if bit_and len 0xc0 == 0xc0
          then ok (pos + 2)
          else skip_loop fuel msg (pos + (1 + len)))
    else ok pos

unfoldable pub skip_name : Bytes → ℕ → Result NoError ℕ
skip_name msg pos = skip_loop (suc (length msg)) msg pos

-- What a loop over records ends with: the position behind them, or an early return.
pub data Scan : Type 0 where
  went_on : ℕ → Scan
  returned : EdnsInfo → Scan

-- The loop over answer and authority records: `n` rounds are left.
unfoldable pub skip_records : ℕ → Bytes → ℕ → Result NoError Scan
skip_records zero msg pos = ok (went_on pos)
skip_records (suc n) msg pos =
    if ltb pos (length msg)
    then (do
      behind ← skip_name msg pos
      if ltb (length msg) (behind + 10)
          then ok (returned no_edns)
          else do rdlen ← u16_at msg (behind + 8); skip_records n msg (behind + (10 + rdlen)))
    else ok (went_on pos)

-- The fields of the OPT record whose type stands at `pos`.
unfoldable pub opt_fields : Bytes → ℕ → Result NoError EdnsInfo
opt_fields msg pos = if ltb (length msg) (pos + 10) then ok no_edns else do
  udp_size ← u16_at msg (pos + 2)
  version ← at msg (pos + 5)
  ext_flags ← u16_at msg (pos + 6)
  ok (record {
    present = true;
    do_bit = not (bit_and ext_flags edns_do_bit == 0);
    version = version;
    udp_size = udp_size;
  })

-- The loop over additional records.
unfoldable pub find_opt : ℕ → Bytes → ℕ → Result NoError EdnsInfo
find_opt zero msg pos = ok no_edns
find_opt (suc n) msg pos =
    if ltb pos (length msg)
    then (do
      behind ← skip_name msg pos
      if ltb (length msg) (behind + 10) then ok no_edns else do
        rrtype ← u16_at msg behind
        if rrtype == 41
            then opt_fields msg behind
            else do rdlen ← u16_at msg (behind + 8); find_opt n msg (behind + (10 + rdlen)))
    else ok no_edns

abbrev continue_scan : ℕ → Bytes → Scan → Result NoError EdnsInfo
continue_scan arcount msg (returned info) = ok info
continue_scan arcount msg (went_on pos) = find_opt arcount msg pos

-- `pos` is the position behind the question.
unfoldable pub parse_opt : Bytes → ℕ → Result NoError EdnsInfo
parse_opt msg pos = if ltb (length msg) 12 then ok no_edns else do
  ancount ← u16_at msg 6
  nscount ← u16_at msg 8
  arcount ← u16_at msg 10
  scanned ← skip_records (ancount + nscount) msg pos
  continue_scan arcount msg scanned
