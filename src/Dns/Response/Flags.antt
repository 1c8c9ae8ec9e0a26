-- ===== src/Dns/Response/Flags.antt =====
-- The flag words of responses, bit by bit.
use xfx1_dns.Prelude.{
  ℕ, ◌+◌, ◌*◌, ◌/◌, ◌%◌, ◌<◌, ◌≡◌, refl, Bool, true, false, bit_and, bit_or, arith, ◌==◌,
  if◌then◌else◌, holds_up_to, table_sound, ==_iff,
}
use xfx1_dns.Prelude.Bytes.{IsU16}
use xfx1_dns.Dns.Response.{response_flags, truncated_flags}

rd_table : holds_up_to 65536 (λ x. bit_and x 0x100 == x / 256 % 2 * 256) ≡ true
unfolding holds_up_to
rd_table = refl

rd_bit : (x : ℕ) → IsU16 x → bit_and x 0x100 ≡ x / 256 % 2 * 256
rd_bit x h = (==_iff _ _).0 (table_sound 65536 _ x rd_table h)

nibble_table : holds_up_to 65536 (λ x. bit_and x 0xf == x % 16) ≡ true
unfolding holds_up_to
nibble_table = refl

low_nibble : (x : ℕ) → IsU16 x → bit_and x 0xf ≡ x % 16
low_nibble x h = (==_iff _ _).0 (table_sound 65536 _ x nibble_table h)

-- The four flag bits that are set do not overlap.
joined : ℕ → ℕ → Bool
joined r c = bit_or (bit_or 0x8400 (r * 256)) c == 33792 + r * 256 + c

joined_table : holds_up_to 2 (λ r. holds_up_to 16 (joined r)) ≡ true
unfolding holds_up_to joined
joined_table = refl

joined_sum : (r c : ℕ) → r < 2 → c < 16 → bit_or (bit_or 0x8400 (r * 256)) c ≡ 33792 + r * 256 + c
joined_sum r c hr hc = (==_iff _ _).0 (
    unfold joined in
    table_sound 16 (joined r) c (table_sound 2 (λ r. holds_up_to 16 (joined r)) r joined_table hr)
      hc)

tc_sum : (r : ℕ) → r < 2 → bit_or 0x8200 (r * 256) ≡ 33280 + r * 256
tc_sum r h = (==_iff _ _).0 (
    table_sound 2 (λ r. bit_or 0x8200 (r * 256) == 33280 + r * 256) r (unfold holds_up_to in refl)
      h)

tc_aa_sum : (r : ℕ) → r < 2 → bit_or (33280 + r * 256) 0x400 ≡ 34304 + r * 256
tc_aa_sum r h = (==_iff _ _).0 (
    table_sound 2 (λ r. bit_or (33280 + r * 256) 0x400 == 34304 + r * 256) r
      (unfold holds_up_to in refl) h)

-- What a flag word says.
abbrev pub qr_of : ℕ → ℕ
qr_of flags = flags / 32768 % 2

abbrev pub opcode_of : ℕ → ℕ
opcode_of flags = flags / 2048 % 16

abbrev pub aa_of : ℕ → ℕ
aa_of flags = flags / 1024 % 2

abbrev pub tc_of : ℕ → ℕ
tc_of flags = flags / 512 % 2

abbrev pub rd_of : ℕ → ℕ
rd_of flags = flags / 256 % 2

pub response_flags_sum :
    (query_flags rcode : ℕ)
    → IsU16 query_flags
    → IsU16 rcode
    → response_flags query_flags rcode ≡ 33792 + rd_of query_flags * 256 + rcode % 16
unfolding response_flags
response_flags_sum query_flags rcode hq hr =
    rw (rd_bit query_flags hq, low_nibble rcode hr)
      (joined_sum (rd_of query_flags) (rcode % 16) (omega arith) (omega arith))

-- A response is marked as one, authoritative and not truncated, has opcode 0 whatever the query's
-- opcode was, copies RD from the query, and carries the low four bits of the rcode.
pub response_flags_bits :
    (query_flags rcode : ℕ)
    → IsU16 query_flags
    → IsU16 rcode
    → let flags = response_flags query_flags rcode in
      (qr_of flags ≡ 1)
      × (opcode_of flags ≡ 0)
      × (aa_of flags ≡ 1)
      × (tc_of flags ≡ 0)
      × (rd_of flags ≡ rd_of query_flags)
      × (flags % 16 ≡ rcode % 16)
      × IsU16 flags
response_flags_bits query_flags rcode hq hr =
    omega (arith, response_flags_sum query_flags rcode hq hr)

-- The flags of a truncated response are the sum of QR and TC, of the query's RD bit, and of AA
-- where it is asked for.
pub truncated_flags_sum :
    (query_flags : ℕ) (aa : Bool)
    → IsU16 query_flags
    → truncated_flags query_flags aa ≡ 33280 + rd_of query_flags * 256 + (if aa then 1024 else 0)
unfolding truncated_flags
truncated_flags_sum query_flags true h =
    rw
      (
        rd_bit query_flags h,
        tc_sum (rd_of query_flags) (omega arith),
        tc_aa_sum (rd_of query_flags) (omega arith),
      )
      (omega arith)
truncated_flags_sum query_flags false h =
    rw (rd_bit query_flags h, tc_sum (rd_of query_flags) (omega arith)) (omega arith)
