-- ===== src/Dnssec/Order.antt =====
-- The order of hashes.
use xfx1_dns.Prelude.{◌≡◌, refl, true, false, [], ◌∷◌, arith}
use xfx1_dns.Dnssec.{before}
use xfx1_dns.Rec.Domain.{compare_bytes}
use xfx1_dns.Prelude.Bytes.{Bytes}

pub before_irrefl : (a : Bytes) → before a a ≡ false
unfolding compare_bytes
before_irrefl [] = refl
before_irrefl (x ∷ a) = ground (arith, before_irrefl a)

pub before_trans : (a b c : Bytes) → before a b ≡ true → before b c ≡ true → before a c ≡ true
unfolding compare_bytes
before_trans [] [] c h k = cc
before_trans [] (y ∷ b) [] h k = cc
before_trans [] (y ∷ b) (z ∷ c) h k = refl
before_trans (x ∷ a) [] c h k = cc
before_trans (x ∷ a) (y ∷ b) [] h k = cc
before_trans (x ∷ a) (y ∷ b) (z ∷ c) h k = ground (arith, before_trans a b c)

pub before_total : (a b : Bytes) → before a b ≡ false → before b a ≡ false → a ≡ b
unfolding compare_bytes
before_total [] [] h k = refl
before_total [] (y ∷ b) h k = cc
before_total (x ∷ a) [] h k = cc
before_total (x ∷ a) (y ∷ b) h k = ground (arith, before_total a b)
