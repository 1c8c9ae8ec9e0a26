-- ===== src/Prelude/Bytes.antt =====
-- Byte slices and Go strings as lists of numbers below 256, with Go's range checks.
use Prim.Native.Nat.{ℕ, ◌+◌, ◌-◌, ◌*◌, ◌/◌, ◌%◌, ◌≤◌, ◌<◌}
use Prim.Native.Char.{code}
use Prim.Native.String.{String}
use mathlib.Core.Path.{◌≡◌, refl, ap}
use mathlib.Core.Logic.{◌↔◌, inl, inr}
use mathlib.Core.Bool.{Bool, true, false, ◌&&◌}
use mathlib.Core.List.{List, [], ◌∷◌, ◌++◌}
use mathlib.Core.Option.{Option, none, some}
use native.Mathlib.Omega.{arith}
use xfx1_dns.Prelude.Tests.{◌==◌, ltb, ge→ltb, if◌then◌else◌, Bool-cases, ltb→ge}
use xfx1_dns.Prelude.Lists.{
  length, get_elem?, set, take, drop, length-drop, length-append, take-append, get_elem?-some,
  get_elem?-drop, length-take,
}
use xfx1_dns.Prelude.Result.{Result, ok, fault, panic, Returns, Returns-ok}

abbrev pub Bytes : Type 0
Bytes = List ℕ

abbrev pub IsByte : ℕ → Type 0
IsByte b = b < 256

abbrev pub IsU16 : ℕ → Type 0
IsU16 n = n < 65536

abbrev pub IsU32 : ℕ → Type 0
IsU32 n = n < 4294967296

-- The code points of a text: its bytes, if it is ASCII.
abbrev pub codes : String → Bytes
codes String.[] = []
codes (String.◌∷◌ c s) = code c ∷ codes s

-- a == b on strings.
unfoldable pub bytes_eq : Bytes → Bytes → Bool
bytes_eq [] [] = true
bytes_eq [] (y ∷ ys) = false
bytes_eq (x ∷ xs) [] = false
bytes_eq (x ∷ xs) (y ∷ ys) = x == y && bytes_eq xs ys

pub bytes_eq_iff : (a b : Bytes) → (bytes_eq a b ≡ true) ↔ (a ≡ b)
unfolding bytes_eq
bytes_eq_iff [] [] = ground arith
bytes_eq_iff [] (y ∷ ys) = ground arith
bytes_eq_iff (x ∷ xs) [] = ground arith
bytes_eq_iff (x ∷ xs) (y ∷ ys) = ground (arith, bytes_eq_iff xs ys)

-- binary.BigEndian.AppendUint16 and binary.Write of a uint16 or a uint32.
abbrev pub be16 : ℕ → Bytes
be16 n = (n / 256 % 256) ∷ (n % 256) ∷ []

abbrev pub be32 : ℕ → Bytes
be32 n = (n / 16777216 % 256) ∷ (n / 65536 % 256) ∷ (n / 256 % 256) ∷ (n % 256) ∷ []

module _ {E : Type 0} where
  abbrev or_panic {κ} : {A : Type κ} → Option A → Result E A
  or_panic none = fault panic
  or_panic (some a) = ok a

  -- msg[i], which panics out of range.
  unfoldable pub at : Bytes → ℕ → Result E ℕ
  at msg i = or_panic (get_elem? msg i)

  -- msg[i:j], which panics unless i ≤ j ≤ len(msg).
  unfoldable pub slice : Bytes → ℕ → ℕ → Result E Bytes
  slice msg i j =
      if ltb j i
      then fault panic
      else if ltb (length msg) j
      then fault panic
      else ok (take (j - i) (drop i msg))

  word16 : Bytes → Result E ℕ
  word16 (a ∷ b ∷ r) = ok (a * 256 + b)
  word16 (a ∷ []) = fault panic
  word16 [] = fault panic

  word32 : Bytes → Result E ℕ
  word32 (a ∷ b ∷ c ∷ d ∷ r) = ok (a * 16777216 + b * 65536 + c * 256 + d)
  word32 _ = fault panic

  -- binary.BigEndian.Uint16(msg[i : i+2])
  unfoldable pub u16_at : Bytes → ℕ → Result E ℕ
  unfolding word16
  u16_at msg i = word16 (drop i msg)

  -- binary.BigEndian.Uint32(msg[i : i+4])
  unfoldable pub u32_at : Bytes → ℕ → Result E ℕ
  unfolding word32
  u32_at msg i = word32 (drop i msg)

-- binary.BigEndian.PutUint16(msg[i:i+2], n) in range.
abbrev pub put16 : Bytes → ℕ → ℕ → Bytes
put16 msg i n = set (set msg i (n / 256 % 256)) (i + 1) (n % 256)

-- The bytes at a position, where the message is known to have them.
module _ {E : Type 0} where
  pub at-drop : (msg : Bytes) (i b : ℕ) (r : Bytes) → drop i msg ≡ b ∷ r → at {E = E} msg i ≡ ok b
  unfolding at
  at-drop msg i b r h = rw (get_elem?-drop msg i b r h)

  -- msg[i:j] where `l` stands at `i` and `j` is its end.
  pub slice-drop :
      (msg l r : Bytes) (i j : ℕ)
      → i ≤ length msg
      → drop i msg ≡ l ++ r
      → j ≡ i + length l
      → slice {E = E} msg i j ≡ ok l
  unfolding slice
  slice-drop msg l r i j hi h e =
      let room : length l ≤ length msg - i =
        omega (arith, ap (length {A = ℕ}) h, length-drop i msg, length-append l r) in
      let n : j - i ≡ length l = omega arith in
      rw (ge→ltb j i (omega arith), ge→ltb (length msg) j (omega arith), h, n)
        (ap ok (take-append l r))

  pub at-ok : (msg : Bytes) (i : ℕ) → i < length msg → (b : ℕ) × (at {E = E} msg i ≡ ok b)
  unfolding at
  at-ok msg i h = let (b, e) = get_elem?-some msg i h in (b, rw e)

  pub slice-ok :
      (msg : Bytes) (i j : ℕ)
      → i ≤ j
      → j ≤ length msg
      → slice {E = E} msg i j ≡ ok (take (j - i) (drop i msg))
  unfolding slice
  slice-ok msg i j h k = ground arith

  pub u16_at-ok :
      (msg : Bytes) (i : ℕ) → i + 2 ≤ length msg → (n : ℕ) × (u16_at {E = E} msg i ≡ ok n)
  unfolding u16_at
  u16_at-ok msg i h = go (drop i msg) (omega (arith, length-drop i msg))
    where
      go : (r : Bytes) → 2 ≤ length r → (n : ℕ) × (word16 {E = E} r ≡ ok n)
      go [] h = absurd (omega arith)
      go (a ∷ []) h = absurd (omega arith)
      go (a ∷ b ∷ r) h = (a * 256 + b, refl)

-- In range, none of these panics.
module _ {E : Type 0} where
  pub at-Returns : (msg : Bytes) (i : ℕ) → i < length msg → Returns (at {E = E} msg i)
  at-Returns msg i h = let (b, e) = at-ok {E = E} msg i h in rw e (Returns-ok _)

  pub slice-Returns :
      (msg : Bytes) (i j : ℕ) → i ≤ j → j ≤ length msg → Returns (slice {E = E} msg i j)
  slice-Returns msg i j h k = rw (slice-ok {E = E} msg i j h k) (Returns-ok _)

  pub u16_at-Returns : (msg : Bytes) (i : ℕ) → i + 2 ≤ length msg → Returns (u16_at {E = E} msg i)
  u16_at-Returns msg i h = let (n, e) = u16_at-ok {E = E} msg i h in rw e (Returns-ok _)

  pub u32_at-Returns : (msg : Bytes) (i : ℕ) → i + 4 ≤ length msg → Returns (u32_at {E = E} msg i)
  unfolding u32_at
  u32_at-Returns msg i h = go (drop i msg) (omega (arith, length-drop i msg))
    where
      go : (r : Bytes) → 4 ≤ length r → Returns (word32 {E = E} r)
      go [] h = absurd (omega arith)
      go (a ∷ []) h = absurd (omega arith)
      go (a ∷ b ∷ []) h = absurd (omega arith)
      go (a ∷ b ∷ c ∷ []) h = absurd (omega arith)
      go (a ∷ b ∷ c ∷ d ∷ r) h = Returns-ok _

  pub length-slice :
      (msg : Bytes) (i j : ℕ) (l : Bytes) → slice {E = E} msg i j ≡ ok l → length l + i ≡ j
  unfolding slice
  length-slice msg i j l h = elim (Bool-cases (ltb j i)) [
    | inl e ↦ cc (rw e at h)
    | inr e ↦ elim (Bool-cases (ltb (length msg) j)) [
      | inl k ↦ cc (rw (e, k) at h)
      | inr k ↦
          let same : take (j - i) (drop i msg) ≡ l = cc (rw (e, k) at h) in
          rw (← same) (
            omega (
              arith,
              length-take (j - i) (drop i msg)
                  (omega (arith, length-drop i msg, ltb→ge _ _ e, ltb→ge _ _ k)),
              ltb→ge _ _ e,
            ))
    ]
  ]

pub word_of_be16 : (n : ℕ) → IsU16 n → n / 256 % 256 * 256 + n % 256 ≡ n
word_of_be16 n h = omega arith

-- Numbers in 16 and 32 bits are read back.
module _ {E : Type 0} (msg : Bytes) (pos n : ℕ) (r : Bytes) where
  pub u16_at-be16 : IsU16 n → drop pos msg ≡ be16 n ++ r → u16_at {E = E} msg pos ≡ ok n
  unfolding u16_at
  u16_at-be16 h e = rw e (ap ok (word_of_be16 n h))

  pub u32_at-be32 : IsU32 n → drop pos msg ≡ be32 n ++ r → u32_at {E = E} msg pos ≡ ok n
  unfolding u32_at
  u32_at-be32 h e =
      let whole : n / 16777216 % 256 * 16777216
            + n / 65536 % 256 * 65536
            + n / 256 % 256 * 256
            + n % 256
          ≡ n =
        omega arith in
      rw e (ap ok whole)
