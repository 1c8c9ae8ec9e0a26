-- ===== src/Rfc2136/Wire/Names.antt =====
-- `parseName` returns on every input, compressed or not.
pub mod RoundTrip
pub mod Pointers
use xfx1_dns.Prelude.{
  ℕ, zero, suc, ◌+◌, ◌-◌, ◌*◌, ◌%◌, ◌≤◌, ◌<◌, ◌≡◌, refl, sym, ap, ◌∙◌, Bool, true, false, List, [],
  ◌∷◌, ◌++◌, arith,
}
use xfx1_dns.Prelude.{length, any, leb, ltb, not, bit_and, ◌==◌, if◌then◌else◌, leb→gt, ltb→ge}
use xfx1_dns.Prelude.Bytes.{Bytes, at, slice, u16_at, at-Returns, slice-Returns, u16_at-Returns}
use xfx1_dns.Prelude.Result.{ok, Returns, Returns-if, Returns-bind, Returns-ok, Returns-err}
use xfx1_dns.Rfc2136.Wire.{name_loop, name_fuel, parse_name, parted, after_label, after_pointer}
use xfx1_dns.Prelude.{Bool-cases}
use xfx1_dns.Prelude.{inl}
use xfx1_dns.Prelude.{inr}

abbrev met : ℕ → List ℕ → Bool
met p seen = any (λ q. q == p) seen

-- How many numbers below `n` have not been met.
unmet : ℕ → List ℕ → ℕ
unmet zero seen = 0
unmet (suc n) seen = (if met n seen then 0 else 1) + unmet n seen

unmet-all : (n : ℕ) → unmet n [] ≡ n
unfolding unmet
unmet-all zero = refl
unmet-all (suc n) = omega (arith, unmet-all n)

-- A number from `n` on does not count.
unmet-above : (n p : ℕ) (seen : List ℕ) → n ≤ p → unmet n (p ∷ seen) ≡ unmet n seen
unfolding unmet
unmet-above zero p seen h = refl
unmet-above (suc n) p seen h = ground (arith, unmet-above n p seen)

-- A number that is met for the first time counts once.
unmet-fresh :
    (n p : ℕ) (seen : List ℕ) → met p seen ≡ false → p < n → unmet n (p ∷ seen) + 1 ≡ unmet n seen
unfolding unmet
unmet-fresh zero p seen h k = absurd (omega arith)
unmet-fresh (suc n) p seen h k = elim (Bool-cases (p == n)) [
  | inl e ↦
      let same : p ≡ n = ground arith in
      ground (arith, unmet-above n p seen, same, h, ap (λ q. met q seen) same)
  | inr e ↦ ground (arith, unmet-fresh n p seen)
]

-- The rounds that are left: a whole pass over the message for each target not met, and the bytes
-- behind the position.
abbrev rounds : Bytes → ℕ → List ℕ → ℕ
rounds msg visited seen = unmet 16384 seen * suc (length msg) + (length msg - visited)

rounds-label :
    (msg : Bytes) (visited stop fuel : ℕ) (seen : List ℕ)
    → rounds msg visited seen < suc fuel
    → visited < stop
    → stop ≤ length msg
    → rounds msg stop seen < fuel
rounds-label msg visited stop fuel seen h k l = omega arith

rounds-pointer :
    (msg : Bytes) (visited target fuel : ℕ) (seen : List ℕ)
    → rounds msg visited seen < suc fuel
    → visited < length msg
    → met target seen ≡ false
    → target < 16384
    → rounds msg target (target ∷ seen) < fuel
rounds-pointer msg visited target fuel seen h v m t =
    let fewer = unmet-fresh 16384 target seen m t in
    omega (arith, ap (λ (k : ℕ). k * suc (length msg)) fewer)

name_loop-Returns :
    (fuel : ℕ) (msg : Bytes) (offset visited consumed : ℕ) (seen : List ℕ) (name : Bytes)
    → rounds msg visited seen < fuel
    → Returns (name_loop fuel msg offset visited consumed seen name)
unfolding name_loop
name_loop-Returns zero msg offset visited consumed seen name h = absurd (omega arith)
name_loop-Returns (suc fuel) msg offset visited consumed seen name h =
    Returns-if (leb (length msg) visited) _ _ (λ _. Returns-err _)
      λ inside.
        let room : visited < length msg = leb→gt _ _ inside in
        Returns-bind (at msg visited) _ (at-Returns msg visited room) λ len _.
          Returns-if (len == 0) _ _ (λ _. Returns-ok _)
            λ nonzero.
              Returns-if (bit_and len 0xc0 == 0xc0) _ _
                (λ _.
                  Returns-if (leb (length msg) (visited + 1)) _ _ (λ _. Returns-err _)
                    λ two.
                      Returns-bind (u16_at msg visited) _
                        (u16_at-Returns msg visited (omega (arith, leb→gt _ _ two)))
                        λ word _.
                          Returns-if (met (word % 16384) seen) _ _ (λ _. Returns-err _)
                            λ fresh.
                              name_loop-Returns fuel msg offset (word % 16384)
                                (after_pointer offset visited consumed) (word % 16384 ∷ seen) name
                                (rounds-pointer msg visited (word % 16384) fuel seen h room fresh
                                  (omega arith)))
                λ _.
                  Returns-if (not (bit_and len 0xc0 == 0)) _ _ (λ _. Returns-err _)
                    λ _.
                      Returns-if (ltb (length msg) (visited + 1 + len)) _ _ (λ _. Returns-err _)
                        λ outside.
                          let fits : visited + 1 + len ≤ length msg = ltb→ge _ _ outside in
                          Returns-bind (slice msg (visited + 1) (visited + 1 + len)) _
                            (slice-Returns msg (visited + 1) (visited + 1 + len) (omega arith) fits)
                            λ label _.
                              name_loop-Returns fuel msg offset (visited + 1 + len)
                                (after_label offset (visited + 1 + len) consumed) seen
                                (parted name ++ label)
                                (rounds-label msg visited (visited + 1 + len) fuel seen h
                                  (omega arith) fits)

-- `parseName` neither panics nor loops for ever, on any bytes and from any offset: a chain of
-- pointers ends or meets a target twice.
pub parse_name-Returns : (msg : Bytes) (offset : ℕ) → Returns (parse_name msg offset)
unfolding parse_name
parse_name-Returns msg offset =
    Returns-bind (name_loop (name_fuel msg) msg offset offset 0 [] []) _
      (name_loop-Returns (name_fuel msg) msg offset offset 0 [] []
        (omega (arith, ap (λ (k : ℕ). k * suc (length msg)) (unmet-all 16384))))
      λ (name, consumed) _. Returns-ok _
