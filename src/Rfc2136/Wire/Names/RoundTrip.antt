-- ===== src/Rfc2136/Wire/Names/RoundTrip.antt =====
-- `parseName` reads back a name that was written without compression.
use xfx1_dns.Prelude.{
  ℕ, zero, suc, ◌+◌, ◌-◌, ◌≤◌, ◌<◌, ◌≡◌, ◌≢◌, ◌⊎◌, inl, inr, refl, ap, ◌∙◌, List, [], ◌∷◌, ◌++◌,
  arith, length, drop, All, drop-cons-lt, drop-behind, length-append, length-drop,
}
use xfx1_dns.Prelude.Bytes.{Bytes, at-drop, slice-drop}
use xfx1_dns.Prelude.Result.{ok}
use xfx1_dns.Rec.Domain.{Domain, dot, domain_labels, put_labels, write}
use xfx1_dns.Rec.Domain.Glue.{
  parted, glue, glue-labels, put_labels-front, domain_labels-ne, length-le-put_labels,
}
use xfx1_dns.Rec.Domain.Labels.{render, render-domain_labels}
use xfx1_dns.Rec.Domain.Valid.{IsLabel, IsFqdn}
use xfx1_dns.Rec.Parse.Names.{bit_and-small}
use xfx1_dns.Rfc2136.Wire.{name_loop, name_fuel, parse_name, at_root, after_label, dotted}
use mathlib.Core.List.{append_assoc}

-- As long as no pointer was met, `consumed` is 0 at the start, and else one more than the bytes
-- that were read.
unfoldable pub Counted : ℕ → ℕ → ℕ → Type 0
Counted offset visited consumed =
    ((visited ≡ offset) × (consumed ≡ 0)) ⊎ ((offset < visited) × (consumed ≡ visited - offset + 1))

pub at_root-Counted :
    (offset visited consumed : ℕ)
    → Counted offset visited consumed
    → at_root offset visited consumed ≡ visited - offset + 1
unfolding at_root Counted
at_root-Counted offset visited consumed (inl h) = ground arith
at_root-Counted offset visited consumed (inr h) = ground arith

after_label-Counted :
    (offset visited stop consumed : ℕ)
    → Counted offset visited consumed
    → visited + 1 < stop
    → Counted offset stop (after_label offset stop consumed)
unfolding after_label Counted
after_label-Counted offset visited stop consumed (inl h) k = inr (omega arith, ground arith)
after_label-Counted offset visited stop consumed (inr h) k = inr (omega arith, ground arith)

module _ (msg : Bytes) where
  pub name_loop-end :
      (fuel offset visited consumed : ℕ) (seen : List ℕ) (name r : Bytes)
      → drop visited msg ≡ 0 ∷ r
      → name_loop (suc fuel) msg offset visited consumed seen name
        ≡ ok (name, at_root offset visited consumed)
  unfolding name_loop
  name_loop-end fuel offset visited consumed seen name r h =
      let room = drop-cons-lt msg visited h in rw (at-drop msg visited 0 r h) (ground (arith, room))

  pub name_loop-label :
      (fuel offset visited consumed : ℕ) (seen : List ℕ) (name l r : Bytes)
      → IsLabel l
      → drop visited msg ≡ length l ∷ (l ++ r)
      → name_loop (suc fuel) msg offset visited consumed seen name
        ≡ name_loop fuel msg offset
            (visited + 1 + length l)
            (after_label offset (visited + 1 + length l) consumed)
            seen
            (parted name ++ l)
  unfolding name_loop
  name_loop-label fuel offset visited consumed seen name l r hl h =
      let room : length msg ≡ visited + suc (length l + length r) =
        omega (arith, drop-cons-lt msg visited h, length-append l r) in
      let behind = drop-behind msg (length l ∷ []) (l ++ r) visited (visited + 1) h refl in
      rw
        (
          at-drop msg visited (length l) (l ++ r) h,
          bit_and-small (length l) (omega (arith, hl)),
          slice-drop msg l r (visited + 1) (visited + 1 + length l) (omega (arith, room)) behind
              refl,
        )
        (ground (arith, room, hl))

  -- The labels up to a root or a pointer at `stop`; `fuel` is left of `total` then.
  pub name_loop-put_labels :
      (ls : List Bytes) (total fuel offset visited stop consumed : ℕ) (name r : Bytes)
      → All IsLabel ls
      → total ≡ length ls + fuel
      → stop ≡ visited + length (put_labels ls)
      → Counted offset visited consumed
      → drop visited msg ≡ put_labels ls ++ r
      → (consumed' : ℕ) × Counted offset stop consumed'
        × (name_loop total msg offset visited consumed [] name
            ≡ name_loop fuel msg offset stop consumed' [] (glue name ls))
        × (drop stop msg ≡ r)
  unfolding glue
  name_loop-put_labels [] total fuel offset visited stop consumed name r hl ht hs c h =
      let same_fuel : total ≡ fuel = omega arith in
      let same_stop : stop ≡ visited = omega arith in
      (consumed, rw same_stop c, rw (same_fuel, same_stop) refl, rw same_stop h)
  name_loop-put_labels (l ∷ ls) zero fuel offset visited stop consumed name r hl ht hs c h =
      absurd (omega arith)
  name_loop-put_labels (l ∷ ls) (suc total) fuel offset visited stop consumed name r (hl, hls) ht hs
        c h =
      let (here, rest) = put_labels-front msg l ls visited r hl h in
      let next = visited + 1 + length l in
      let size = length-append l (put_labels ls) in
      let (consumed', counted, loop, behind) =
        name_loop-put_labels ls total fuel offset next stop (after_label offset next consumed)
          (parted name ++ l) r hls (omega arith) (omega (arith, size))
          (after_label-Counted offset visited next consumed c (omega (arith, hl.nonempty))) rest in
      (
        consumed',
        counted,
        name_loop-label total offset visited consumed [] name l (put_labels ls ++ r) hl here ∙ loop,
        behind,
      )

-- The fuel that is left behind the labels of a name that lies in the message.
fuel_left :
    (msg : Bytes) (ls : List Bytes) (offset : ℕ) (r : Bytes)
    → drop offset msg ≡ put_labels ls ++ r
    → (fuel : ℕ) × (name_fuel msg ≡ length ls + suc (suc fuel))
fuel_left msg ls offset r h =
    let room : length ls ≤ length msg = omega (
      arith,
      ap (length {A = ℕ}) h,
      length-drop offset msg,
      length-append (put_labels ls) r,
      length-le-put_labels ls,
    ) in
    (name_fuel msg - length ls - 2, omega arith)

dotted-parted : (name : Bytes) → dotted name ≡ name ++ (dot ∷ [])
dotted-parted [] = refl
dotted-parted (c ∷ s) = refl

pub dotted-glue : (ls : List Bytes) → ls ≢ [] → All IsLabel ls → dotted (glue [] ls) ≡ render ls
dotted-glue ls ne h = dotted-parted (glue [] ls) ∙ glue-labels ls ne h

-- Where a well-formed name was written without compression, `parseName` returns it and the bytes
-- that it takes.
pub parse_name-write :
    (msg : Bytes) (offset : ℕ) (d : Domain) (r : Bytes)
    → IsFqdn d
    → drop offset msg ≡ write d ++ r
    → parse_name msg offset ≡ ok (d, length (write d))
unfolding parse_name
parse_name-write msg offset d r f h =
    let ls = domain_labels d in
    let here : drop offset msg ≡ put_labels ls ++ (0 ∷ r) =
      h ∙ unfold write in append_assoc (put_labels ls) (0 ∷ []) r in
    let (fuel, enough) = fuel_left msg ls offset (0 ∷ r) here in
    let stop = offset + length (put_labels ls) in
    let (consumed, counted, loop, behind) =
      name_loop-put_labels msg ls (name_fuel msg) (suc (suc fuel)) offset offset stop 0 [] (0 ∷ r)
        f.labels enough refl (unfold Counted in inl (refl, refl)) here in
    let size : length (write d) ≡ length (put_labels ls) + 1 =
      unfold write in length-append (put_labels ls) (0 ∷ []) in
    rw
      (
        loop,
        name_loop-end msg (suc fuel) offset stop consumed [] (glue [] ls) r behind,
        at_root-Counted offset stop consumed counted,
      )
      (ground (
        arith,
        size,
        dotted-glue ls (domain_labels-ne d f.ends) f.labels ∙ render-domain_labels d f.ends,
      ))
