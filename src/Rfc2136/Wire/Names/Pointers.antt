-- ===== src/Rfc2136/Wire/Names/Pointers.antt =====
-- `parseName` on a name of labels that ends in a pointer: the name is right, the count is not.
use xfx1_dns.Prelude.{
  ℕ, zero, suc, ◌+◌, ◌-◌, ◌*◌, ◌%◌, ◌≤◌, ◌<◌, ◌≡◌, inl, refl, ap, ◌∙◌, true, List, [], ◌∷◌, ◌++◌,
  arith, length, drop, All, ltb, bit_and, ◌==◌, if◌then◌else◌, drop-cons-lt, length-append,
  length-drop, holds_up_to, table_sound, All-append,
}
use xfx1_dns.Prelude.Bytes.{Bytes, u16_at, at-drop}
use xfx1_dns.Prelude.Result.{ok}
use xfx1_dns.Rec.Domain.{put_labels}
use xfx1_dns.Rec.Domain.Glue.{parted, glue, put_labels-front, length-le-put_labels}
use xfx1_dns.Rec.Domain.Labels.{render}
use xfx1_dns.Rec.Domain.Valid.{IsLabel}
use xfx1_dns.Rfc2136.Wire.{
  name_loop, name_fuel, parse_name, at_root, after_label, after_pointer, WireError,
}
use xfx1_dns.Rfc2136.Wire.Names.RoundTrip.{
  Counted, name_loop-end, name_loop-label, name_loop-put_labels, dotted-glue,
}

pointer_table : holds_up_to 256 (λ x. if ltb x 192 then true else bit_and x 0xc0 == 0xc0) ≡ true
unfolding holds_up_to
pointer_table = refl

-- The two top bits of a pointer's first byte are set.
bit_and-pointer : (n : ℕ) → 192 ≤ n → n < 256 → bit_and n 0xc0 ≡ 0xc0
bit_and-pointer n h k =
    let found =
      table_sound 256 (λ x. if ltb x 192 then true else bit_and x 0xc0 == 0xc0) n pointer_table k in
    ground (arith, found)

-- The target of a pointer of two bytes.
abbrev pub target_of : ℕ → ℕ → ℕ
target_of hi lo = (hi * 256 + lo) % 16384

module _ (msg : Bytes) where
  u16_at-pair :
      (i a b : ℕ) (r : Bytes)
      → drop i msg ≡ a ∷ b ∷ r
      → u16_at {E = WireError} msg i ≡ ok (a * 256 + b)
  unfolding u16_at
  u16_at-pair i a b r h = rw h

  name_loop-pointer :
      (fuel offset visited consumed hi lo : ℕ) (name r : Bytes)
      → 192 ≤ hi
      → hi < 256
      → drop visited msg ≡ hi ∷ lo ∷ r
      → name_loop (suc fuel) msg offset visited consumed [] name
        ≡ name_loop fuel msg offset
            (target_of hi lo)
            (after_pointer offset visited consumed)
            (target_of hi lo ∷ [])
            name
  unfolding name_loop
  name_loop-pointer fuel offset visited consumed hi lo name r h k e =
      let room = drop-cons-lt msg visited e in
      rw (at-drop msg visited hi (lo ∷ r) e, bit_and-pointer hi h k, u16_at-pair visited hi lo r e)
        (ground (arith, room))

  -- Behind the pointer the count stays, as long as the target ends before the counted bytes.
  name_loop-frozen :
      (ls : List Bytes) (total fuel offset visited consumed : ℕ) (seen : List ℕ) (name r : Bytes)
      → All IsLabel ls
      → total ≡ length ls + suc fuel
      → 0 < consumed
      → visited + length (put_labels ls) < offset + consumed
      → drop visited msg ≡ put_labels ls ++ (0 ∷ r)
      → name_loop total msg offset visited consumed seen name ≡ ok (glue name ls, consumed)
  unfolding glue
  name_loop-frozen ls zero fuel offset visited consumed seen name r hl ht hc hs h =
      absurd (omega arith)
  name_loop-frozen [] (suc total) fuel offset visited consumed seen name r hl ht hc hs h =
      name_loop-end msg total offset visited consumed seen name r h ∙ unfold at_root in ground arith
  name_loop-frozen (l ∷ ls) (suc total) fuel offset visited consumed seen name r (hl, hls) ht hc hs
        h =
      let (here, rest) = put_labels-front msg l ls visited (0 ∷ r) hl h in
      let next = visited + 1 + length l in
      let size = length-append l (put_labels ls) in
      let same : after_label offset next consumed ≡ consumed =
        unfold after_label in ground (arith, size) in
      name_loop-label msg total offset visited consumed seen name l (put_labels ls ++ (0 ∷ r)) hl
        here
      ∙ rw same (
          name_loop-frozen ls total fuel offset next consumed seen (parted name ++ l) r hls
            (omega arith) hc (omega (arith, size)) rest)

glue-append : (name : Bytes) (ls ms : List Bytes) → glue (glue name ls) ms ≡ glue name (ls ++ ms)
unfolding glue
glue-append name [] ms = refl
glue-append name (l ∷ ls) ms = glue-append (parted name ++ l) ls ms

length-labels-le :
    (msg : Bytes) (ls : List Bytes) (offset : ℕ) (r : Bytes)
    → drop offset msg ≡ put_labels ls ++ r
    → length ls ≤ length msg
length-labels-le msg ls offset r h = omega (
  arith,
  ap (length {A = ℕ}) h,
  length-drop offset msg,
  length-append (put_labels ls) r,
  length-le-put_labels ls,
)

-- A name of one label or more that ends in a pointer to an earlier name without compression is put
-- together rightly, but one byte too few is counted as consumed: the labels and one of the two
-- bytes of the pointer.
pub parse_name-pointer :
    (msg : Bytes) (offset hi lo : ℕ) (l : Bytes) (ls ms : List Bytes) (r s : Bytes)
    → All IsLabel (l ∷ ls)
    → All IsLabel ms
    → 192 ≤ hi
    → hi < 256
    → drop offset msg ≡ put_labels (l ∷ ls) ++ (hi ∷ lo ∷ r)
    → drop (target_of hi lo) msg ≡ put_labels ms ++ (0 ∷ s)
    → target_of hi lo + length (put_labels ms) < offset
    → parse_name msg offset ≡ ok (render ((l ∷ ls) ++ ms), length (put_labels (l ∷ ls)) + 1)
unfolding parse_name
parse_name-pointer msg offset hi lo l ls ms r s hl hm h k here there before =
    let all = l ∷ ls in
    let stop = offset + length (put_labels all) in
    let few = length-labels-le msg all offset (hi ∷ lo ∷ r) here in
    let few' = length-labels-le msg ms (target_of hi lo) (0 ∷ s) there in
    let left = name_fuel msg - length all - 1 in
    let (consumed, counted, loop, behind) =
      name_loop-put_labels msg all (name_fuel msg) (suc left) offset offset stop 0 [] (hi ∷ lo ∷ r)
        hl (omega arith) refl (unfold Counted in inl (refl, refl)) here in
    let count : consumed ≡ length (put_labels all) + 1 =
      unfold Counted in ground (arith, counted) in
    let kept : after_pointer offset stop consumed ≡ consumed =
      unfold after_pointer in ground (arith, count) in
    rw (
      loop,
      name_loop-pointer msg left offset stop consumed hi lo (glue [] all) r h k behind,
      kept,
      name_loop-frozen msg ms left (left - length ms - 1) offset (target_of hi lo) consumed
          (target_of hi lo ∷ []) (glue [] all) s hm (omega arith) (omega arith) (omega arith) there,
      glue-append [] all ms,
      dotted-glue (all ++ ms) (λ e. cc) (All-append IsLabel all ms hl hm),
      count,
    )
