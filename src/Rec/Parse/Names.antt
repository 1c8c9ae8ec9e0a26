-- ===== src/Rec/Parse/Names.antt =====
-- `parseDNSName` reads back what `Domain.Write` writes, and returns on every input.
use xfx1_dns.Prelude.{
  ℕ, zero, suc, ◌+◌, ◌-◌, ◌%◌, ◌≤◌, ◌<◌, ◌≡◌, refl, sym, ap, ◌∙◌, true, List, [], ◌∷◌, ◌++◌, length,
  drop, All, arith, bit_and, not, leb, ltb, ◌==◌, length-append, drop-behind, drop-cons-lt,
  length-drop, holds_up_to, table_sound, ltb→ge, ==_iff, leb→gt,
}
use xfx1_dns.Prelude.Bytes.{Bytes, at, slice, at-drop, slice-drop, at-Returns, slice-Returns}
use xfx1_dns.Prelude.Result.{ok, Returns, Returns-bind, Returns-if, Returns-ok, Returns-err}
use xfx1_dns.Rec.Domain.{Domain, dot, ends_dot, domain_labels, put_labels, write}
use xfx1_dns.Rec.Domain.Labels.{render, render-domain_labels}
use xfx1_dns.Rec.Domain.Valid.{IsLabel, IsFqdn}
use xfx1_dns.Rec.Parse.{name_loop, join_dots, full_name, parse_dns_name}
use native.Mathlib.Nat.{add-zero}
use mathlib.Core.List.{append_assoc, append-nil}

small_table : holds_up_to 64 (λ x. bit_and x 0xc0 == 0) ≡ true
unfolding holds_up_to
small_table = refl

-- The two top bits of a label's length are clear.
pub bit_and-small : (n : ℕ) → n < 64 → bit_and n 0xc0 ≡ 0
bit_and-small n h = (==_iff _ 0).0 (table_sound 64 _ n small_table h)

module _ (rdata : Bytes) where
  name_loop-end :
      (fuel offset : ℕ) (acc : List Bytes) (r : Bytes)
      → drop offset rdata ≡ 0 ∷ r
      → name_loop (suc fuel) rdata offset acc ≡ ok (acc, offset + 1)
  unfolding name_loop
  name_loop-end fuel offset acc r h =
      let room = drop-cons-lt rdata offset h in
      rw (at-drop rdata offset 0 r h) (ground (arith, room))

  name_loop-label :
      (fuel offset : ℕ) (acc : List Bytes) (l r : Bytes)
      → IsLabel l
      → drop offset rdata ≡ length l ∷ (l ++ r)
      → name_loop (suc fuel) rdata offset acc
        ≡ name_loop fuel rdata (offset + 1 + length l) (acc ++ (l ∷ []))
  unfolding name_loop
  name_loop-label fuel offset acc l r hl h =
      let room : length rdata ≡ offset + suc (length l + length r) =
        omega (arith, drop-cons-lt rdata offset h, length-append l r) in
      let behind = drop-behind rdata (length l ∷ []) (l ++ r) offset (offset + 1) h refl in
      rw
        (
          at-drop rdata offset (length l) (l ++ r) h,
          bit_and-small (length l) (omega (arith, hl)),
          slice-drop rdata l r (offset + 1) (offset + 1 + length l) (omega (arith, room)) behind
              refl,
        )
        (ground (arith, room, hl))

-- Reading the labels that `put_labels` wrote.
name_loop-put_labels :
    (rdata : Bytes) (ls : List Bytes) (fuel offset : ℕ) (acc : List Bytes) (r : Bytes)
    → All IsLabel ls
    → length ls < fuel
    → drop offset rdata ≡ put_labels ls ++ (0 ∷ r)
    → name_loop fuel rdata offset acc ≡ ok (acc ++ ls, offset + length (put_labels ls) + 1)
name_loop-put_labels rdata ls zero offset acc r hl hf h = absurd (omega arith)
name_loop-put_labels rdata [] (suc fuel) offset acc r hl hf h =
    name_loop-end rdata fuel offset acc r h ∙ rw (append-nil, add-zero offset)
name_loop-put_labels rdata (l ∷ ls) (suc fuel) offset acc r (hl, hls) hf h =
    let size : length l % 256 ≡ length l = omega (arith, hl) in
    let tail : Bytes = put_labels ls ++ (0 ∷ r) in
    let here : drop offset rdata ≡ (length l ∷ []) ++ (l ++ tail) =
      h
      ∙ ap (λ (n : ℕ). n ∷ ((l ++ put_labels ls) ++ (0 ∷ r))) size
      ∙ ap (λ (t : Bytes). length l ∷ t) (append_assoc l (put_labels ls) (0 ∷ r)) in
    let behind = drop-behind rdata (length l ∷ []) (l ++ tail) offset (offset + 1) here refl in
    name_loop-label rdata fuel offset acc l tail hl here
    ∙ name_loop-put_labels rdata ls fuel (offset + 1 + length l) (acc ++ (l ∷ [])) r hls
        (omega arith) (drop-behind rdata l tail (offset + 1) _ behind refl)
    ∙ ground (arith, append_assoc acc (l ∷ []) ls, length-append l (put_labels ls))

length-le-put_labels : (ls : List Bytes) → length ls ≤ length (put_labels ls)
length-le-put_labels [] = omega arith
length-le-put_labels (l ∷ ls) =
    omega (arith, length-append l (put_labels ls), length-le-put_labels ls)

full_name-render : (l : Bytes) (ls : List Bytes) → full_name (l ∷ ls) ≡ render (l ∷ ls)
unfolding join_dots render
full_name-render l [] = refl
full_name-render l (m ∷ r) =
    append_assoc l _ (dot ∷ []) ∙ ap (λ t. l ++ (dot ∷ t)) (full_name-render m r)

full_name-labels : (d : Domain) → ends_dot d ≡ true → full_name (domain_labels d) ≡ d
full_name-labels d h = go (domain_labels d) refl
  where
    go : (ls : List Bytes) → domain_labels d ≡ ls → full_name ls ≡ d
    go [] e =
        let nil : [] ≡ d = unfold render in (ap render (sym e) ∙ render-domain_labels d h) in
        absurd (unfold ends_dot in cc (rw (← nil) at h))
    go (l ∷ ls) e = full_name-render l ls ∙ ap render (sym e) ∙ render-domain_labels d h

-- Where a well-formed name was written, `parseDNSName` returns it and the bytes that it takes.
pub parse_dns_name-write :
    (rdata : Bytes) (offset : ℕ) (d : Domain) (r : Bytes)
    → IsFqdn d
    → drop offset rdata ≡ write d ++ r
    → parse_dns_name rdata offset ≡ ok (d, length (write d))
unfolding parse_dns_name
parse_dns_name-write rdata offset d r f h =
    let ls = domain_labels d in
    let here : drop offset rdata ≡ put_labels ls ++ (0 ∷ r) =
      h ∙ unfold write in append_assoc (put_labels ls) (0 ∷ []) r in
    let room : length (put_labels ls ++ (0 ∷ r)) ≡ length rdata - offset =
      omega (arith, ap (length {A = ℕ}) here, length-drop offset rdata) in
    let fuel : length ls < suc (length rdata) =
      omega (arith, room, length-append (put_labels ls) (0 ∷ r), length-le-put_labels ls) in
    let size : length (write d) ≡ length (put_labels ls) + 1 =
      unfold write in length-append (put_labels ls) (0 ∷ []) in
    rw (name_loop-put_labels rdata ls (suc (length rdata)) offset [] r f.labels fuel here)
      (ground (arith, full_name-labels d f.ends, size))

-- A round takes the length byte and the label, so fuel above the bytes that are left suffices.
name_loop-Returns :
    (fuel : ℕ) (rdata : Bytes) (offset : ℕ) (acc : List Bytes)
    → length rdata < fuel + offset
    → 0 < fuel
    → Returns (name_loop fuel rdata offset acc)
unfolding name_loop
name_loop-Returns zero rdata offset acc h p = absurd (omega arith)
name_loop-Returns (suc fuel) rdata offset acc h p =
    Returns-if (leb (length rdata) offset) _ _ (λ _. Returns-err _)
      λ inside.
        Returns-bind (at rdata offset) _ (at-Returns rdata offset (leb→gt _ _ inside)) λ len _.
          Returns-if (len == 0) _ _ (λ _. Returns-ok _)
            λ _.
              Returns-if (not (bit_and len 0xc0 == 0)) _ _ (λ _. Returns-err _)
                λ _.
                  Returns-if (ltb (length rdata) (offset + 1 + len)) _ _ (λ _. Returns-err _)
                    λ outside.
                      let fits : offset + 1 + len ≤ length rdata = ltb→ge _ _ outside in
                      Returns-bind (slice rdata (offset + 1) (offset + 1 + len)) _
                        (slice-Returns rdata (offset + 1) (offset + 1 + len) (omega arith) fits)
                        λ label _.
                          name_loop-Returns fuel rdata (offset + 1 + len) (acc ++ (label ∷ []))
                            (omega arith) (omega arith)

-- `parseDNSName` neither panics nor loops for ever, on any bytes and from any offset.
pub parse_dns_name-Returns : (rdata : Bytes) (offset : ℕ) → Returns (parse_dns_name rdata offset)
unfolding parse_dns_name
parse_dns_name-Returns rdata offset =
    Returns-bind (name_loop (suc (length rdata)) rdata offset []) _
      (name_loop-Returns (suc (length rdata)) rdata offset [] (omega arith) (omega arith))
      (λ _ _. Returns-ok _)
