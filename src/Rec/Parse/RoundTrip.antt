-- ===== src/Rec/Parse/RoundTrip.antt =====
-- `ParseRdata` reads back what `Payload` writes.
use xfx1_dns.Prelude.{
  ℕ, zero, suc, ◌+◌, ◌%◌, ◌≤◌, ◌<◌, ◌≡◌, refl, sym, ap, ◌∙◌, [], ◌∷◌, ◌++◌, length, drop, arith,
  ltb, length-append, drop-behind, drop-cons-lt, length-drop, length-take, drop-append, le→leb,
  Bool-cases, inl, ltb→lt, take-append-drop, inr, ltb→ge, drop-length,
}
use xfx1_dns.Prelude.Bytes.{
  Bytes, IsByte, IsU16, at, u16_at, at-drop, slice-drop, be16, word_of_be16,
}
use xfx1_dns.Prelude.Result.{ok}
use xfx1_dns.Rec.Domain.{Domain, Unicode, write, put_labels, domain_labels}
use xfx1_dns.Rec.Domain.Valid.{IsFqdn}
use xfx1_dns.Rec.Opts.{
  RRopts, Srv, opts_type, payload, txt_chunks, txt_payload, chunk_of, to_4, to_16,
}
use xfx1_dns.Rec.Parse.{
  ParseError, txt_loop, parse_rdata, parse_dns_name, parse_srv, parse_mx, parse_caa, RRtype,
  parse_txt, parse_a, parse_aaaa, parse_ns, parse_cname, parse_ptr,
}
use xfx1_dns.Rec.Parse.Names.{parse_dns_name-write}
use mathlib.Core.List.{append_assoc, append-nil}

-- Record data of a type that `ParseRdata` knows, with each number in its width and each name
-- well formed.
abbrev pub IsEncodable : RRopts → Type 0
IsEncodable (RRopts.a ip) = length ip ≡ 4
IsEncodable (RRopts.aaaa ip) = length ip ≡ 16
IsEncodable (RRopts.ns d) = IsFqdn d
IsEncodable (RRopts.cname d) = IsFqdn d
IsEncodable (RRopts.ptr d) = IsFqdn d
IsEncodable (RRopts.mx p d) = IsU16 p × IsFqdn d
IsEncodable (RRopts.txt s) = Unit
IsEncodable (RRopts.srv o) = IsU16 o.priority × IsU16 o.weight × IsU16 o.port × IsFqdn o.target
IsEncodable (RRopts.caa f tag value) = IsByte f × (length tag < 256)
IsEncodable _ = ⊥

write_alone : (d : Domain) → IsFqdn d → parse_dns_name (write d) 0 ≡ ok (d, length (write d))
write_alone d h = parse_dns_name-write (write d) 0 d [] h (sym (append-nil (write d)))

write_behind :
    (pre : Bytes) (d : Domain)
    → IsFqdn d
    → parse_dns_name (pre ++ write d) (length pre) ≡ ok (d, length (write d))
write_behind pre d h =
    parse_dns_name-write (pre ++ write d) (length pre) d [] h
      (drop-append pre (write d) ∙ sym (append-nil (write d)))

length-write-pos : (d : Domain) → 0 < length (write d)
length-write-pos d =
    unfold write in omega (arith, length-append (put_labels (domain_labels d)) (0 ∷ []))

parse_caa-parts :
    (f : ℕ) (tag value : Bytes)
    → parse_caa (f ∷ length tag ∷ (tag ++ value)) ≡ ok (RRopts.caa f tag value)
unfolding parse_caa at
parse_caa-parts f tag value =
    let rdata : Bytes = f ∷ length tag ∷ (tag ++ value) in
    let whole : length rdata ≡ 2 + length tag + length value =
      omega (arith, length-append tag value) in
    let behind : drop (2 + length tag) rdata ≡ value ++ [] =
      drop-behind rdata (f ∷ length tag ∷ tag) value 0 _ refl (omega arith)
      ∙ sym (append-nil value) in
    ground (
      arith,
      whole,
      slice-drop {E = ParseError} rdata tag value 2 (2 + length tag) (omega (arith, whole)) refl
          refl,
      slice-drop {E = ParseError} rdata value [] (2 + length tag) (length rdata)
          (omega (arith, whole)) behind whole,
    )

module _ ⦃u : Unicode⦄ where
  parse_rdata-mx :
      (p : ℕ) (d : Domain)
      → IsU16 p
      → IsFqdn d
      → parse_rdata RRtype.mx (payload (RRopts.mx p d)) ≡ ok (RRopts.mx p d)
  unfolding parse_rdata parse_mx payload u16_at
  parse_rdata-mx p d hp hd =
      ground (arith, word_of_be16 p, write_behind (be16 p) d hd, length-write-pos d)

  parse_rdata-srv :
      (o : Srv)
      → IsEncodable (RRopts.srv o)
      → parse_rdata RRtype.srv (payload (RRopts.srv o)) ≡ ok (RRopts.srv o)
  unfolding parse_rdata parse_srv payload u16_at
  parse_rdata-srv o (hp, hw, hq, hd) = ground (
    arith,
    word_of_be16 o.priority hp,
    word_of_be16 o.weight hw,
    word_of_be16 o.port hq,
    write_behind (be16 o.priority ++ (be16 o.weight ++ be16 o.port)) o.target hd,
    length-write-pos o.target,
  )

  parse_rdata-caa :
      (f : ℕ) (tag value : Bytes)
      → length tag < 256
      → parse_rdata RRtype.caa (payload (RRopts.caa f tag value)) ≡ ok (RRopts.caa f tag value)
  unfolding parse_rdata payload
  parse_rdata-caa f tag value h =
      let size : length tag % 256 ≡ length tag = omega arith in
      ap (λ (n : ℕ). parse_caa (f ∷ n ∷ (tag ++ value))) size ∙ parse_caa-parts f tag value

chunk_of-append : (s : Bytes) → chunk_of s ++ drop (length (chunk_of s)) s ≡ s
unfolding chunk_of
chunk_of-append s = elim (Bool-cases (ltb 255 (length s))) [
  | inl e ↦ rw (e, length-take 255 s (omega (arith, ltb→lt _ _ e))) (take-append-drop 255 s)
  | inr e ↦ rw e (ap (λ t. s ++ t) (drop-length s) ∙ append-nil s)
]

chunk_of_bounds :
    (c : ℕ) (s : Bytes) → (1 ≤ length (chunk_of (c ∷ s))) × (length (chunk_of (c ∷ s)) ≤ 255)
unfolding chunk_of
chunk_of_bounds c s = elim (Bool-cases (ltb 255 (suc (length s)))) [
  | inl e ↦ rw e (omega (arith, length-take 255 (c ∷ s) (omega (arith, ltb→lt _ _ e))))
  | inr e ↦ rw e (omega (arith, ltb→ge _ _ e))
]

txt_loop-end :
    (fuel : ℕ) (rdata : Bytes) (offset : ℕ) (acc : Bytes)
    → 0 < fuel
    → length rdata ≤ offset
    → txt_loop fuel rdata offset acc ≡ ok acc
unfolding txt_loop
txt_loop-end zero rdata offset acc h k = absurd (omega arith)
txt_loop-end (suc fuel) rdata offset acc h k = rw (le→leb _ _ k)

txt_loop-step :
    (fuel : ℕ) (rdata : Bytes) (offset : ℕ) (acc l r : Bytes)
    → drop offset rdata ≡ length l ∷ (l ++ r)
    → txt_loop (suc fuel) rdata offset acc ≡ txt_loop fuel rdata (offset + 1 + length l) (acc ++ l)
unfolding txt_loop
txt_loop-step fuel rdata offset acc l r h =
    let room : length rdata ≡ offset + suc (length l + length r) =
      omega (arith, drop-cons-lt rdata offset h, length-append l r) in
    let behind = drop-behind rdata (length l ∷ []) (l ++ r) offset (offset + 1) h refl in
    rw
      (
        at-drop rdata offset (length l) (l ++ r) h,
        slice-drop rdata l r (offset + 1) (offset + 1 + length l) (omega (arith, room)) behind refl,
      )
      (ground (arith, room))

txt_loop-txt_chunks :
    (n fuel : ℕ) (rdata : Bytes) (offset : ℕ) (acc s : Bytes)
    → length s ≤ n
    → offset ≤ length rdata
    → length rdata < fuel + offset
    → drop offset rdata ≡ txt_chunks n s
    → txt_loop fuel rdata offset acc ≡ ok (acc ++ s)
unfolding txt_chunks
txt_loop-txt_chunks n zero rdata offset acc s hn ho hf h = absurd (omega arith)
txt_loop-txt_chunks n (suc fuel) rdata offset acc [] hn ho hf h =
    txt_loop-end (suc fuel) rdata offset acc (omega arith) (nothing n h) ∙ rw append-nil
  where
    nothing : (n : ℕ) → drop offset rdata ≡ txt_chunks n [] → length rdata ≤ offset
    nothing zero h = omega (arith, ap (length {A = ℕ}) h, length-drop offset rdata)
    nothing (suc n) h = omega (arith, ap (length {A = ℕ}) h, length-drop offset rdata)
txt_loop-txt_chunks zero (suc fuel) rdata offset acc (c ∷ s) hn ho hf h = absurd (omega arith)
txt_loop-txt_chunks (suc n) (suc fuel) rdata offset acc (c ∷ s) hn ho hf h =
    let l = chunk_of (c ∷ s) in
    let (lo, hi) = chunk_of_bounds c s in
    let left = drop (length l) (c ∷ s) in
    let size : length l % 256 ≡ length l = omega arith in
    let here : drop offset rdata ≡ length l ∷ (l ++ txt_chunks n left) =
      h ∙ ap (λ (k : ℕ). k ∷ (l ++ txt_chunks n left)) size in
    let room : length rdata ≡ offset + suc (length l + length (txt_chunks n left)) =
      omega (arith, drop-cons-lt rdata offset here, length-append l (txt_chunks n left)) in
    txt_loop-step fuel rdata offset acc l (txt_chunks n left) here
    ∙ txt_loop-txt_chunks n fuel rdata (offset + 1 + length l) (acc ++ l) left
        (omega (arith, length-drop (length l) (c ∷ s))) (omega (arith, room)) (omega arith)
        (drop-behind rdata (length l ∷ l) (txt_chunks n left) offset _ here (omega arith))
    ∙ ap ok (append_assoc acc l left ∙ ap (λ t. acc ++ t) (chunk_of-append (c ∷ s)))

parse_txt-txt_payload : (s : Bytes) → parse_txt (txt_payload s) ≡ ok (RRopts.txt s)
unfolding parse_txt txt_payload
parse_txt-txt_payload s = rw (
    txt_loop-txt_chunks (length s) (suc (length (txt_chunks (length s) s)))
      (txt_chunks (length s) s) 0 [] s (omega arith) (omega arith) (omega arith) refl)

-- For record data of the nine types that `ParseRdata` reads, with well-formed names and fields in
-- their ranges, `ParseRdata` of the payload is that data.
pub parse_rdata-payload :
    ⦃u : Unicode⦄ (o : RRopts) → IsEncodable o → parse_rdata (opts_type o) (payload o) ≡ ok o
unfolding opts_type
parse_rdata-payload (RRopts.a ip) h = unfold parse_rdata parse_a payload to_4 in ground (arith, h)
parse_rdata-payload (RRopts.aaaa ip) h =
    unfold parse_rdata parse_aaaa payload to_16 in ground (arith, h)
parse_rdata-payload (RRopts.ns d) h = unfold parse_rdata parse_ns payload in rw (write_alone d h)
parse_rdata-payload (RRopts.cname d) h =
    unfold parse_rdata parse_cname payload in rw (write_alone d h)
parse_rdata-payload (RRopts.ptr d) h = unfold parse_rdata parse_ptr payload in rw (write_alone d h)
parse_rdata-payload (RRopts.mx p d) (hp, hd) = parse_rdata-mx p d hp hd
parse_rdata-payload (RRopts.txt s) h = unfold parse_rdata payload in parse_txt-txt_payload s
parse_rdata-payload (RRopts.srv o) h = parse_rdata-srv o h
parse_rdata-payload (RRopts.caa f tag value) (hf, ht) = parse_rdata-caa f tag value ht
parse_rdata-payload _ h = absurd h
