-- ===== src/Rfc2136/Wire/Encode.antt =====
-- `encodeName` against `Domain.Write`, the other encoder of names.
use xfx1_dns.Prelude.{
  ℕ, ◌%◌, ◌≡◌, ◌≢◌, refl, sym, ap, ◌∙◌, true, List, [], ◌∷◌, ◌++◌, All, arith, length,
}
use xfx1_dns.Prelude.Bytes.{Bytes, bytes_eq_iff}
use xfx1_dns.Rec.Domain.{Domain, dot, ends_dot, domain_labels, put_labels, write}
use xfx1_dns.Rec.Domain.Labels.{DotFree, render, render-domain_labels, domain_labels-DotFree}
use xfx1_dns.Rec.Domain.Glue.{domain_labels-ne}
use xfx1_dns.Rfc2136.Wire.{encode_labels, encode_name, strip_dot}
use mathlib.Core.Path.{subst}
use mathlib.Core.List.{append_assoc, append-nil}

-- Bytes without a dot are collected.
encode_labels-append :
    (label l s : Bytes) → DotFree l → encode_labels label (l ++ s) ≡ encode_labels (label ++ l) s
unfolding encode_labels
encode_labels-append label [] s h = rw (append-nil label)
encode_labels-append label (c ∷ l) s (hc, h) =
    let step : encode_labels label (c ∷ (l ++ s)) ≡ encode_labels (label ++ (c ∷ [])) (l ++ s) =
      ground arith in
    step ∙ encode_labels-append (label ++ (c ∷ [])) l s h ∙ rw (append_assoc label (c ∷ []) l)

pub strip_dot-cons : (c : ℕ) (s : Bytes) → s ≢ [] → strip_dot (c ∷ s) ≡ c ∷ strip_dot s
unfolding strip_dot
strip_dot-cons c [] h = absurd (h refl)
strip_dot-cons c (d ∷ s) h = refl

append-ne : (l s : Bytes) → s ≢ [] → l ++ s ≢ []
append-ne [] s h e = h e
append-ne (c ∷ l) s h e = cc

pub strip_dot-append : (l s : Bytes) → s ≢ [] → strip_dot (l ++ s) ≡ l ++ strip_dot s
strip_dot-append [] s h = refl
strip_dot-append (c ∷ l) s h =
    strip_dot-cons c (l ++ s) (append-ne l s h) ∙ ap (λ t. c ∷ t) (strip_dot-append l s h)

render-ne : (l : Bytes) (ls : List Bytes) → render (l ∷ ls) ≢ []
unfolding render
render-ne l ls = append-ne l (dot ∷ render ls) (λ e. cc)

-- A dot ends a label.
encode_labels-dot :
    (label s : Bytes)
    → encode_labels label (dot ∷ s) ≡ (length label % 256) ∷ (label ++ encode_labels [] s)
unfolding encode_labels
encode_labels-dot label s = refl

-- The labels of a text, where `label` stands in front of the first.
encode_labels-render :
    (label l : Bytes) (ls : List Bytes)
    → DotFree l
    → All DotFree ls
    → encode_labels label (strip_dot (render (l ∷ ls))) ≡ put_labels ((label ++ l) ∷ ls)
encode_labels-render label l [] h hs =
    let alone : strip_dot (render (l ∷ [])) ≡ l ++ [] =
      unfold render in (strip_dot-append l (dot ∷ []) (λ e. cc) ∙ unfold strip_dot in refl) in
    rw (alone, encode_labels-append label l [] h)
      (unfold encode_labels in
        ap (λ t. (length (label ++ l) % 256) ∷ t) (sym (append-nil (label ++ l))))
encode_labels-render label l (m ∷ ls) h (hm, hs) =
    let rest = render (m ∷ ls) in
    let cut : strip_dot (render (l ∷ m ∷ ls)) ≡ l ++ (dot ∷ strip_dot rest) =
      unfold render in
      (strip_dot-append l (dot ∷ rest) (λ e. cc)
        ∙ ap (λ t. l ++ t) (strip_dot-cons dot rest (render-ne m ls))) in
    rw
      (
        cut,
        encode_labels-append label l (dot ∷ strip_dot rest) h,
        encode_labels-dot (label ++ l) (strip_dot rest),
      )
      (ap (λ t. (length (label ++ l) % 256) ∷ ((label ++ l) ++ t))
        (encode_labels-render [] m ls hm hs))

labelled :
    (d : Domain) (l : Bytes) (ls : List Bytes)
    → ends_dot d ≡ true
    → d ≢ dot ∷ []
    → domain_labels d ≡ l ∷ ls
    → encode_name d ≡ write d
unfolding encode_name write
labelled d l ls h k e =
    let free : All DotFree (l ∷ ls) = subst (All DotFree) e (domain_labels-DotFree d) in
    let text : d ≡ render (l ∷ ls) = sym (render-domain_labels d h) ∙ ap render e in
    let some_text : d ≢ [] = λ p. absurd (render-ne l ls (sym text ∙ p)) in
    let encoded : encode_labels [] (strip_dot d) ≡ put_labels (l ∷ ls) =
      ap (λ t. encode_labels [] (strip_dot t)) text ∙ encode_labels-render [] l ls free.0 free.1 in
    let labels : put_labels (domain_labels d) ≡ put_labels (l ∷ ls) = ap put_labels e in
    ground (arith, bytes_eq_iff d (dot ∷ []), bytes_eq_iff d [], encoded, labels)

-- On a name that ends in a dot, other than the root, `encodeName` writes what `Domain.Write`
-- writes.
pub encode_name-write : (d : Domain) → ends_dot d ≡ true → d ≢ dot ∷ [] → encode_name d ≡ write d
encode_name-write d h k = go (domain_labels d) refl
  where
    go : (ls : List Bytes) → domain_labels d ≡ ls → encode_name d ≡ write d
    go [] e = absurd (domain_labels-ne d h e)
    go (l ∷ ls) e = labelled d l ls h k e
