-- ===== src/Rec/Domain/Glue.antt =====
-- A name that is put together label by label, with a dot before each label but the first.
use xfx1_dns.Prelude.{
  ℕ, true, sym, ◌≤◌, length-append, ◌+◌, ◌%◌, ◌≡◌, ◌≢◌, refl, ap, ◌∙◌, List, [], ◌∷◌, ◌++◌, length,
  drop, drop-behind, All, arith,
}
use xfx1_dns.Prelude.Bytes.{Bytes}
use xfx1_dns.Rec.Domain.{Domain, dot, ends_dot, domain_labels, put_labels}
use xfx1_dns.Rec.Domain.Labels.{render, render-domain_labels}
use xfx1_dns.Rec.Domain.Valid.{IsLabel}
use mathlib.Core.List.{append_assoc}

-- Labels are parted by a dot, with none before the first.
abbrev pub parted : Bytes → Bytes
parted [] = []
parted (c ∷ s) = (c ∷ s) ++ (dot ∷ [])

-- The name that the loop has put together behind `ls`.
unfoldable pub glue : Bytes → List Bytes → Bytes
glue name [] = name
glue name (l ∷ ls) = glue (parted name ++ l) ls

glue-render :
    (c : ℕ) (s : Bytes) (ls : List Bytes)
    → glue (c ∷ s) ls ++ (dot ∷ []) ≡ (c ∷ s) ++ (dot ∷ render ls)
unfolding glue render
glue-render c s [] = refl
glue-render c s (l ∷ ls) =
    glue-render c ((s ++ (dot ∷ [])) ++ l) ls
    ∙ ap (λ t. c ∷ t)
        (append_assoc (s ++ (dot ∷ [])) l (dot ∷ render ls)
          ∙ append_assoc s (dot ∷ []) (l ++ (dot ∷ render ls)))

pub glue-labels :
    (ls : List Bytes) → ls ≢ [] → All IsLabel ls → glue [] ls ++ (dot ∷ []) ≡ render ls
glue-labels [] h k = absurd (h refl)
glue-labels ([] ∷ ls) h k = absurd (omega (arith, k.0.nonempty))
glue-labels ((c ∷ l) ∷ ls) h k = unfold glue in (glue-render c l ls ∙ unfold render in refl)

-- Where labels were written, the first of them stands in front of the others.
pub put_labels-front :
    (msg l : Bytes) (ls : List Bytes) (pos : ℕ) (r : Bytes)
    → IsLabel l
    → drop pos msg ≡ put_labels (l ∷ ls) ++ r
    → (drop pos msg ≡ length l ∷ (l ++ (put_labels ls ++ r)))
      × (drop (pos + 1 + length l) msg ≡ put_labels ls ++ r)
put_labels-front msg l ls pos r hl h =
    let size : length l % 256 ≡ length l = omega (arith, hl) in
    let tail : Bytes = put_labels ls ++ r in
    let here : drop pos msg ≡ (length l ∷ []) ++ (l ++ tail) =
      h
      ∙ ap (λ (n : ℕ). n ∷ ((l ++ put_labels ls) ++ r)) size
      ∙ ap (λ (t : Bytes). length l ∷ t) (append_assoc l (put_labels ls) r) in
    let behind = drop-behind msg (length l ∷ []) (l ++ tail) pos (pos + 1) here refl in
    (here, drop-behind msg l tail (pos + 1) _ behind refl)

pub domain_labels-ne : (d : Domain) → ends_dot d ≡ true → domain_labels d ≢ []
domain_labels-ne d h e =
    let nil : [] ≡ d = unfold render in (ap render (sym e) ∙ render-domain_labels d h) in
    absurd (unfold ends_dot in cc (rw (← nil) at h))

pub length-le-put_labels : (ls : List Bytes) → length ls ≤ length (put_labels ls)
length-le-put_labels [] = omega arith
length-le-put_labels (l ∷ ls) =
    omega (arith, length-append l (put_labels ls), length-le-put_labels ls)
