-- ===== src/Rec/Domain/Labels.antt =====
-- Splitting a name into labels and joining them again.
use xfx1_dns.Prelude.{
  ℕ, ◌+◌, ◌≡◌, ◌≢◌, refl, sym, ap, ◌∙◌, true, inl, inr, Bool-cases, List, [], ◌∷◌, ◌++◌, length,
  All, arith, ◌==◌, length-append,
}
use xfx1_dns.Prelude.Bytes.{Bytes}
use xfx1_dns.Rec.Domain.{
  dot, ends_dot, cons_head, split_dots, but_last, domain_labels, put_labels, Domain, write,
}

-- No byte of the label is a dot.
abbrev pub DotFree : Bytes → Type 0
DotFree l = All (λ c. c ≢ dot) l

-- Each label with a dot behind it.
unfoldable pub render : List Bytes → Bytes
render [] = []
render (l ∷ ls) = l ++ (dot ∷ render ls)

split_dots-ne : (s : Bytes) → split_dots s ≢ []
unfolding split_dots
split_dots-ne [] h = cc
split_dots-ne (c ∷ s) h = ground arith

but_last-cons_head :
    (c : ℕ) (ls : List Bytes)
    → ls ≢ []
    → but_last ls ≢ []
    → but_last (cons_head c ls) ≡ cons_head c (but_last ls)
but_last-cons_head c [] h k = absurd (h refl)
but_last-cons_head c (l ∷ []) h k = absurd (k refl)
but_last-cons_head c (l ∷ m ∷ r) h k = refl

but_last-cons : (l : Bytes) (ls : List Bytes) → ls ≢ [] → but_last (l ∷ ls) ≡ l ∷ but_last ls
but_last-cons l [] h = absurd (h refl)
but_last-cons l (m ∷ r) h = refl

-- In front of a dot `split_dots` cuts off a label.
pub split_dots-append : (l s : Bytes) → DotFree l → split_dots (l ++ (dot ∷ s)) ≡ l ∷ split_dots s
unfolding split_dots
split_dots-append [] s h = refl
split_dots-append (c ∷ l) s (hc, h) = ground (arith, split_dots-append l s h)

-- Labels without dots are read back from the text in which each has a dot behind it.
pub domain_labels-render : (ls : List Bytes) → All DotFree ls → domain_labels (render ls) ≡ ls
unfolding domain_labels render split_dots
domain_labels-render [] h = refl
domain_labels-render (l ∷ ls) (hl, h) =
    ap but_last (split_dots-append l (render ls) hl)
    ∙ but_last-cons l (split_dots (render ls)) (split_dots-ne (render ls))
    ∙ ap (λ r. l ∷ r) (unfold domain_labels render in domain_labels-render ls h)

render-cons_head : (c : ℕ) (ls : List Bytes) → ls ≢ [] → render (cons_head c ls) ≡ c ∷ render ls
unfolding render
render-cons_head c [] h = absurd (h refl)
render-cons_head c (l ∷ ls) h = refl

render-empty : (ls : List Bytes) → render ([] ∷ ls) ≡ dot ∷ render ls
unfolding render
render-empty ls = refl

cons_head-ne : (c : ℕ) (ls : List Bytes) → cons_head c ls ≢ []
cons_head-ne c [] h = cc
cons_head-ne c (l ∷ ls) h = cc

-- The labels of `c ∷ s`, where `s` has labels.
domain_labels-dot : (s : Bytes) → domain_labels (dot ∷ s) ≡ [] ∷ domain_labels s
unfolding domain_labels split_dots
domain_labels-dot s = but_last-cons [] (split_dots s) (split_dots-ne s)

domain_labels-cons :
    (c : ℕ) (s : Bytes)
    → c ≢ dot
    → domain_labels s ≢ []
    → domain_labels (c ∷ s) ≡ cons_head c (domain_labels s)
unfolding domain_labels split_dots
domain_labels-cons c s h k = ground (arith, but_last-cons_head c (split_dots s) (split_dots-ne s) k)

-- A text that ends in a dot is its labels, each with a dot behind it.
ends_dot-labels :
    (c : ℕ) (s : Bytes)
    → ends_dot (c ∷ s) ≡ true
    → (domain_labels (c ∷ s) ≢ []) × (render (domain_labels (c ∷ s)) ≡ c ∷ s)
ends_dot-labels c [] h =
    let e : c ≡ dot = unfold ends_dot in ground arith in
    rw e (unfold domain_labels split_dots render in (λ p. cc, refl))
ends_dot-labels c (d ∷ s) h =
    let ih = ends_dot-labels d s (unfold ends_dot in h) in
    elim (Bool-cases (c == dot)) [
      | inl e ↦
          let c_dot : c ≡ dot = ground arith in
          rw (c_dot, domain_labels-dot (d ∷ s))
            (λ p. cc, render-empty (domain_labels (d ∷ s)) ∙ ap (λ r. dot ∷ r) ih.1)
      | inr e ↦
          rw (domain_labels-cons c (d ∷ s) (ground arith) ih.0)
            (cons_head-ne c _, render-cons_head c _ ih.0 ∙ ap (λ r. c ∷ r) ih.1)
    ]

-- A text that ends in a dot is its labels, each with a dot behind it.
pub render-domain_labels : (d : Domain) → ends_dot d ≡ true → render (domain_labels d) ≡ d
render-domain_labels [] h = unfold ends_dot in cc
render-domain_labels (c ∷ s) h = (ends_dot-labels c s h).1

-- No label of a name holds a dot.
All-cons_head : (c : ℕ) (ls : List Bytes) → c ≢ dot → All DotFree ls → All DotFree (cons_head c ls)
All-cons_head c [] h k = ((h, tt), tt)
All-cons_head c (l ∷ ls) h k = ((h, k.0), k.1)

pub split_dots-DotFree : (s : Bytes) → All DotFree (split_dots s)
unfolding split_dots
split_dots-DotFree [] = (tt, tt)
split_dots-DotFree (c ∷ s) = elim (Bool-cases (c == dot)) [
  | inl e ↦ rw e (tt, split_dots-DotFree s)
  | inr e ↦ rw e (All-cons_head c (split_dots s) (ground arith) (split_dots-DotFree s))
]

pub but_last-All {κ} : (P : Bytes → Type κ) (ls : List Bytes) → All P ls → All P (but_last ls)
but_last-All P [] h = tt
but_last-All P (l ∷ []) h = tt
but_last-All P (l ∷ m ∷ r) h = (h.0, but_last-All P (m ∷ r) h.1)

pub domain_labels-DotFree : (d : Domain) → All DotFree (domain_labels d)
unfolding domain_labels
domain_labels-DotFree d = but_last-All DotFree (split_dots d) (split_dots-DotFree d)

pub length-put_labels : (ls : List Bytes) → length (put_labels ls) ≡ length (render ls)
unfolding render
length-put_labels [] = refl
length-put_labels (l ∷ ls) =
    rw (length-append l (put_labels ls), length-append l (dot ∷ render ls))
      (omega (arith, length-put_labels ls))

-- The wire form of a name that ends in a dot is one byte longer than its text.
pub length-write : (d : Domain) → ends_dot d ≡ true → length (write d) ≡ length d + 1
unfolding write
length-write d h =
    rw (length-append (put_labels (domain_labels d)) (0 ∷ []), length-put_labels (domain_labels d))
      (omega (arith, ap (length {A = ℕ}) (render-domain_labels d h)))

split_dots-render : (ls : List Bytes) → All DotFree ls → split_dots (render ls) ≡ ls ++ ([] ∷ [])
unfolding render
split_dots-render [] h = unfold split_dots in refl
split_dots-render (l ∷ ls) (hl, h) =
    split_dots-append l (render ls) hl ∙ ap (λ r. l ∷ r) (split_dots-render ls h)

-- Behind the last dot `split_dots` leaves an empty part.
pub split_dots-labels :
    (d : Domain) → ends_dot d ≡ true → split_dots d ≡ domain_labels d ++ ([] ∷ [])
split_dots-labels d h =
    ap split_dots (sym (render-domain_labels d h))
    ∙ split_dots-render (domain_labels d) (domain_labels-DotFree d)
