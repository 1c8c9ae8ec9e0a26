-- ===== src/Rec/Domain/Order.antt =====
-- `CompareDomain`: it returns on names with a trailing dot, and 0 means equal up to case.
use xfx1_dns.Prelude.{
  ◌≡◌, ◌≢◌, inl, inr, refl, sym, ap, ◌∙◌, true, false, List, [], ◌∷◌, reverse, arith, Bool-cases,
  Option-cases, some, none, Option, if◌then◌else◌,
}
use xfx1_dns.Prelude.Bytes.{Bytes, bytes_eq, bytes_eq_iff}
use xfx1_dns.Prelude.Result.{Result, ok, fault, panic}
use xfx1_dns.Rec.Domain.{
  Domain, Unicode, Sign, less, equal, greater, ends_dot, domain_labels, to_lower, compare_bytes,
  NameError, compare_labels, compare_domain, same_domain,
}
use xfx1_dns.Rec.Domain.Labels.{render, render-domain_labels}
use mathlib.Core.List.{reverse-reverse}

compare_bytes-equal : (a b : Bytes) → compare_bytes a b ≡ equal → a ≡ b
unfolding compare_bytes
compare_bytes-equal [] [] h = refl
compare_bytes-equal [] (y ∷ ys) h = cc
compare_bytes-equal (x ∷ xs) [] h = cc
compare_bytes-equal (x ∷ xs) (y ∷ ys) h = ground (arith, compare_bytes-equal xs ys)

abbrev pub flip : Sign → Sign
flip less = greater
flip equal = equal
flip greater = less

compare_bytes-flip : (a b : Bytes) → compare_bytes b a ≡ flip (compare_bytes a b)
unfolding compare_bytes
compare_bytes-flip [] [] = refl
compare_bytes-flip [] (y ∷ ys) = refl
compare_bytes-flip (x ∷ xs) [] = refl
compare_bytes-flip (x ∷ xs) (y ∷ ys) = ground (arith, compare_bytes-flip xs ys)

-- The canonical order of names, label by label from the last: a name comes before those below it.
-- Lists that are equal have no answer.
pub canonical : List Bytes → List Bytes → Option Sign
canonical [] [] = none
canonical [] (b ∷ rb) = some less
canonical (a ∷ ra) [] = some greater
canonical (a ∷ ra) (b ∷ rb) =
    let rest = canonical ra rb in if bytes_eq a b then rest else some (compare_bytes a b)

abbrev or_panic : Option Sign → Result NameError Sign
or_panic none = fault panic
or_panic (some s) = ok s

-- The code, which counts the labels in common, computes the canonical order.
compare_labels-canonical : (ra rb : List Bytes) → compare_labels ra rb ≡ or_panic (canonical ra rb)
unfolding compare_labels canonical
compare_labels-canonical [] [] = refl
compare_labels-canonical [] (b ∷ rb) = ground arith
compare_labels-canonical (a ∷ ra) [] = ground arith
compare_labels-canonical (a ∷ ra) (b ∷ rb) = elim (Bool-cases (bytes_eq a b)) [
  | inl e ↦ rw e (ground (arith, compare_labels-canonical ra rb))
  | inr e ↦ rw e (ground arith)
]

canonical-none : (ra rb : List Bytes) → canonical ra rb ≡ none → ra ≡ rb
unfolding canonical
canonical-none [] [] h = refl
canonical-none [] (b ∷ rb) h = cc
canonical-none (a ∷ ra) [] h = cc
canonical-none (a ∷ ra) (b ∷ rb) h = ground (arith, bytes_eq_iff a b, canonical-none ra rb)

canonical-equal : (ra rb : List Bytes) → canonical ra rb ≢ some equal
unfolding canonical
canonical-equal [] [] h = cc
canonical-equal [] (b ∷ rb) h = cc
canonical-equal (a ∷ ra) [] h = cc
canonical-equal (a ∷ ra) (b ∷ rb) h =
    ground (arith, bytes_eq_iff a b, compare_bytes-equal a b, canonical-equal ra rb)

canonical-flip :
    (ra rb : List Bytes) (s : Sign) → canonical ra rb ≡ some s → canonical rb ra ≡ some (flip s)
unfolding canonical
canonical-flip [] [] s h = cc
canonical-flip [] (b ∷ rb) s h = ground arith
canonical-flip (a ∷ ra) [] s h = ground arith
canonical-flip (a ∷ ra) (b ∷ rb) s h =
    ground
      (arith, bytes_eq_iff a b, bytes_eq_iff b a, compare_bytes-flip a b, canonical-flip ra rb s)

reverse_injective : (xs ys : List Bytes) → reverse xs ≡ reverse ys → xs ≡ ys
reverse_injective xs ys h = sym (reverse-reverse xs) ∙ ap reverse h ∙ reverse-reverse ys

labels_injective :
    (a b : Domain)
    → ends_dot a ≡ true
    → ends_dot b ≡ true
    → reverse (domain_labels a) ≡ reverse (domain_labels b)
    → a ≡ b
labels_injective a b ha hb e =
    sym (render-domain_labels a ha)
    ∙ ap render (reverse_injective (domain_labels a) (domain_labels b) e)
    ∙ render-domain_labels b hb

-- The order of two texts that differ.
abbrev text_order : Domain → Domain → Option Sign
text_order al bl = canonical (reverse (domain_labels al)) (reverse (domain_labels bl))

module _ ⦃u : Unicode⦄ (a b : Domain) where
  compare_domain-canonical : compare_domain a b ≡ (
      if bytes_eq (to_lower a) (to_lower b)
      then ok equal
      else or_panic (text_order (to_lower a) (to_lower b)))
  unfolding compare_domain
  compare_domain-canonical = rw compare_labels-canonical

  -- `CompareDomain` is 0 exactly on names that are equal up to case, on any texts.
  pub same_domain_lem : same_domain a b ≡ bytes_eq (to_lower a) (to_lower b)
  unfolding same_domain
  same_domain_lem = ground (
    arith,
    compare_domain-canonical,
    canonical-equal (reverse (domain_labels (to_lower a))) (reverse (domain_labels (to_lower b))),
  )

  order_found :
      bytes_eq (to_lower a) (to_lower b) ≡ false
      → ends_dot (to_lower a) ≡ true
      → ends_dot (to_lower b) ≡ true
      → (s : Sign) × (text_order (to_lower a) (to_lower b) ≡ some s)
  order_found e ha hb = elim (Option-cases (text_order (to_lower a) (to_lower b))) [
    | inr found ↦ found
    | inl h ↦ absurd (
        ground (
          arith,
          bytes_eq_iff (to_lower a) (to_lower b),
          labels_injective (to_lower a) (to_lower b) ha hb (canonical-none _ _ h),
        ))
  ]

  -- On names with a trailing dot `CompareDomain` does not panic.
  pub compare_domain_total :
      ends_dot (to_lower a) ≡ true
      → ends_dot (to_lower b) ≡ true
      → (s : Sign) × (compare_domain a b ≡ ok s)
  compare_domain_total ha hb = elim (Bool-cases (bytes_eq (to_lower a) (to_lower b))) [
    | inl e ↦ (equal, compare_domain-canonical ∙ rw e)
    | inr e ↦ let (s, h) = order_found e ha hb in (s, compare_domain-canonical ∙ rw (e, h))
  ]

module _ ⦃u : Unicode⦄ where
  -- Where `CompareDomain` gives a sign, comparing the other way round gives the opposite sign.
  pub compare_domain-flip :
      (a b : Domain) (s : Sign) → compare_domain a b ≡ ok s → compare_domain b a ≡ ok (flip s)
  compare_domain-flip a b s h = ground (
    arith,
    compare_domain-canonical a b,
    compare_domain-canonical b a,
    bytes_eq_iff (to_lower a) (to_lower b),
    bytes_eq_iff (to_lower b) (to_lower a),
    canonical-flip (reverse (domain_labels (to_lower a))) (reverse (domain_labels (to_lower b))) s,
  )
