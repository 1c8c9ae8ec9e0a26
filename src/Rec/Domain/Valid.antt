-- ===== src/Rec/Domain/Valid.antt =====
-- What `validateFqdn` and `NewDomain` accept.
use xfx1_dns.Prelude.{
  ◌≤◌, ◌≡◌, ◌↔◌, ◌⊎◌, inl, inr, refl, true, false, List, [], ◌∷◌, ◌++◌, length, All, arith,
  Bool-cases,
}
use xfx1_dns.Prelude.Bytes.{Bytes, bytes_eq, bytes_eq_iff}
use xfx1_dns.Prelude.Result.{ok, >>=-eq-ok}
use xfx1_dns.Rec.Domain.{
  Domain, Unicode, dot, ends_dot, split_dots, but_last, domain_labels, validate_labels,
  validate_fqdn, new_domain,
}
use xfx1_dns.Rec.Domain.Labels.{DotFree, domain_labels-DotFree, split_dots-labels}

-- One to 63 bytes, none of them a dot.
pub record IsLabel (l : Bytes) : Type 0 where
  pub nonempty : 1 ≤ length l
  pub short : length l ≤ 63
  pub dot_free : DotFree l

-- A fully qualified name other than the root: labels, each with a dot behind it, at most 255 bytes.
pub record IsFqdn (d : Domain) : Type 0 where
  pub ends : ends_dot d ≡ true
  pub labels : All IsLabel (domain_labels d)
  pub short : length d ≤ 255

-- Each part before the last dot has 1 to 63 bytes.
abbrev IsSized : Bytes → Type 0
IsSized l = (1 ≤ length l) × (length l ≤ 63)

validate_labels-IsSized : (ls : List Bytes) → validate_labels ls ≡ ok tt → All IsSized (but_last ls)
unfolding validate_labels
validate_labels-IsSized [] h = tt
validate_labels-IsSized (l ∷ []) h = tt
validate_labels-IsSized (l ∷ m ∷ r) h =
    (ground arith, validate_labels-IsSized (m ∷ r) (ground arith))

IsLabel-of : (ls : List Bytes) → All IsSized ls → All DotFree ls → All IsLabel ls
IsLabel-of [] h k = tt
IsLabel-of (l ∷ ls) h k =
    (record { nonempty = h.0.0; short = h.0.1; dot_free = k.0 }, IsLabel-of ls h.1 k.1)

validate_fqdn-parts :
    (d : Domain)
    → bytes_eq d (dot ∷ []) ≡ false
    → validate_fqdn d ≡ ok tt
    → (ends_dot d ≡ true) × (length d ≤ 255) × (validate_labels (split_dots d) ≡ ok tt)
unfolding validate_fqdn
validate_fqdn-parts d e h = (ground arith, ground arith, ground arith)

domain_labels-IsSized :
    (d : Domain) → validate_labels (split_dots d) ≡ ok tt → All IsSized (domain_labels d)
unfolding domain_labels
domain_labels-IsSized d h = validate_labels-IsSized (split_dots d) h

IsFqdn-valid : (d : Domain) → validate_fqdn d ≡ ok tt → (d ≡ dot ∷ []) ⊎ IsFqdn d
IsFqdn-valid d h = elim (Bool-cases (bytes_eq d (dot ∷ []))) [
  | inl e ↦ inl ((bytes_eq_iff d (dot ∷ [])).0 e)
  | inr e ↦
      let (he, hs, hl) = validate_fqdn-parts d e h in
      inr (record {
        ends = he;
        labels =
            IsLabel-of (domain_labels d) (domain_labels-IsSized d hl) (domain_labels-DotFree d);
        short = hs;
      })
]

validate_labels-append :
    (ls : List Bytes) → All IsLabel ls → validate_labels (ls ++ ([] ∷ [])) ≡ ok tt
unfolding validate_labels
validate_labels-append [] h = refl
validate_labels-append (l ∷ []) h = ground (arith, h.0)
validate_labels-append (l ∷ m ∷ r) h = ground (arith, h.0, validate_labels-append (m ∷ r) h.1)

valid_of_fqdn : (d : Domain) → IsFqdn d → validate_fqdn d ≡ ok tt
unfolding validate_fqdn
valid_of_fqdn [] h = absurd (unfold ends_dot in cc (h.ends))
valid_of_fqdn (c ∷ s) h = ground (
  arith,
  h,
  rw (← split_dots-labels (c ∷ s) h.ends) at
      (validate_labels-append (domain_labels (c ∷ s)) h.labels),
)

-- `validateFqdn` accepts the root and the well-formed names, and nothing else.
pub validate_fqdn_iff : (d : Domain) → (validate_fqdn d ≡ ok tt) ↔ ((d ≡ dot ∷ []) ⊎ IsFqdn d)
validate_fqdn_iff d = (IsFqdn-valid d, back)
  where
    back : (d ≡ dot ∷ []) ⊎ IsFqdn d → validate_fqdn d ≡ ok tt
    back (inl e) = rw e (unfold validate_fqdn bytes_eq in refl)
    back (inr f) = valid_of_fqdn d f

-- What `NewDomain` returns is the root or well formed.
pub new_domain-IsFqdn :
    ⦃u : Unicode⦄ (s : Bytes) (d : Domain) → new_domain s ≡ ok d → (d ≡ dot ∷ []) ⊎ IsFqdn d
unfolding new_domain
new_domain-IsFqdn s d h =
    let (_, valid, e) = >>=-eq-ok (validate_fqdn _) _ h in IsFqdn-valid d (cc (e, valid))
