-- ===== src/Db/Dots.antt =====
-- Names with a trailing dot: comparing them does not panic.
use xfx1_dns.Prelude.{
  ℕ, ◌≡◌, inl, inr, true, Option, none, some, List, [], ◌∷◌, map, arith, any, All, Bool-cases, leb,
}
use xfx1_dns.Db.{additional_target, compare_owners}
use xfx1_dns.Rec.Domain.{Unicode, Domain, lower_byte, to_lower, ends_dot, compare_domain}
use xfx1_dns.Rec.Rr.{Rr}
use xfx1_dns.Rec.Domain.Order.{compare_domain_total}
use xfx1_dns.Prelude.Result.{Returns, Returns-ok, Returns-bind}
use xfx1_dns.Prelude.Bytes.{Bytes}

abbrev pub Dotted : Domain → Type 0
Dotted d = ends_dot d ≡ true

-- What strings.ToLower promises beyond ASCII: a final dot stays.
abbrev pub KeepsDot : Unicode → Type 0
KeepsDot u = (s : Bytes) → ends_dot s ≡ true → ends_dot (u.lower s) ≡ true

abbrev pub Named : Rr → Type 0
Named rr = Dotted rr.name

-- The name that a record refers to, if it has one, ends in a dot.
abbrev pub DottedOption : Option Domain → Type 0
DottedOption none = Unit
DottedOption (some d) = Dotted d

abbrev pub Targeted : Rr → Type 0
Targeted rr = DottedOption (additional_target rr.opts)

abbrev pub Targeted-rename :
    (rr : Rr) (n : Domain) → Targeted rr → Targeted (record rr { name = n })
Targeted-rename rr n h = h

ends_dot-lower_bytes : (s : Bytes) → ends_dot s ≡ true → ends_dot (map lower_byte s) ≡ true
unfolding ends_dot lower_byte
ends_dot-lower_bytes [] h = cc
ends_dot-lower_bytes (c ∷ []) h = ground (arith, h)
ends_dot-lower_bytes (c ∷ d ∷ r) h = ends_dot-lower_bytes (d ∷ r) h

ends_dot-tail : (c : ℕ) (s : Bytes) → ends_dot s ≡ true → ends_dot (c ∷ s) ≡ true
unfolding ends_dot
ends_dot-tail c [] h = cc
ends_dot-tail c (d ∷ r) h = h

module _ ⦃u : Unicode⦄ (law : KeepsDot u) where
  to_lower-Dotted : (d : Domain) → Dotted d → Dotted (to_lower d)
  unfolding to_lower
  to_lower-Dotted d h = elim (Bool-cases (any (λ c. leb 128 c) d)) [
    | inl e ↦ rw e (law d h)
    | inr e ↦ rw e (ends_dot-lower_bytes d h)
  ]

  pub compare_domain-Returns : (a b : Domain) → Dotted a → Dotted b → Returns (compare_domain a b)
  compare_domain-Returns a b ha hb =
      let (s, e) = compare_domain_total a b (to_lower-Dotted a ha) (to_lower-Dotted b hb) in
      rw e (Returns-ok s)

  pub compare_owners-Returns :
      (rrs : List Rr) (name : Domain)
      → All Named rrs
      → Dotted name
      → Returns (compare_owners rrs name)
  unfolding compare_owners
  compare_owners-Returns [] name h k = Returns-ok tt
  compare_owners-Returns (rr ∷ rrs) name h k =
      Returns-bind (compare_domain rr.name name) _ (compare_domain-Returns rr.name name h.0 k)
        λ _ _. compare_owners-Returns rrs name h.1 k
