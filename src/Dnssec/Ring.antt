-- ===== src/Dnssec/Ring.antt =====
-- The ring of hashes: which hashes a record of the chain covers.
use xfx1_dns.Prelude.{
  ◌≡◌, refl, ◌∙◌, inl, inr, Bool, true, false, not, Option, none, some, List, [], ◌∷◌, arith,
  if◌then◌else◌, any, Bool-cases,
}
use xfx1_dns.Dnssec.{Hashing, before, covers, owner_hash, next_hash_of, find_covering}
use xfx1_dns.Dnssec.Order.{before_irrefl, before_trans, before_total}
use xfx1_dns.Rec.Rr.{Rr}
use xfx1_dns.Prelude.Bytes.{Bytes, bytes_eq, bytes_eq_iff}

-- The hash behind an owner: that of the next owner, or the first of the ring.
abbrev pub following : Bytes → List Bytes → Bytes
following top [] = top
following top (b ∷ hs) = b

abbrev pub Above : Bytes → List Bytes → Type 0
Above a [] = Unit
Above a (b ∷ hs) = before a b ≡ true

abbrev pub Ascending : List Bytes → Type 0
Ascending [] = Unit
Ascending (a ∷ hs) = Above a hs × Ascending hs

-- Whether a segment of the ring covers a hash.
covered : Bytes → List Bytes → Bytes → Bool
covered top [] t = false
covered top (a ∷ hs) t =
    let rest = covered top hs t in if covers a (following top hs) t then true else rest

-- A hash above `a` that is no owner is covered from there on.
covered-above :
    (top a : Bytes) (hs : List Bytes) (t : Bytes)
    → before a top ≡ false
    → Ascending (a ∷ hs)
    → before a t ≡ true
    → any (λ k. bytes_eq k t) hs ≡ false
    → covered top (a ∷ hs) t ≡ true
unfolding covered covers
covered-above top a [] t low asc h fresh = ground (arith, low, h)
covered-above top a (b ∷ hs) t low asc h fresh = elim (Bool-cases (before t b)) [
  | inl e ↦ rw (asc.0, h, e) refl
  | inr e ↦
      let other : before b t ≡ true = elim (Bool-cases (before b t)) [
        | inl d ↦ d
        | inr d ↦
            let same = before_total b t d e in
            let hit = (bytes_eq_iff b t).1 same in cc (rw hit at fresh)
      ] in
      let rest_fresh : any (λ k. bytes_eq k t) hs ≡ false = ground (arith, fresh) in
      let low_b : before b top ≡ false = elim (Bool-cases (before b top)) [
        | inl d ↦ let loop = before_trans a b top asc.0 d in cc
        | inr d ↦ d
      ] in
      let rest = covered-above top b hs t low_b asc.1 other rest_fresh in ground (arith, rest)
]

-- A hash below the first owner is covered where the ring closes.
covered-below :
    (top a : Bytes) (hs : List Bytes) (t : Bytes)
    → before a top ≡ false
    → Ascending (a ∷ hs)
    → before t top ≡ true
    → covered top (a ∷ hs) t ≡ true
unfolding covered covers
covered-below top a [] t low asc h = ground (arith, low, h)
covered-below top a (b ∷ hs) t low asc h =
    let low_b : before b top ≡ false = elim (Bool-cases (before b top)) [
      | inl d ↦ let loop = before_trans a b top asc.0 d in cc
      | inr d ↦ d
    ] in
    let rest = covered-below top b hs t low_b asc.1 h in ground (arith, rest)

-- A hash up to `a` and from the first owner on is not covered from `a` on.
uncovered-low :
    (top a : Bytes) (hs : List Bytes) (t : Bytes)
    → before t top ≡ false
    → Ascending (a ∷ hs)
    → before a t ≡ false
    → covered top (a ∷ hs) t ≡ false
unfolding covered covers
uncovered-low top a [] t low asc h = ground (arith, low, h)
uncovered-low top a (b ∷ hs) t low asc h =
    let b_high : before b t ≡ false = elim (Bool-cases (before b t)) [
      | inl d ↦ let loop = before_trans a b t asc.0 d in cc
      | inr d ↦ d
    ] in
    let rest = uncovered-low top b hs t low asc.1 b_high in ground (arith, asc.0, h, rest)

-- A member of an ascending list is not below its first.
member-ge :
    (a : Bytes) (hs : List Bytes) (t : Bytes)
    → Ascending (a ∷ hs)
    → any (λ k. bytes_eq k t) (a ∷ hs) ≡ true
    → before t a ≡ false
member-ge a [] t asc h = elim (Bool-cases (bytes_eq a t)) [
  | inl e ↦ let same = (bytes_eq_iff a t).0 e in rw (← same) (before_irrefl a)
  | inr e ↦ cc (rw e at h)
]
member-ge a (b ∷ hs) t asc h = elim (Bool-cases (bytes_eq a t)) [
  | inl e ↦ let same = (bytes_eq_iff a t).0 e in rw (← same) (before_irrefl a)
  | inr e ↦
      let above_b = member-ge b hs t asc.1 (rw e at h) in
      elim (Bool-cases (before t a)) [
        | inl d ↦ let loop = before_trans t a b d asc.0 in cc
        | inr d ↦ d
      ]
]

covered-cons :
    (top a b : Bytes) (hs : List Bytes) (t : Bytes)
    → before a b ≡ true
    → before t b ≡ false
    → covered top (b ∷ hs) t ≡ false
    → covered top (a ∷ b ∷ hs) t ≡ false
unfolding covered covers
covered-cons top a b hs t h k rest = ground (arith, h, k, rest)

-- An owner is not covered.
uncovered-owner :
    (top a : Bytes) (hs : List Bytes) (t : Bytes)
    → before t top ≡ false
    → Ascending (a ∷ hs)
    → any (λ k. bytes_eq k t) (a ∷ hs) ≡ true
    → covered top (a ∷ hs) t ≡ false
uncovered-owner top a [] t low asc h = elim (Bool-cases (bytes_eq a t)) [
  | inl e ↦
      let same = (bytes_eq_iff a t).0 e in
      uncovered-low top a [] t low asc (rw (← same) (before_irrefl a))
  | inr e ↦ cc (rw e at h)
]
uncovered-owner top a (b ∷ hs) t low asc h = elim (Bool-cases (bytes_eq a t)) [
  | inl e ↦
      let same = (bytes_eq_iff a t).0 e in
      uncovered-low top a (b ∷ hs) t low asc (rw (← same) (before_irrefl a))
  | inr e ↦
      let tail = rw e at h in
      let under = member-ge b hs t asc.1 tail in
      let rest = uncovered-owner top b hs t low asc.1 tail in
      covered-cons top a b hs t asc.0 under rest
]

-- A whole ring covers what is no owner.
covered-ring :
    (top : Bytes) (hs : List Bytes) (t : Bytes)
    → Ascending (top ∷ hs)
    → covered top (top ∷ hs) t ≡ not (any (λ k. bytes_eq k t) (top ∷ hs))
covered-ring top hs t asc = elim (Bool-cases (any (λ k. bytes_eq k t) (top ∷ hs))) [
  | inl e ↦ uncovered-owner top top hs t (member-ge top hs t asc e) asc e ∙ rw e refl
  | inr e ↦ elim (Bool-cases (before t top)) [
    | inl d ↦ covered-below top top hs t (before_irrefl top) asc d ∙ rw e refl
    | inr d ↦
        let above : before top t ≡ true = elim (Bool-cases (before top t)) [
          | inl k ↦ k
          | inr k ↦
              let same = before_total top t k d in
              let hit = (bytes_eq_iff top t).1 same in cc (rw hit at e)
        ] in
        let fresh : any (λ k. bytes_eq k t) hs ≡ false = ground (arith, e) in
        covered-above top top hs t (before_irrefl top) asc above fresh ∙ rw e refl
  ]
]

module _ (h : Hashing) where
  -- The records of a chain with the owners' hashes: each has the next hash of the ring.
  pub data Ring (top : Bytes) : List Rr → List Bytes → Type 0 where
    closed : Ring top [] []
    linked :
        (rr : Rr) (rrs : List Rr) (a : Bytes) (hs : List Bytes)
        → owner_hash h rr.name ≡ some a
        → next_hash_of rr.opts ≡ some (following top hs)
        → Ring top rrs hs
        → Ring top (rr ∷ rrs) (a ∷ hs)

  abbrev pub is_found : Option Rr → Bool
  is_found none = false
  is_found (some rr) = true

  found-covered :
      (top : Bytes) (rrs : List Rr) (hs : List Bytes) (t : Bytes)
      → Ring top rrs hs
      → is_found (find_covering h rrs t) ≡ covered top hs t
  unfolding find_covering covered
  found-covered top rrs hs t closed = refl
  found-covered top rrs hs t (linked rr rrs' a hs' owner behind rest) =
      let later = found-covered top rrs' hs' t rest in rw (owner, behind) (ground (arith, later))

  -- In a ring of one record or more, with the owners' hashes in ascending order, `findCovering`
  -- finds a record for exactly those hashes that are no owner's.
  pub find_covering-Ring :
      (rrs : List Rr) (top : Bytes) (hs : List Bytes) (t : Bytes)
      → Ring top rrs (top ∷ hs)
      → Ascending (top ∷ hs)
      → is_found (find_covering h rrs t) ≡ not (any (λ k. bytes_eq k t) (top ∷ hs))
  find_covering-Ring rrs top hs t ring asc =
      found-covered top rrs (top ∷ hs) t ring ∙ covered-ring top hs t asc
