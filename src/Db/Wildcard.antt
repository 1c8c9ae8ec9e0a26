-- ===== src/Db/Wildcard.antt =====
-- `WildcardLookup`: which wildcard it picks.
use xfx1_dns.Prelude.{
  ℕ, ◌≡◌, ◌≢◌, true, false, List, [], ◌∷◌, Option, none, some, if◌then◌else◌, Bool-cases, inl, inr,
  arith, ◌==◌,
}
use xfx1_dns.Prelude.Bytes.{Bytes, bytes_eq, bytes_eq_iff}
use xfx1_dns.Rec.Domain.{Domain, dot}
use xfx1_dns.Rec.Types.{RRtype}
use xfx1_dns.Rec.Rr.{Rr}
use xfx1_dns.Db.{
  Db, lookup_by_name, name_exists, has_below, blocked, wildcard_of, wildcard_walk, wildcard_lookup,
}

-- `q` stands behind a dot of `s`: it is the text of a proper ancestor.
pub data Above : Bytes → Bytes → Type 0 where
  cut : {q : Bytes} → Above (dot ∷ q) q
  further : {c : ℕ} {s q : Bytes} → Above s q → Above (c ∷ s) q

-- `q` is met behind a dot of `s` before `parent` is met.
pub data Between (parent : Bytes) : Bytes → Bytes → Type 0 where
  next : {q : Bytes} → q ≢ parent → Between parent (dot ∷ q) q
  past_dot : {s q : Bytes} → s ≢ parent → Between parent s q → Between parent (dot ∷ s) q
  past : {c : ℕ} {s q : Bytes} → c ≢ dot → Between parent s q → Between parent (c ∷ s) q

-- The name is neither a key of the name index nor an ancestor of one.
abbrev pub Free : Db → Domain → Type 0
Free db q = (name_exists db q ≡ false) × (has_below db q ≡ false)

module _ (db : Db) where
  eq-false : (a b : Bytes) → a ≢ b → bytes_eq a b ≡ false
  eq-false a b h = ground (arith, bytes_eq_iff a b)

  blocked-Free : (parent s q : Bytes) → blocked db parent s ≡ false → Between parent s q → Free db q
  unfolding blocked
  blocked-Free parent _ q h (next k) = ground (arith, eq-false q parent k)
  blocked-Free parent _ q h (past_dot {s} k b) =
      blocked-Free parent s q (ground (arith, eq-false s parent k)) b
  blocked-Free parent _ q h (past {c} {s} k b) = blocked-Free parent s q (ground arith) b

  -- Why a wildcard applies at `rest`.
  record Applies (name : Domain) (t : RRtype) (rest owner : Domain) (rrs : List Rr) : Type 0 where
    parent : Domain
    is_wildcard : owner ≡ wildcard_of parent
    above : Above rest parent
    found : name_exists db (wildcard_of parent) ≡ true
    unblocked : blocked db parent name ≡ false
    records : rrs ≡ lookup_by_name db (wildcard_of parent) t

  Applies-further :
      {name : Domain} {t : RRtype} {rest owner : Domain} {rrs : List Rr} (c : ℕ)
      → Applies name t rest owner rrs
      → Applies name t (c ∷ rest) owner rrs
  Applies-further c h = record {
    parent = h.parent;
    is_wildcard = h.is_wildcard;
    above = further h.above;
    found = h.found;
    unblocked = h.unblocked;
    records = h.records;
  }

  -- What the code answers at a wildcard that exists.
  abbrev candidate : Domain → RRtype → Domain → Option (Domain × List Rr)
  candidate name t parent =
      if blocked db parent name
      then none
      else some (wildcard_of parent, lookup_by_name db (wildcard_of parent) t)

  here-Applies :
      (name : Domain) (t : RRtype) (c : ℕ) (parent owner : Domain) (rrs : List Rr)
      → c ≡ dot
      → name_exists db (wildcard_of parent) ≡ true
      → candidate name t parent ≡ some (owner, rrs)
      → Applies name t (c ∷ parent) owner rrs
  here-Applies name t c parent owner rrs d k h = elim (Bool-cases (blocked db parent name)) [
    | inl e ↦ cc (rw e at h)
    | inr e ↦ record {
      parent = parent;
      is_wildcard = cc (rw e at h);
      above = rw d cut;
      found = k;
      unblocked = e;
      records = cc (rw e at h);
    }
  ]

  wildcard_walk-Applies :
      (name zone : Domain) (t : RRtype) (rest owner : Domain) (rrs : List Rr)
      → wildcard_walk db name zone t rest ≡ some (owner, rrs)
      → Applies name t rest owner rrs
  unfolding wildcard_walk
  wildcard_walk-Applies name zone t [] owner rrs h = cc
  wildcard_walk-Applies name zone t (c ∷ parent) owner rrs h = elim (Bool-cases (c == dot)) [
    | inr e ↦ Applies-further c (wildcard_walk-Applies name zone t parent owner rrs (rw e at h))
    | inl e ↦ elim (Bool-cases (name_exists db (wildcard_of parent))) [
      | inl k ↦ here-Applies name t c parent owner rrs (ground arith) k (rw (e, k) at h)
      | inr k ↦ elim (Bool-cases (bytes_eq parent zone)) [
        | inl z ↦ cc (rw (e, k, z) at h)
        | inr z ↦
            Applies-further c
              (wildcard_walk-Applies name zone t parent owner rrs (rw (e, k, z) at h))
      ]
    ]
  ]

  wildcard_lookup-Applies :
      (name zone : Domain) (t : RRtype) (owner : Domain) (rrs : List Rr)
      → wildcard_lookup db name zone t ≡ some (owner, rrs)
      → Applies name t name owner rrs
  unfolding wildcard_lookup
  wildcard_lookup-Applies name zone t owner rrs h = elim (Bool-cases (bytes_eq name zone)) [
    | inl e ↦ cc (rw e at h)
    | inr e ↦ wildcard_walk-Applies name zone t name owner rrs (rw e at h)
  ]

  -- The wildcard that `WildcardLookup` gives exists, its parent is a proper ancestor of the name,
  -- and its records are those of the queried type.
  pub wildcard_lookup_sound :
      (name zone : Domain) (t : RRtype) (owner : Domain) (rrs : List Rr)
      → wildcard_lookup db name zone t ≡ some (owner, rrs)
      → (parent : Domain) × (owner ≡ wildcard_of parent)
        × Above name parent
        × (name_exists db owner ≡ true)
        × (rrs ≡ lookup_by_name db owner t)
  wildcard_lookup_sound name zone t owner rrs h =
      let found = wildcard_lookup-Applies name zone t owner rrs h in
      (
        found.parent,
        found.is_wildcard,
        found.above,
        rw found.is_wildcard found.found,
        rw found.is_wildcard found.records,
      )

  -- Where `WildcardLookup` gives the wildcard below `parent`, no name that is met between the
  -- queried name and `parent` exists or has descendants.
  pub wildcard_lookup_closest :
      (name zone : Domain) (t : RRtype) (parent : Domain) (rrs : List Rr) (q : Domain)
      → wildcard_lookup db name zone t ≡ some (wildcard_of parent, rrs)
      → Between parent name q
      → Free db q
  wildcard_lookup_closest name zone t parent rrs q h b =
      let found = wildcard_lookup-Applies name zone t (wildcard_of parent) rrs h in
      blocked-Free parent name q (cc (found.unblocked, found.is_wildcard)) b
