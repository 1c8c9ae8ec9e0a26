-- ===== src/Dnssec/Proof.antt =====
-- What the three records of a proof of denial say.
use xfx1_dns.Prelude.{
  ◌≡◌, refl, inl, inr, Bool, true, false, ◌||◌, not, Option, none, some, List, [], ◌∷◌, ◌++◌, ◌==◌,
  length, filter, Bool-cases, sym, ap, ◌∙◌, arith, All,
}
use xfx1_dns.Db.{Db, lookup_by_type, has_suffix, wildcard_of}
use xfx1_dns.Dnssec.{
  Hashing, Nsec3Chain, if_some, owner_hash, next_hash_of, covers_hash, find_covering,
  build_candidates, hash_of, hash_key, in_chain, find_encloser, first_rr, proof_for, no_candidates,
  closest_encloser_proof, candidates_of,
}
use xfx1_dns.Slave.Response.{EncloserProof}
use xfx1_dns.Rec.Domain.{Unicode, Domain, dot, same_domain, split_dots}
use xfx1_dns.Rec.Types.{RRtype}
use xfx1_dns.Rec.Rr.{Rr}
use xfx1_dns.Prelude.Bytes.{Bytes, bytes_eq}
use mathlib.Core.Path.{subst}
use xfx1_dns.Dnssec.Path.{
  OnPath, head_name, head_name-cons, head_name-split_dots, build_candidates-cases,
}
use mathlib.Core.List.{append_assoc}
use xfx1_dns.Rec.Domain.Labels.{DotFree, split_dots-DotFree}

if_some-eq-some {ℓ κ} :
    {A : Type ℓ} {B : Type κ} (o : Option A) (f : A → Option B) {b : B}
    → if_some o f ≡ some b
    → (a : A) × (o ≡ some a) × (f a ≡ some b)
if_some-eq-some none f run = cc
if_some-eq-some (some a) f run = (a, refl, run)

-- A record whose segment of the ring has the hash in it.
abbrev pub Covers : Hashing → Rr → Bytes → Type 0
Covers h rr t = covers_hash (owner_hash h rr.name) (next_hash_of rr.opts) t ≡ true

find_covering-Covers :
    (h : Hashing) (rrs : List Rr) (t : Bytes) (rr : Rr)
    → find_covering h rrs t ≡ some rr
    → Covers h rr t
unfolding find_covering
find_covering-Covers h [] t rr run = cc
find_covering-Covers h (x ∷ rrs) t rr run =
    elim (Bool-cases (covers_hash (owner_hash h x.name) (next_hash_of x.opts) t)) [
      | inl e ↦ let same : x ≡ rr = cc (rw e at run) in subst (λ y. Covers h y t) same e
      | inr e ↦ find_covering-Covers h rrs t rr (rw e at run)
    ]

module _ ⦃u : Unicode⦄ (h : Hashing) (c : Nsec3Chain) where
  -- An encloser that exists in the chain, and the name one label longer on the way to the queried
  -- name, which does not, with the records that match the one and cover the other and the wildcard.
  pub record Denies (queried zone : Domain) (p : EncloserProof) : Type 0 where
    pub encloser : Domain
    pub closer : Domain
    pub path : OnPath queried closer encloser
    pub encloser_exists : in_chain h c encloser ≡ true
    pub closer_missing : in_chain h c closer ≡ false
    pub matches : same_domain p.closest_encloser.name (hash_key h c encloser ++ (dot ∷ zone)) ≡ true
    pub covers_closer : Covers h p.next_closer (hash_of h c closer)
    pub covers_wildcard : Covers h p.wildcard_at_ce (hash_of h c (wildcard_of encloser))

  -- The name before is not in the chain.
  abbrev Missing : Option Domain → Type 0
  Missing none = Unit
  Missing (some d) = in_chain h c d ≡ false

  find_encloser-Missing :
      (zone : Domain) (prev : Option Domain) (cands : List Domain) (ce : Domain) (o : Option Domain)
      → Missing prev
      → find_encloser h c zone prev cands ≡ some (ce, o)
      → (in_chain h c ce ≡ true) × Missing o
  unfolding find_encloser
  find_encloser-Missing zone prev [] ce o m run = elim (Bool-cases (in_chain h c zone)) [
    | inl e ↦
        let same : zone ≡ ce = cc (rw e at run) in
        let same' : prev ≡ o = cc (rw e at run) in
        (subst (λ d. in_chain h c d ≡ true) same e, subst Missing same' m)
    | inr e ↦ cc (rw e at run)
  ]
  find_encloser-Missing zone prev (d ∷ cands) ce o m run = elim (Bool-cases (in_chain h c d)) [
    | inl e ↦
        let same : d ≡ ce = cc (rw e at run) in
        let same' : prev ≡ o = cc (rw e at run) in
        (subst (λ d. in_chain h c d ≡ true) same e, subst Missing same' m)
    | inr e ↦ find_encloser-Missing zone (some d) cands ce o e (rw e at run)
  ]

  -- The candidate before, if any, is one label below `d`, and the queried name ends in it.
  abbrev Before : Domain → Option Domain → Domain → Type 0
  Before queried none d = Unit
  Before queried (some closer) d = OnPath queried closer d

  find_encloser-Before :
      (queried zone : Domain) (prev : Option Domain) (ls : List Bytes) (front : Bytes) (ce : Domain)
      (o : Option Domain)
      → All DotFree ls
      → queried ≡ front ++ head_name zone ls
      → Before queried prev (head_name zone ls)
      → find_encloser h c zone prev (candidates_of zone ls) ≡ some (ce, o)
      → Before queried o ce
  unfolding find_encloser candidates_of
  find_encloser-Before queried zone prev [] front ce o free e k run =
      elim (Bool-cases (in_chain h c zone)) [
        | inl i ↦
            let same : zone ≡ ce = cc (rw i at run) in
            let same' : prev ≡ o = cc (rw i at run) in
            subst (λ d. Before queried o d) same (subst (λ d. Before queried d zone) same' k)
        | inr i ↦ cc (rw i at run)
      ]
  find_encloser-Before queried zone prev (l ∷ ls) front ce o free e k run =
      let cand = head_name zone (l ∷ ls) in
      elim (Bool-cases (in_chain h c cand)) [
        | inl i ↦
            let same : cand ≡ ce = cc (rw i at run) in
            let same' : prev ≡ o = cc (rw i at run) in
            subst (λ d. Before queried o d) same (subst (λ d. Before queried d cand) same' k)
        | inr i ↦
            let step = head_name-cons zone l ls in
            let longer : queried ≡ (front ++ (l ++ (dot ∷ []))) ++ head_name zone ls =
              e
              ∙ ap (λ d. front ++ d) step
              ∙ ap (λ d. front ++ d) (sym (append_assoc l (dot ∷ []) (head_name zone ls)))
              ∙ sym (append_assoc front (l ++ (dot ∷ [])) (head_name zone ls)) in
            let below : OnPath queried cand (head_name zone ls) = record {
              label = l;
              dot_free = free.0;
              child = step;
              front = front;
              below = e;
            } in
            find_encloser-Before queried zone (some cand) ls (front ++ (l ++ (dot ∷ []))) ce o
              free.1 longer below (rw i at run)
      ]

  candidates-Before :
      (rel : Bytes) (zone : Domain) (cands : List Domain) (ce : Domain) (o : Option Domain)
      → has_suffix rel (dot ∷ []) ≡ false
      → build_candidates (rel ++ (dot ∷ zone)) zone ≡ cands
      → (length c.by_hash == 0
          || bytes_eq (rel ++ (dot ∷ zone)) zone
          || not (has_suffix (rel ++ (dot ∷ zone)) (dot ∷ zone))
          || no_candidates h c cands)
        ≡ false
      → find_encloser h c zone none cands ≡ some (ce, o)
      → Before (rel ++ (dot ∷ zone)) o ce
  candidates-Before rel zone cands ce o no_dot built guard run =
      let queried = rel ++ (dot ∷ zone) in
      elim (build_candidates-cases rel zone no_dot) [
        | inl e ↦
            let nothing : cands ≡ [] = sym built ∙ e in
            let stop : no_candidates h c cands ≡ true = rw nothing refl in
            absurd (ground (arith, guard, stop))
        | inr e ↦
            let same : cands ≡ candidates_of zone (split_dots rel) = sym built ∙ e in
            find_encloser-Before queried zone none (split_dots rel) [] ce o (split_dots-DotFree rel)
              (sym (head_name-split_dots zone rel)) tt
              (subst (λ x. find_encloser h c zone none x ≡ some (ce, o)) same run)
      ]

  first_rr-filter :
      (p : Rr → Bool) (rrs : List Rr) (rr : Rr)
      → first_rr h c (filter p rrs) ≡ some rr
      → p rr ≡ true
  first_rr-filter p [] rr run = cc
  first_rr-filter p (x ∷ rrs) rr run = elim (Bool-cases (p x)) [
    | inl e ↦ let same : x ≡ rr = cc (rw e at run) in subst (λ y. p y ≡ true) same e
    | inr e ↦ first_rr-filter p rrs rr (rw e at run)
  ]

  proof_for-Denies :
      (queried zone : Domain) (db : Db) (ce : Domain) (o : Option Domain) (p : EncloserProof)
      → in_chain h c ce ≡ true
      → Missing o
      → Before queried o ce
      → proof_for h c zone db (ce, o) ≡ some p
      → Denies queried zone p
  unfolding proof_for lookup_by_type
  proof_for-Denies queried zone db ce none p known m path run = cc
  proof_for-Denies queried zone db ce (some nc) p known m path run =
      let (ce_rr, matched, run1) =
        if_some-eq-some
          (first_rr h c (lookup_by_type db (hash_key h c ce ++ (dot ∷ zone)) RRtype.nsec3)) _ run in
      let (nc_rr, closer, run2) =
        if_some-eq-some (find_covering h c.records (hash_of h c nc)) _ run1 in
      let (w_rr, wild, last) =
        if_some-eq-some (find_covering h c.records (hash_of h c (wildcard_of ce))) _ run2 in
      let whole : ◌≡◌ {A = EncloserProof}
          (record { closest_encloser = ce_rr; next_closer = nc_rr; wildcard_at_ce = w_rr }) p =
        cc in
      subst (Denies queried zone) whole (record {
        encloser = ce;
        closer = nc;
        path = path;
        encloser_exists = known;
        closer_missing = m;
        matches =
            first_rr-filter (λ rr. same_domain rr.name (hash_key h c ce ++ (dot ∷ zone))) _ ce_rr
              matched;
        covers_closer = find_covering-Covers h c.records (hash_of h c nc) nc_rr closer;
        covers_wildcard = find_covering-Covers h c.records (hash_of h c (wildcard_of ce)) w_rr wild;
      })

  -- What `ClosestEncloserProof` returns denies a name below the zone whose relative part does not
  -- end in a dot: its first record matches the hash of an encloser that is in the chain, its second
  -- covers the hash of the name one label below the encloser in which the queried name ends, which
  -- is not in the chain, and its third covers the hash of the wildcard below the encloser.
  pub closest_encloser_proof-Denies :
      (rel : Bytes) (zone : Domain) (db : Db) (p : EncloserProof)
      → has_suffix rel (dot ∷ []) ≡ false
      → closest_encloser_proof h c (rel ++ (dot ∷ zone)) zone db ≡ some p
      → Denies (rel ++ (dot ∷ zone)) zone p
  unfolding closest_encloser_proof
  closest_encloser_proof-Denies rel zone db p no_dot run =
      let queried = rel ++ (dot ∷ zone) in
      let cands = build_candidates queried zone in
      elim (Bool-cases (
        length c.by_hash == 0
        || bytes_eq queried zone
        || not (has_suffix queried (dot ∷ zone))
        || no_candidates h c cands)) [
          | inl e ↦ cc (rw e at run)
          | inr e ↦
              let (encloser, found, last) =
                if_some-eq-some (find_encloser h c zone none cands) _ (rw e at run) in
              let (known, absent) =
                find_encloser-Missing zone none cands encloser.0 encloser.1 tt found in
              let path =
                candidates-Before rel zone cands encloser.0 encloser.1 no_dot refl e found in
              proof_for-Denies queried zone db encloser.0 encloser.1 p known absent path last
        ]
