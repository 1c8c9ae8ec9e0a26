-- ===== src/Dnssec/Chain/Built.antt =====
-- The chain that is built for a zone: a ring over the hashes of its names.
use xfx1_dns.Prelude.{
  ℕ, ◌≡◌, refl, ap, ◌∙◌, inl, inr, Bool, true, false, ◌&&◌, ◌||◌, not, some, List, [], ◌∷◌, ◌++◌,
  map, arith, ◌==◌, length, any, All, leb, Bool-cases,
}
use xfx1_dns.Db.{Db}
use xfx1_dns.Dnssec.{
  Hashing, upper_byte, Nsec3Chain, before, before_dot, owner_hash, next_hash_of, find_covering,
}
use xfx1_dns.Db.Index.{lookup_all}
use xfx1_dns.Dnssec.Chain.{
  Nsec3Params, NameHash, insert_hash, sort_hashes, hashes_of, next_hash_in, zone_ttl, nsec3_rr,
  link_records, chain_records, name_hashes, chain_of, build_nsec3_chain,
}
use xfx1_dns.Dnssec.Ring.{
  following, Ascending, Ring, is_found, find_covering-Ring, Above, closed, linked,
}
use xfx1_dns.Dnssec.Order.{before_total}
use xfx1_dns.Rec.Domain.{Unicode, Domain, dot, lower_byte, to_lower}
use xfx1_dns.Rec.Types.{RRtype, type_eq}
use xfx1_dns.Rec.Rr.{Rr}
use xfx1_dns.Prelude.Bytes.{Bytes, bytes_eq, bytes_eq_iff}
use mathlib.Core.Path.{subst}

-- The extended hex alphabet of RFC 4648: the digits and the letters A to V.
abbrev pub is_digit : ℕ → Bool
is_digit c = (leb 48 c && leb c 57) || (leb 65 c && leb c 86)

-- What encoding/base32 promises.
pub record Base32 (h : Hashing) : Type 0 where
  pub digits : (b : Bytes) → All (λ c. is_digit c ≡ true) (h.encode b)
  pub decode-encode : (b : Bytes) → h.decode (h.encode b) ≡ some b

upper_lower-digit : (c : ℕ) → is_digit c ≡ true → upper_byte (lower_byte (upper_byte c)) ≡ c
unfolding upper_byte lower_byte
upper_lower-digit c d = ground (arith, d)

dot-digit : (c : ℕ) → is_digit c ≡ true → (lower_byte (upper_byte c) == dot) ≡ false
unfolding upper_byte lower_byte
dot-digit c d = ground (arith, d)

ascii-digit : (c : ℕ) → is_digit c ≡ true → leb 128 (upper_byte c) ≡ false
unfolding upper_byte
ascii-digit c d = ground (arith, d)

before_dot-digits :
    (s r : Bytes)
    → All (λ c. is_digit c ≡ true) s
    → before_dot (map lower_byte (map upper_byte s ++ (dot ∷ r)))
      ≡ some (map lower_byte (map upper_byte s))
unfolding before_dot lower_byte
before_dot-digits [] r d = refl
before_dot-digits (c ∷ s) r d = rw (dot-digit c d.0, before_dot-digits s r d.1) refl

upper_lower-digits :
    (s : Bytes)
    → All (λ c. is_digit c ≡ true) s
    → map upper_byte (map lower_byte (map upper_byte s)) ≡ s
upper_lower-digits [] d = refl
upper_lower-digits (c ∷ s) d = rw (upper_lower-digit c d.0, upper_lower-digits s d.1) refl

ascii-digits :
    (s zone : Bytes)
    → All (λ c. is_digit c ≡ true) s
    → any (λ c. leb 128 c) zone ≡ false
    → any (λ c. leb 128 c) (map upper_byte s ++ (dot ∷ zone)) ≡ false
ascii-digits [] zone d h = h
ascii-digits (c ∷ s) zone d h = rw (ascii-digit c d.0) (ascii-digits s zone d.1 h)

any-insert_hash :
    (e : NameHash) (es : List NameHash) (t : Bytes)
    → any (λ k. bytes_eq k t) (hashes_of (insert_hash e es))
      ≡ any (λ k. bytes_eq k t) (hashes_of (e ∷ es))
unfolding insert_hash
any-insert_hash e [] t = refl
any-insert_hash e (x ∷ es) t = ground (arith, any-insert_hash e es t)

any-sort_hashes :
    (es : List NameHash) (t : Bytes)
    → any (λ k. bytes_eq k t) (hashes_of (sort_hashes es)) ≡ any (λ k. bytes_eq k t) (hashes_of es)
unfolding sort_hashes
any-sort_hashes [] t = refl
any-sort_hashes (e ∷ es) t = any-insert_hash e (sort_hashes es) t ∙ rw (any-sort_hashes es t) refl

-- No two names have the same hash.
abbrev pub Distinct : List NameHash → Type 0
Distinct [] = Unit
Distinct (e ∷ es) = (any (λ k. bytes_eq k e.1) (hashes_of es) ≡ false) × Distinct es

Above-insert_hash :
    (a : Bytes) (e : NameHash) (es : List NameHash)
    → Above a (hashes_of es)
    → before a e.1 ≡ true
    → Above a (hashes_of (insert_hash e es))
unfolding insert_hash
Above-insert_hash a e [] up h = h
Above-insert_hash a e (x ∷ es) up h = elim (Bool-cases (before x.1 e.1)) [
  | inl b ↦ rw b up
  | inr b ↦ rw b h
]

any-tail :
    (a b : Bytes) (hs : List Bytes)
    → any (λ k. bytes_eq k b) (a ∷ hs) ≡ false
    → any (λ k. bytes_eq k b) hs ≡ false
any-tail a b hs h = elim (Bool-cases (bytes_eq a b)) [ inl e ↦ cc (rw e at h) | inr e ↦ rw e at h ]

Ascending-insert_hash :
    (e : NameHash) (es : List NameHash)
    → Ascending (hashes_of es)
    → any (λ k. bytes_eq k e.1) (hashes_of es) ≡ false
    → Ascending (hashes_of (insert_hash e es))
unfolding insert_hash
Ascending-insert_hash e [] asc fresh = (tt, tt)
Ascending-insert_hash e (x ∷ es) asc fresh =
    let rest_fresh : any (λ k. bytes_eq k e.1) (hashes_of es) ≡ false =
      any-tail x.1 e.1 (hashes_of es) fresh in
    let rest = Ascending-insert_hash e es asc.1 rest_fresh in
    elim (Bool-cases (before x.1 e.1)) [
      | inl b ↦ rw b (Above-insert_hash x.1 e es asc.0 b, rest)
      | inr b ↦
          let under : before e.1 x.1 ≡ true = elim (Bool-cases (before e.1 x.1)) [
            | inl d ↦ d
            | inr d ↦
                let same = before_total x.1 e.1 b d in
                let hit = (bytes_eq_iff x.1 e.1).1 same in cc (rw hit at fresh)
          ] in
          rw b (under, asc)
    ]

Ascending-sort_hashes : (es : List NameHash) → Distinct es → Ascending (hashes_of (sort_hashes es))
unfolding sort_hashes
Ascending-sort_hashes [] d = tt
Ascending-sort_hashes (e ∷ es) d =
    Ascending-insert_hash e (sort_hashes es) (Ascending-sort_hashes es d.1)
      (any-sort_hashes es e.1 ∙ d.0)

insert_hash-cons : (e : NameHash) (es : List NameHash) → ¬ (insert_hash e es ≡ [])
unfolding insert_hash
insert_hash-cons e [] h = cc
insert_hash-cons e (x ∷ es) h = elim (Bool-cases (before x.1 e.1)) [
  | inl b ↦ cc (rw b at h)
  | inr b ↦ cc (rw b at h)
]

next_hash_in-following :
    (top : Bytes) (es : List NameHash) → next_hash_in top es ≡ following top (hashes_of es)
next_hash_in-following top [] = refl
next_hash_in-following top (e ∷ es) = refl

module _ ⦃u : Unicode⦄ (h : Hashing) (law : Base32 h) where
  owner_hash-nsec3_rr :
      (zone : Domain) (b : Bytes)
      → any (λ c. leb 128 c) zone ≡ false
      → owner_hash h (to_lower (map upper_byte (h.encode b) ++ (dot ∷ zone))) ≡ some b
  unfolding owner_hash to_lower
  owner_hash-nsec3_rr zone b ascii =
      rw
        (
          ascii-digits (h.encode b) zone (law.digits b) ascii,
          before_dot-digits (h.encode b) zone (law.digits b),
        )
        (ap h.decode (upper_lower-digits (h.encode b) (law.digits b)) ∙ law.decode-encode b)

  link_records-Ring :
      (db : Db) (p : Nsec3Params) (ttl : ℕ) (top : Bytes) (es : List NameHash)
      → any (λ c. leb 128 c) db.zone ≡ false
      → Ring h top (link_records h db p ttl top es) (hashes_of es)
  unfolding link_records nsec3_rr next_hash_of
  link_records-Ring db p ttl top [] ascii = closed
  link_records-Ring db p ttl top (e ∷ es) ascii =
      linked _ _ e.1 (hashes_of es) (owner_hash-nsec3_rr db.zone e.1 ascii)
        (ap some (next_hash_in-following top es)) (link_records-Ring db p ttl top es ascii)

  sorted-name_hashes :
      (p : Nsec3Params) (m : List (Domain × List Rr))
      → (length m == 0) ≡ false
      → ¬ (sort_hashes (name_hashes h p m) ≡ [])
  unfolding name_hashes sort_hashes
  sorted-name_hashes p [] some_name e = cc
  sorted-name_hashes p ((name, rrs) ∷ m) some_name e = insert_hash-cons _ _ e

  chain_records-found :
      (db : Db) (p : Nsec3Params) (ttl : ℕ) (es : List NameHash) (t : Bytes)
      → any (λ c. leb 128 c) db.zone ≡ false
      → ¬ (es ≡ [])
      → Ascending (hashes_of es)
      → is_found h (find_covering h (chain_records h db p ttl es) t)
        ≡ not (any (λ k. bytes_eq k t) (hashes_of es))
  unfolding chain_records
  chain_records-found db p ttl [] t ascii some_name asc = absurd (some_name refl)
  chain_records-found db p ttl (e ∷ es) t ascii some_name asc =
      find_covering-Ring h _ e.1 (hashes_of es) t (link_records-Ring db p ttl e.1 (e ∷ es) ascii)
        asc

  -- The chain that `BuildNSEC3Chain` builds for a zone with an ASCII name, in which no two names have
  -- the same hash, has a record that covers a hash exactly if no name of the zone has that hash.
  pub build_nsec3_chain-covers :
      (db : Db) (p : Nsec3Params) (t : Bytes) (built : Nsec3Chain × Rr)
      → any (λ c. leb 128 c) db.zone ≡ false
      → Distinct (name_hashes h p db.by_name)
      → build_nsec3_chain h db p ≡ some built
      → is_found h (find_covering h (built.0.records) t)
        ≡ not (any (λ k. bytes_eq k t) (hashes_of (name_hashes h p db.by_name)))
  unfolding build_nsec3_chain
  build_nsec3_chain-covers db p t built ascii distinct run =
      elim (Bool-cases (length db.by_name == 0)) [
        | inl e ↦ cc (rw e at run)
        | inr e ↦
            let es = sort_hashes (name_hashes h p db.by_name) in
            let ttl = zone_ttl (lookup_all type_eq RRtype.soa db.by_type) in
            let same : ◌≡◌ {A = Nsec3Chain × Rr} (chain_of h db p ttl es) built =
              cc (rw e at run) in
            let found =
              chain_records-found db p ttl es t ascii (sorted-name_hashes p db.by_name e)
                (Ascending-sort_hashes (name_hashes h p db.by_name) distinct) in
            let total = found ∙ ap not (any-sort_hashes (name_hashes h p db.by_name) t) in
            subst
              (λ r.
                is_found h (find_covering h (r.0.records) t)
                ≡ not (any (λ k. bytes_eq k t) (hashes_of (name_hashes h p db.by_name))))
              same total
      ]
