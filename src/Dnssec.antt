-- ===== src/Dnssec.antt =====
-- internal/dnssec/nsec3.go, nsec3proof.go: hashes of names and proofs of denial.
pub mod Order
pub mod Ring
pub mod Path
pub mod Proof
pub mod Lookups
pub mod Chain
use xfx1_dns.Prelude.{
  ℕ, zero, suc, ◌+◌, ◌-◌, ◌*◌, ◌/◌, ◌%◌, ◌^◌, ◌≤◌, ◌<◌, bit_and, bit_or, ◌≡◌, refl, sym, ap, ◌∙◌,
  ◌≢◌, ◌↔◌, ◌⊎◌, inl, inr, Bool, true, false, ◌&&◌, ◌||◌, not, Option, none, some, List, [], ◌∷◌,
  ◌++◌, map, reverse, arith, ◌==◌, if◌then◌else◌, length, take, any,
}
use xfx1_dns.Db.{Db, lookup_by_type, has_suffix, wildcard_of}
use xfx1_dns.Slave.Response.{EncloserProof}
use xfx1_dns.Rec.Domain.{
  Unicode, Domain, dot, to_lower, split_dots, write, Sign, compare_bytes, less,
}
use xfx1_dns.Rec.Parse.{join_dots}
use xfx1_dns.Rec.Types.{RRtype}
use xfx1_dns.Rec.Opts.{RRopts}
use xfx1_dns.Rec.Rr.{Rr}
use xfx1_dns.Prelude.Bytes.{Bytes, bytes_eq}
use xfx1_dns.Prelude.Result.{◌>>=◌}
use xfx1_dns.Prelude.{leb}

-- SHA-1, and base32 with the extended hex alphabet without padding.
pub record Hashing : Type 0 where
  pub sha1 : Bytes → Bytes
  pub encode : Bytes → Bytes
  pub decode : Bytes → Option Bytes

-- strings.ToUpper; beyond ASCII, where no record of a chain has its name, the text stays.
unfoldable pub upper_byte : ℕ → ℕ
upper_byte c = if leb 97 c && leb c 122 then c - 32 else c

-- NSEC3Chain: the parameters, the records by owner, and the keys of byHash.
pub record Nsec3Chain : Type 0 where
  pub iterations : ℕ
  pub salt : Bytes
  pub records : List Rr
  pub by_hash : List Bytes

-- The rounds of `HashName` behind the first.
unfoldable pub hash_rounds : Hashing → ℕ → Bytes → Bytes → Bytes
hash_rounds h zero salt digest = digest
hash_rounds h (suc n) salt digest = hash_rounds h n salt (h.sha1 (digest ++ salt))

unfoldable pub hash_name : Hashing → Domain → ℕ → Bytes → Bytes
hash_name h name iterations salt = hash_rounds h iterations salt (h.sha1 (write name ++ salt))

abbrev pub before : Bytes → Bytes → Bool
before a b = elim (compare_bytes a b) [ Sign.less ↦ true | _ ↦ false ]

-- `covers`: the hash lies between owner and next, or, where the ring closes, behind the owner or
-- before the next.
unfoldable pub covers : Bytes → Bytes → Bytes → Bool
covers owner following target =
    if before owner following
    then before owner target && before target following
    else before owner target || before target following

abbrev pub with_head : ℕ → Option Bytes → Option Bytes
with_head c none = none
with_head c (some s) = some (c ∷ s)

-- The text before the first dot, if there is a dot.
unfoldable pub before_dot : Bytes → Option Bytes
before_dot [] = none
before_dot (c ∷ s) = let rest = before_dot s in if c == dot then some [] else with_head c rest

abbrev pub decoded : Hashing → Option Bytes → Option Bytes
decoded h none = none
decoded h (some text) = h.decode (map upper_byte text)

-- The error of a step ends a chain of steps.
abbrev pub if_some {ℓ κ} : {A : Type ℓ} {B : Type κ} → Option A → (A → Option B) → Option B
if_some none f = none
if_some (some a) f = f a

-- The owner hash of an NSEC3 record; `none` for a record that the loop of `findCovering` skips.
unfoldable pub owner_hash : Hashing → Domain → Option Bytes
owner_hash h name = decoded h (before_dot name)

unfoldable pub next_hash_of : RRopts → Option Bytes
next_hash_of (RRopts.nsec3 o) = some o.next_hash
next_hash_of _ = none

abbrev pub covers_hash : Option Bytes → Option Bytes → Bytes → Bool
covers_hash (some owner) (some following) target = covers owner following target
covers_hash _ _ target = false

unfoldable pub find_covering : Hashing → List Rr → Bytes → Option Rr
find_covering h [] target = none
find_covering h (rr ∷ rrs) target =
    let rest = find_covering h rrs target in
    if covers_hash (owner_hash h rr.name) (next_hash_of rr.opts) target then some rr else rest

-- strings.TrimSuffix
unfoldable pub trim_suffix : Bytes → Bytes → Bytes
trim_suffix s suffix = if has_suffix s suffix then take (length s - length suffix) s else s

-- The names from the labels of the relative name on, each under the zone.
unfoldable pub candidates_of : Domain → List Bytes → List Domain
candidates_of zone [] = []
candidates_of zone (l ∷ ls) = (join_dots (l ∷ ls) ++ (dot ∷ zone)) ∷ candidates_of zone ls

unfoldable pub build_candidates : Domain → Domain → List Domain
build_candidates queried zone =
    let rel = trim_suffix (trim_suffix queried (dot ∷ zone)) (dot ∷ []) in
    if bytes_eq rel [] || bytes_eq rel zone then [] else candidates_of zone (split_dots rel)

module _ ⦃u : Unicode⦄ (h : Hashing) (c : Nsec3Chain) where
  abbrev pub hash_of : Domain → Bytes
  hash_of name = hash_name h name c.iterations c.salt

  -- strings.ToLower(nsec3Encoding.EncodeToString(h))
  abbrev pub hash_key : Domain → Bytes
  hash_key name = to_lower (h.encode (hash_of name))

  abbrev pub in_chain : Domain → Bool
  in_chain name = any (λ k. bytes_eq k (hash_key name)) c.by_hash

  -- The first candidate in the chain, or else the apex, with the candidate before it.
  unfoldable pub find_encloser :
      Domain → Option Domain → List Domain → Option (Domain × Option Domain)
  find_encloser zone prev [] = if in_chain zone then some (zone, prev) else none
  find_encloser zone prev (cand ∷ cands) =
      if in_chain cand then some (cand, prev) else find_encloser zone (some cand) cands

  abbrev pub first_rr : List Rr → Option Rr
  first_rr [] = none
  first_rr (rr ∷ rrs) = some rr

  -- The three records, for an encloser and its next closer. What the lookup compares, with a panic
  -- on some texts, is in `proof_calls`.
  unfoldable pub proof_for : Domain → Db → Domain × Option Domain → Option EncloserProof
  proof_for zone db (ce, none) = none
  proof_for zone db (ce, some nc) =
      if_some (first_rr (lookup_by_type db (hash_key ce ++ (dot ∷ zone)) RRtype.nsec3)) λ ce_rr.
        if_some (find_covering h c.records (hash_of nc)) λ nc_rr.
          if_some (find_covering h c.records (hash_of (wildcard_of ce))) λ wildcard_rr.
            some (record {
              closest_encloser = ce_rr;
              next_closer = nc_rr;
              wildcard_at_ce = wildcard_rr;
            })

  abbrev pub no_candidates : List Domain → Bool
  no_candidates [] = true
  no_candidates (cand ∷ cands) = false

  -- `ClosestEncloserProof`; an error is `none`.
  unfoldable pub closest_encloser_proof : Domain → Domain → Db → Option EncloserProof
  closest_encloser_proof queried zone db =
      let cands = build_candidates queried zone in
      if length c.by_hash == 0
        || bytes_eq queried zone
        || not (has_suffix queried (dot ∷ zone))
        || no_candidates cands
      then none
      else if_some (find_encloser zone none cands) (proof_for zone db)
