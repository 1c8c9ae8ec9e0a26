-- ===== src/Dnssec/Lookups.antt =====
-- internal/dnssec/nsec3proof.go: the lookups of `ClosestEncloserProof`, and that their names end in
-- a dot, as the server's theorems want it.
use xfx1_dns.Prelude.{
  ℕ, ◌||◌, not, Option, none, some, List, [], ◌∷◌, ◌++◌, ◌==◌, if◌then◌else◌, length, All, All-if,
}
use xfx1_dns.Db.{Call, has_suffix}
use xfx1_dns.Dnssec.{
  Hashing, Nsec3Chain, build_candidates, hash_key, find_encloser, no_candidates,
  closest_encloser_proof,
}
use xfx1_dns.Db.Dots.{Dotted}
use xfx1_dns.Slave.Response.{Chain}
use xfx1_dns.Slave.Response.Dots.{DottedCall, LooksUpDots}
use xfx1_dns.Rec.Domain.{Unicode, Domain, dot, ends_dot}
use xfx1_dns.Rec.Types.{RRtype}
use xfx1_dns.Prelude.Bytes.{Bytes, bytes_eq}

ends_dot-cons : (k : ℕ) (s : Bytes) → Dotted s → Dotted (k ∷ s)
unfolding ends_dot
ends_dot-cons k [] h = cc
ends_dot-cons k (d ∷ r) h = h

ends_dot-append : (front s : Bytes) → Dotted s → Dotted (front ++ s)
ends_dot-append [] s h = h
ends_dot-append (k ∷ front) s h = ends_dot-cons k (front ++ s) (ends_dot-append front s h)

module _ ⦃u : Unicode⦄ (h : Hashing) (c : Nsec3Chain) where
  -- The calls of `LookupByType` that `ClosestEncloserProof` makes: one, for a proper encloser.
  abbrev pub encloser_calls : Domain → Option (Domain × Option Domain) → List Call
  encloser_calls zone none = []
  encloser_calls zone (some (ce, none)) = []
  encloser_calls zone (some (ce, some nc)) = (hash_key h c ce ++ (dot ∷ zone), RRtype.nsec3) ∷ []

  unfoldable pub proof_calls : Domain → Domain → List Call
  proof_calls queried zone =
      let cands = build_candidates queried zone in
      if length c.by_hash == 0
        || bytes_eq queried zone
        || not (has_suffix queried (dot ∷ zone))
        || no_candidates h c cands
      then []
      else encloser_calls zone (find_encloser h c zone none cands)

  -- What the server has of a chain.
  abbrev pub served_chain : Chain
  served_chain = record { proof_of = closest_encloser_proof h c; lookups = proof_calls }

  encloser_calls-Dotted :
      (zone : Domain) (found : Option (Domain × Option Domain))
      → Dotted zone
      → All DottedCall (encloser_calls zone found)
  encloser_calls-Dotted zone none z = tt
  encloser_calls-Dotted zone (some (ce, none)) z = tt
  encloser_calls-Dotted zone (some (ce, some nc)) z =
      (ends_dot-append (hash_key h c ce) (dot ∷ zone) (ends_dot-cons dot zone z), tt)

  -- `ClosestEncloserProof` looks up names with a trailing dot alone, in a zone that has one.
  served_chain-LooksUpDots : LooksUpDots (some served_chain)
  unfolding LooksUpDots proof_calls
  served_chain-LooksUpDots name zone z =
      let cands = build_candidates name zone in
      All-if DottedCall _ [] (encloser_calls zone (find_encloser h c zone none cands)) tt
        (encloser_calls-Dotted zone (find_encloser h c zone none cands) z)
