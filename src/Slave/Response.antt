-- ===== src/Slave/Response.antt =====
-- internal/slave/response.go: the records of an answer, with their DNSSEC records.
pub mod Known
pub mod Records
pub mod Rrset
pub mod Calls
pub mod Dots
use xfx1_dns.Prelude.{
  ℕ, Bool, true, false, not, ◌&&◌, ◌||◌, List, [], ◌∷◌, ◌++◌, Option, none, some, map,
}
use xfx1_dns.Prelude.{length, filter, any, ◌==◌, if◌then◌else◌}
use xfx1_dns.Prelude.Bytes.{bytes_eq}
use xfx1_dns.Rec.Domain.{Domain, Unicode}
use xfx1_dns.Rec.Types.{RRtype, type_eq, to_wire}
use xfx1_dns.Rec.Opts.{RRopts, Rrsig}
use xfx1_dns.Rec.Rr.{Rr}
use xfx1_dns.Db.{
  Call, Db, lookup_by_type, lookup_by_name, name_exists, wildcard_lookup, lookup_additional,
}
use xfx1_dns.Dns.Response.{rcode_no_error, rcode_nx_domain}

-- What `lookupRRset` returns.
pub record Lookup : Type 0 where
  pub rcode : ℕ
  pub answers : List Rr
  pub additional : List Rr
  pub effective_owner : Domain

-- Copies of the wildcard's records with the queried name.
unfoldable pub synthesise_answers : List Rr → Domain → List Rr
synthesise_answers rrs queried = map {A = Rr} (λ rr. record rr { name = queried }) rrs

abbrev pub is_cname : RRtype → Bool
is_cname t = type_eq t RRtype.cname

abbrev pub empty_answer : ℕ → Domain → Lookup
empty_answer rcode owner = record {
  rcode = rcode;
  answers = [];
  additional = [];
  effective_owner = owner;
}

module _ ⦃u : Unicode⦄ where
  abbrev pub positive : Db → Domain → RRtype → List Rr → Lookup
  positive db owner qtype answers = record {
    rcode = rcode_no_error;
    answers = answers;
    additional = lookup_additional db answers qtype;
    effective_owner = owner;
  }

  -- What a wildcard match gives.
  unfoldable pub expand_wildcard : Db → Domain → RRtype → Domain → List Rr → Lookup
  unfolding synthesise_answers
  expand_wildcard db name rrtype owner [] =
      let cnames = lookup_by_name db owner RRtype.cname in
      if not (is_cname rrtype) && not (length cnames == 0)
      then positive db owner RRtype.cname (synthesise_answers cnames name)
      else empty_answer rcode_no_error owner
  expand_wildcard db name rrtype owner (rr ∷ rrs) =
      positive db owner rrtype (synthesise_answers (rr ∷ rrs) name)

  -- The answer for the result of `WildcardLookup`.
  unfoldable pub wildcard_answer : Db → Domain → RRtype → Option (Domain × List Rr) → Lookup
  wildcard_answer db name rrtype none = empty_answer rcode_nx_domain name
  wildcard_answer db name rrtype (some (owner, rrs)) = expand_wildcard db name rrtype owner rrs

  -- The steps behind the direct hits: NODATA, wildcard, NXDOMAIN.
  unfoldable pub lookup_absent : Db → Domain → RRtype → Lookup
  lookup_absent db name rrtype =
      if name_exists db name
      then empty_answer rcode_no_error name
      else wildcard_answer db name rrtype (wildcard_lookup db name db.zone rrtype)

  unfoldable pub lookup_rrset : Db → Domain → RRtype → Lookup
  lookup_rrset db name rrtype =
      let answers = lookup_by_type db name rrtype in
      let cnames = lookup_by_type db name RRtype.cname in
      if not (length answers == 0)
      then positive db name rrtype answers
      else if not (is_cname rrtype) && not (length cnames == 0)
      then positive db name RRtype.cname cnames
      else lookup_absent db name rrtype

-- A signature over the type of wire value `covered`.
unfoldable pub covers_type : ℕ → Rr → Bool
covers_type covered rr = elim rr.opts [ RRopts.rrsig o ↦ o.type_covered == covered | _ ↦ false ]

-- The type that the answers' signatures must cover: that of the first answer that is no signature.
unfoldable pub answer_type : ℕ → List Rr → ℕ
answer_type qtype [] = qtype
answer_type qtype (rr ∷ rrs) =
    let rest = answer_type qtype rrs in
    if type_eq rr.rrtype RRtype.rrsig
    then rest
    else elim (to_wire rr.rrtype) [ none ↦ qtype | some t ↦ t ]

-- dnssec.EncloserProof
pub record EncloserProof : Type 0 where
  pub closest_encloser : Rr
  pub next_closer : Rr
  pub wildcard_at_ce : Rr

-- NSEC3Chain.ClosestEncloserProof as the server uses it: queried name, zone and database to a
-- proof, or `none` on an error, and the calls of `LookupByType` that it makes for name and zone.
pub record Chain : Type 0 where
  pub proof_of : Domain → Domain → Db → Option EncloserProof
  pub lookups : Domain → Domain → List Call

-- The loop that drops records whose name was met before.
unfoldable pub distinct_names : List Rr → List Domain → List Rr
distinct_names [] seen = []
distinct_names (rr ∷ rrs) seen = elim (any (bytes_eq rr.name) seen) [
  | true ↦ distinct_names rrs seen
  | false ↦ rr ∷ distinct_names rrs (rr.name ∷ seen)
]

unfoldable pub proof_records : EncloserProof → List Rr
unfolding distinct_names
proof_records p = distinct_names (p.closest_encloser ∷ p.next_closer ∷ p.wildcard_at_ce ∷ []) []

-- Answers and authority, and whether the proof failed.
pub record Signed : Type 0 where
  pub answers : List Rr
  pub authority : List Rr
  pub failed : Bool

module _ ⦃u : Unicode⦄ where
  -- The signatures at `owner` that cover a type.
  unfoldable pub signatures : Db → Domain → ℕ → List Rr
  unfolding covers_type
  signatures db owner covered = filter (covers_type covered) (lookup_by_type db owner RRtype.rrsig)

  unfoldable pub proof_signatures : Db → List Rr → List Rr
  unfolding signatures
  proof_signatures db [] = []
  proof_signatures db (rr ∷ rrs) = signatures db rr.name 50 ++ proof_signatures db rrs

  abbrev pub nx_proof : Db → Option EncloserProof → List Rr → List Rr → Signed
  nx_proof db none answers authority = record {
    answers = answers;
    authority = authority;
    failed = true;
  }
  nx_proof db (some p) answers authority = record {
    answers = answers;
    authority = (authority ++ proof_records p) ++ proof_signatures db (proof_records p);
    failed = false;
  }

  abbrev pub nx_chain : Db → Option Chain → Domain → List Rr → List Rr → Signed
  nx_chain db none name answers authority = record {
    answers = answers;
    authority = authority;
    failed = false;
  }
  nx_chain db (some chain) name answers authority =
      nx_proof db (chain.proof_of name db.zone db) answers authority

  unfoldable pub append_dnssec :
      Db → Option Chain → Domain → Domain → ℕ → ℕ → List Rr → List Rr → Bool → Signed
  append_dnssec db chain name effective_owner qtype rcode answers authority do_bit =
      let unchanged : Signed = record {
        answers = answers;
        authority = authority;
        failed = false;
      } in
      if not do_bit || not db.dnssec_enabled
      then unchanged
      else if rcode == rcode_no_error
      then (if length answers == 0 then unchanged else record {
        answers = answers ++ signatures db effective_owner (answer_type qtype answers);
        authority = authority;
        failed = false;
      })
      else if rcode == rcode_nx_domain
      then nx_chain db chain name answers authority
      else unchanged

  unfoldable pub append_negative_authority : Db → ℕ → List Rr → List Rr → Bool → List Rr
  append_negative_authority db rcode answers authority do_bit =
      if not (rcode == rcode_nx_domain) && not (rcode == rcode_no_error && length answers == 0)
      then authority
      else (let with_soa = authority ++ lookup_by_type db db.zone RRtype.soa in
          if do_bit && db.dnssec_enabled then with_soa ++ signatures db db.zone 6 else with_soa)
