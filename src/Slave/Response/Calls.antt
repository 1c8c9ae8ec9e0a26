-- ===== src/Slave/Response/Calls.antt =====
-- internal/slave/response.go, internal/db/db.go: the calls of `LookupByType` that an answer makes.
-- Each of them compares names with `CompareDomain`, which panics on some texts.
use xfx1_dns.Prelude.{
  ℕ, Bool, ◌&&◌, ◌||◌, not, Option, none, some, List, [], ◌∷◌, ◌++◌, ◌==◌, if◌then◌else◌, length,
}
use xfx1_dns.Db.{Db, lookup_by_type, compare_owners, fresh_target}
use xfx1_dns.Db.{Call}
use xfx1_dns.Db.Index.{lookup_all}
use xfx1_dns.Dns.Response.{rcode_nx_domain, rcode_no_error}
use xfx1_dns.Slave.Response.{
  is_cname, lookup_rrset, EncloserProof, Chain, proof_records, append_dnssec,
}
use xfx1_dns.Rec.Domain.{Unicode, NameError, Domain}
use xfx1_dns.Rec.Types.{RRtype, type_eq}
use xfx1_dns.Rec.Rr.{Rr}
use xfx1_dns.Prelude.Result.{Result, ok, ◌>>=◌}

unfoldable pub run_calls : ⦃u : Unicode⦄ → Db → List Call → Result NameError (Unit {0})
run_calls db [] = ok tt
run_calls db ((name, t) ∷ calls) =
    compare_owners (lookup_all type_eq t db.by_type) name >>= λ _. run_calls db calls

-- The calls of `LookupAdditional`.
unfoldable pub additional_calls : List Rr → List Domain → List Call
additional_calls [] seen = []
additional_calls (rr ∷ rrs) seen = elim (fresh_target seen rr) [
  | none ↦ additional_calls rrs seen
  | some target ↦ (target, RRtype.a) ∷ (target, RRtype.aaaa) ∷ additional_calls rrs (target ∷ seen)
]

-- The calls for the signatures of the records of a proof.
unfoldable pub owner_calls : List Rr → List Call
owner_calls [] = []
owner_calls (rr ∷ rrs) = (rr.name, RRtype.rrsig) ∷ owner_calls rrs

abbrev pub denial_calls : Option EncloserProof → List Call
denial_calls none = []
denial_calls (some p) = owner_calls (proof_records p)

abbrev pub chain_proof : Db → Option Chain → Domain → Option EncloserProof
chain_proof db none name = none
chain_proof db (some chain) name = chain.proof_of name db.zone db

abbrev pub chain_calls : Db → Option Chain → Domain → List Call
chain_calls db none name = []
chain_calls db (some chain) name = chain.lookups name db.zone

-- The calls of `appendDNSSEC`.
unfoldable pub dnssec_calls : Db → Option Chain → Domain → Domain → ℕ → List Rr → Bool → List Call
dnssec_calls db chain name owner rcode answers do_bit =
    if not do_bit || not db.dnssec_enabled
    then []
    else if rcode == rcode_no_error
    then (if length answers == 0 then [] else (owner, RRtype.rrsig) ∷ [])
    else if rcode == rcode_nx_domain
    then chain_calls db chain name ++ denial_calls (chain_proof db chain name)
    else []

-- The calls of `appendNegativeAuthority`.
unfoldable pub negative_calls : Db → ℕ → List Rr → Bool → List Call
negative_calls db rcode answers do_bit =
    if not (rcode == rcode_nx_domain) && not (rcode == rcode_no_error && length answers == 0)
    then []
    else if do_bit && db.dnssec_enabled
    then (db.zone, RRtype.soa) ∷ (db.zone, RRtype.rrsig) ∷ []
    else (db.zone, RRtype.soa) ∷ []

module _ ⦃u : Unicode⦄ where
  -- The calls of `lookupRRset`: for the type, for CNAME where there is none, and for the targets.
  unfoldable pub rrset_calls : Db → Domain → RRtype → List Call
  rrset_calls db name t =
      let found = lookup_rrset db name t in
      let targets = additional_calls found.answers [] in
      if length (lookup_by_type db name t) == 0 && not (is_cname t)
      then (name, t) ∷ (name, RRtype.cname) ∷ targets
      else (name, t) ∷ targets

  -- The calls for one answer, in their order.
  unfoldable pub answer_calls : Db → Option Chain → Domain → RRtype → ℕ → Bool → List Call
  answer_calls db chain name t qtype do_bit =
      let found = lookup_rrset db name t in
      let signed =
        append_dnssec db chain name found.effective_owner qtype found.rcode found.answers []
          do_bit in
      rrset_calls db name t
      ++ (dnssec_calls db chain name found.effective_owner found.rcode found.answers do_bit
          ++ negative_calls db found.rcode signed.answers do_bit)
