-- ===== src/Slave/Response/Records.antt =====
-- What holds of the database's records and of the chain's proofs holds of the whole response.
use xfx1_dns.Prelude.{
  ℕ, ◌≡◌, refl, Bool, true, false, not, ◌&&◌, ◌||◌, List, [], ◌∷◌, ◌++◌, Option, none, some, All,
  All-append, All-filter, length, any, ◌==◌, if◌then◌else◌, All-if,
}
use xfx1_dns.Prelude.Bytes.{bytes_eq}
use xfx1_dns.Rec.Domain.{Domain, Unicode}
use xfx1_dns.Rec.Types.{RRtype}
use xfx1_dns.Rec.Rr.{Rr}
use xfx1_dns.Db.{Db, lookup_by_type}
use xfx1_dns.Dns.Response.{rcode_no_error, rcode_nx_domain}
use xfx1_dns.Slave.Response.{
  Signed, Chain, EncloserProof, distinct_names, proof_records, signatures, proof_signatures,
  append_dnssec, append_negative_authority, nx_proof, nx_chain, answer_type, covers_type,
}
use xfx1_dns.Slave.Response.Known.{Holds, by_type-All}

module _ (P : Rr → Type 0) where
  -- The three records of a proof.
  pub record ProofHolds (p : EncloserProof) : Type 0 where
    pub closest : P p.closest_encloser
    pub next : P p.next_closer
    pub wildcard : P p.wildcard_at_ce

  -- Whatever the chain answers.
  unfoldable pub ChainHolds : Option Chain → Type 0
  ChainHolds none = Unit
  ChainHolds (some chain) =
      (name zone : Domain) (db : Db) (p : EncloserProof)
      → chain.proof_of name zone db ≡ some p
      → ProofHolds p

  All-met :
      (met : Bool) (rr : Rr) (xs ys : List Rr)
      → P rr
      → All P xs
      → All P ys
      → All P (elim met [ true ↦ xs | false ↦ rr ∷ ys ])
  All-met true rr xs ys h hx hy = hx
  All-met false rr xs ys h hx hy = (h, hy)

  distinct_names-All :
      (rrs : List Rr) (seen : List Domain) → All P rrs → All P (distinct_names rrs seen)
  unfolding distinct_names
  distinct_names-All [] seen h = tt
  distinct_names-All (rr ∷ rrs) seen h =
      All-met (any (bytes_eq rr.name) seen) rr (distinct_names rrs seen)
        (distinct_names rrs (rr.name ∷ seen)) h.0 (distinct_names-All rrs seen h.1)
        (distinct_names-All rrs (rr.name ∷ seen) h.1)

  pub proof_records-All : (p : EncloserProof) → ProofHolds p → All P (proof_records p)
  unfolding proof_records
  proof_records-All p h =
      distinct_names-All (p.closest_encloser ∷ p.next_closer ∷ p.wildcard_at_ce ∷ []) []
        (h.closest, (h.next, (h.wildcard, tt)))

  -- Answers and authority.
  abbrev pub SignedHolds : Signed → Type 0
  SignedHolds s = All P s.answers × All P s.authority

  SignedHolds-if :
      (b : Bool) (x y : Signed) → SignedHolds x → SignedHolds y → SignedHolds (if b then x else y)
  SignedHolds-if true x y hx hy = hx
  SignedHolds-if false x y hx hy = hy

module _ ⦃u : Unicode⦄ (P : Rr → Type 0)
    (rename : (rr : Rr) (n : Domain) → P rr → P (record rr { name = n })) (db : Db)
    (h : Holds P rename db) where
  signatures-All : (owner : Domain) (covered : ℕ) → All P (signatures db owner covered)
  unfolding signatures
  signatures-All owner covered =
      All-filter P (covers_type covered) _ (by_type-All P rename db h owner RRtype.rrsig)

  proof_signatures-All : (rrs : List Rr) → All P (proof_signatures db rrs)
  unfolding proof_signatures
  proof_signatures-All [] = tt
  proof_signatures-All (rr ∷ rrs) =
      All-append P (signatures db rr.name 50) (proof_signatures db rrs) (signatures-All rr.name 50)
        (proof_signatures-All rrs)

  nx_proof-Holds :
      (proof : Option EncloserProof) (answers authority : List Rr)
      → ((p : EncloserProof) → proof ≡ some p → ProofHolds P p)
      → All P answers
      → All P authority
      → SignedHolds P (nx_proof db proof answers authority)
  nx_proof-Holds none answers authority k ha hu = (ha, hu)
  nx_proof-Holds (some p) answers authority k ha hu = (
    ha,
    All-append P (authority ++ proof_records p) (proof_signatures db (proof_records p))
        (All-append P authority (proof_records p) hu (proof_records-All P p (k p refl)))
        (proof_signatures-All (proof_records p)),
  )

  nx_chain-Holds :
      (chain : Option Chain) (name : Domain) (answers authority : List Rr)
      → ChainHolds P chain
      → All P answers
      → All P authority
      → SignedHolds P (nx_chain db chain name answers authority)
  unfolding ChainHolds
  nx_chain-Holds none name answers authority k ha hu = (ha, hu)
  nx_chain-Holds (some chain) name answers authority k ha hu =
      nx_proof-Holds (chain.proof_of name db.zone db) answers authority (k name db.zone db) ha hu

  pub append_dnssec-Holds :
      (chain : Option Chain) (name owner : Domain) (qtype rcode : ℕ) (answers authority : List Rr)
      (do_bit : Bool)
      → ChainHolds P chain
      → All P answers
      → All P authority
      → SignedHolds P (append_dnssec db chain name owner qtype rcode answers authority do_bit)
  unfolding append_dnssec
  append_dnssec-Holds chain name owner qtype rcode answers authority do_bit k ha hu =
      let unchanged : Signed = record {
        answers = answers;
        authority = authority;
        failed = false;
      } in
      let signed : Signed = record {
        answers = answers ++ signatures db owner (answer_type qtype answers);
        authority = authority;
        failed = false;
      } in
      let denied = nx_chain db chain name answers authority in
      let positive = if length answers == 0 then unchanged else signed in
      let negative = if rcode == rcode_nx_domain then denied else unchanged in
      SignedHolds-if P (not do_bit || not db.dnssec_enabled) unchanged
        (if rcode == rcode_no_error then positive else negative) (ha, hu)
        (SignedHolds-if P (rcode == rcode_no_error) positive negative
          (SignedHolds-if P (length answers == 0) unchanged signed (ha, hu)
            (All-append P answers _ ha (signatures-All owner (answer_type qtype answers)), hu))
          (SignedHolds-if P (rcode == rcode_nx_domain) denied unchanged
            (nx_chain-Holds chain name answers authority k ha hu) (ha, hu)))

  pub append_negative_authority-All :
      (rcode : ℕ) (answers authority : List Rr) (do_bit : Bool)
      → All P authority
      → All P (append_negative_authority db rcode answers authority do_bit)
  unfolding append_negative_authority
  append_negative_authority-All rcode answers authority do_bit hu =
      let soa = lookup_by_type db db.zone RRtype.soa in
      let with_soa = All-append P authority soa hu (by_type-All P rename db h db.zone RRtype.soa) in
      All-if P _ authority _ hu (
        All-if P (do_bit && db.dnssec_enabled) _ (authority ++ soa)
          (All-append P (authority ++ soa) (signatures db db.zone 6) with_soa
            (signatures-All db.zone 6))
          with_soa)
