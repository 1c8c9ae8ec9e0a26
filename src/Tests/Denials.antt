-- ===== src/Tests/Denials.antt =====
-- Concrete chains of hashes, and the theorems applied to them.
use xfx1_dns.Tests.{ascii_only, apex, host}
use xfx1_dns.Prelude.{◌+◌, ◌≡◌, refl, some, [], ◌∷◌, length}
use xfx1_dns.Db.{new_db, lookup_by_type, has_suffix}
use xfx1_dns.Dnssec.{
  Hashing, upper_byte, Nsec3Chain, hash_rounds, hash_name, covers, before_dot, owner_hash,
  next_hash_of, find_covering, trim_suffix, candidates_of, build_candidates, find_encloser,
  proof_for, closest_encloser_proof,
}
use xfx1_dns.Db.Index.{lookup_all, append_at, index_onto}
use xfx1_dns.Slave.Response.{EncloserProof}
use xfx1_dns.Dnssec.Proof.{Denies, closest_encloser_proof-Denies}
use xfx1_dns.Rec.Domain.{
  lower_byte, to_lower, ends_dot, split_dots, domain_labels, write, compare_bytes,
  common_label_count, compare_labels, compare_domain, same_domain,
}
use xfx1_dns.Rec.Parse.{join_dots}
use xfx1_dns.Rec.Types.{to_wire, type_eq}
use xfx1_dns.Rec.Opts.{RRopts, opts_type}
use xfx1_dns.Rec.Rr.{Rr, new_rr}
use xfx1_dns.Prelude.Bytes.{Bytes, bytes_eq}

-- The hash of a text is a letter for its length; base32 is left out.
abbrev toy_hashing : Hashing
toy_hashing = record { sha1 = λ s. (length s + 64) ∷ []; encode = λ s. s; decode = λ s. some s }

abbrev denial : Bytes → Bytes → Rr
denial owner next_owner = new_rr owner (
    RRopts.nsec3 (record {
      hash_algorithm = 1;
      flags = 0;
      iterations = 0;
      salt = [];
      next_hash = next_owner;
      types = [];
    }))

-- The chain of a zone "b." without other names.
abbrev apex_record : Rr
apex_record = denial (99 ∷ 46 ∷ 98 ∷ 46 ∷ []) (67 ∷ [])

abbrev apex_chain : Nsec3Chain
apex_chain = record {
  iterations = 0;
  salt = [];
  records = apex_record ∷ [];
  by_hash = (99 ∷ []) ∷ [];
}

abbrev apex_proof : EncloserProof
apex_proof = record {
  closest_encloser = apex_record;
  next_closer = apex_record;
  wildcard_at_ce = apex_record;
}

host-proof :
    closest_encloser_proof toy_hashing apex_chain host apex (new_db apex (apex_record ∷ []))
    ≡ some apex_proof
unfolding closest_encloser_proof build_candidates trim_suffix has_suffix bytes_eq candidates_of
    split_dots join_dots find_encloser hash_name hash_rounds write domain_labels proof_for
    lookup_by_type new_db new_rr opts_type index_onto append_at lookup_all type_eq to_wire to_lower
    lower_byte same_domain compare_domain ends_dot common_label_count compare_labels compare_bytes
    find_covering owner_hash before_dot upper_byte next_hash_of covers
host-proof = refl

closest_encloser_proof-Denies_example : Denies toy_hashing apex_chain host apex apex_proof
closest_encloser_proof-Denies_example =
    closest_encloser_proof-Denies toy_hashing apex_chain (97 ∷ []) apex
      (new_db apex (apex_record ∷ [])) apex_proof (unfold has_suffix bytes_eq in refl) host-proof
