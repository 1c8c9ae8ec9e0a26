-- ===== src/Tests/Chains.antt =====
-- A concrete chain built for a zone, and the theorem applied to it.
use xfx1_dns.Tests.{ascii_only, apex, host, host_address}
use xfx1_dns.Prelude.{
  ℕ, zero, suc, ◌+◌, ◌≡◌, refl, ap, ◌∙◌, true, not, some, List, [], ◌∷◌, arith, ◌==◌, if◌then◌else◌,
  length, any, All,
}
use xfx1_dns.Db.{Db, new_db}
use xfx1_dns.Dnssec.{Hashing, Nsec3Chain, hash_rounds, hash_name, find_covering}
use xfx1_dns.Db.Index.{lookup_all, append_at, index_onto}
use xfx1_dns.Dnssec.Chain.{
  Nsec3Params, NameHash, sort_hashes, hashes_of, zone_ttl, name_hashes, chain_of, build_nsec3_chain,
}
use xfx1_dns.Dnssec.Ring.{is_found}
use xfx1_dns.Dnssec.Chain.Built.{is_digit, Base32, Distinct, build_nsec3_chain-covers}
use xfx1_dns.Rec.Domain.{split_dots, domain_labels, write}
use xfx1_dns.Rec.Types.{RRtype, type_eq}
use xfx1_dns.Rec.Opts.{RRopts, opts_type}
use xfx1_dns.Rec.Rr.{Rr, new_rr}
use xfx1_dns.Prelude.Bytes.{Bytes, bytes_eq}

-- A base32 of one's own: a number is so many ones and a zero.
ones : ℕ → Bytes → Bytes
ones zero s = s
ones (suc n) s = 49 ∷ ones n s

unary : Bytes → Bytes
unary [] = []
unary (c ∷ s) = ones c (48 ∷ unary s)

-- The number that is being read is `k` so far.
unary_from : ℕ → Bytes → Bytes
unary_from k [] = []
unary_from k (c ∷ s) =
    let closed_at = unary_from 0 s in
    let more = unary_from (suc k) s in if c == 48 then k ∷ closed_at else more

unary_from-ones : (n k : ℕ) (s : Bytes) → unary_from k (ones n (48 ∷ s)) ≡ (k + n) ∷ unary_from 0 s
unfolding ones unary_from
unary_from-ones zero k s = ap (λ j. j ∷ unary_from 0 s) (omega arith)
unary_from-ones (suc n) k s =
    unary_from-ones n (suc k) s ∙ ap (λ j. j ∷ unary_from 0 s) (omega arith)

unary_from-unary : (s : Bytes) → unary_from 0 (unary s) ≡ s
unfolding unary unary_from
unary_from-unary [] = refl
unary_from-unary (c ∷ s) =
    let start : 0 + c ≡ c = omega arith in
    unary_from-ones c 0 (unary s)
    ∙ ap (λ n. n ∷ unary_from 0 (unary s)) start
    ∙ ap (λ r. c ∷ r) (unary_from-unary s)

digits-ones :
    (n : ℕ) (s : Bytes) → All (λ c. is_digit c ≡ true) s → All (λ c. is_digit c ≡ true) (ones n s)
unfolding ones
digits-ones zero s d = d
digits-ones (suc n) s d = (refl, digits-ones n s d)

digits-unary : (s : Bytes) → All (λ c. is_digit c ≡ true) (unary s)
unfolding unary
digits-unary [] = tt
digits-unary (c ∷ s) = digits-ones c (48 ∷ unary s) (refl, digits-unary s)

-- The hash of a text is its length.
abbrev counting : Hashing
counting = record { sha1 = λ s. length s ∷ []; encode = unary; decode = λ s. some (unary_from 0 s) }

counting-Base32 : Base32 counting
counting-Base32 = record {
  digits = digits-unary;
  decode-encode = λ b. ap some (unary_from-unary b);
}

abbrev no_rounds : Nsec3Params
no_rounds = record { hash_algorithm = 1; flags = 0; iterations = 0; salt = [] }

abbrev two_names : Db
two_names = new_db apex (new_rr apex (RRopts.ns host) ∷ host_address ∷ [])

abbrev two_hashes : List NameHash
two_hashes = name_hashes counting no_rounds two_names.by_name

two_hashes-Distinct : Distinct two_hashes
unfolding name_hashes new_db new_rr opts_type index_onto append_at lookup_all bytes_eq hash_name
    hash_rounds write domain_labels split_dots
two_hashes-Distinct = (refl, (refl, tt))

abbrev two_chain : Nsec3Chain × Rr
two_chain =
    chain_of counting two_names no_rounds
      (zone_ttl (lookup_all type_eq RRtype.soa two_names.by_type)) (sort_hashes two_hashes)

two_names-built : build_nsec3_chain counting two_names no_rounds ≡ some two_chain
unfolding build_nsec3_chain new_db index_onto append_at new_rr bytes_eq
two_names-built = refl

-- No name has the hash 200.
build_nsec3_chain-covers_example :
    is_found counting (find_covering counting (two_chain.0.records) (200 ∷ []))
    ≡ not (any (λ k. bytes_eq k (200 ∷ [])) (hashes_of two_hashes))
unfolding new_db
build_nsec3_chain-covers_example =
    build_nsec3_chain-covers counting counting-Base32 two_names no_rounds (200 ∷ []) two_chain refl
      two_hashes-Distinct two_names-built
