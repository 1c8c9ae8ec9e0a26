-- ===== src/Dnssec/Chain.antt =====
-- internal/dnssec/nsec3chain.go, nsec3.go: the chain that is built for a zone.
pub mod Built
use xfx1_dns.Prelude.{
  ℕ, zero, suc, ◌+◌, ◌-◌, ◌*◌, ◌/◌, ◌%◌, ◌^◌, ◌≤◌, ◌<◌, bit_and, bit_or, ◌≡◌, refl, sym, ap, ◌∙◌,
  ◌≢◌, ◌↔◌, ◌⊎◌, inl, inr, Bool, true, false, ◌&&◌, ◌||◌, not, Option, none, some, List, [], ◌∷◌,
  ◌++◌, map, reverse, arith, ◌==◌, if◌then◌else◌, length, set, any,
}
use xfx1_dns.Db.{Db}
use xfx1_dns.Dnssec.{Hashing, upper_byte, Nsec3Chain, hash_name, before}
use xfx1_dns.Db.Index.{lookup_all}
use xfx1_dns.Rec.Domain.{Unicode, Domain, dot, to_lower}
use xfx1_dns.Rec.Types.{RRtype, to_wire, type_eq, default_ttl}
use xfx1_dns.Rec.Opts.{Nsec3, RRopts, sort}
use xfx1_dns.Rec.Rr.{Rr}
use xfx1_dns.Prelude.Bytes.{Bytes, bytes_eq}
use xfx1_dns.Prelude.Result.{◌>>=◌}

-- NSEC3PARAMRecord
pub record Nsec3Params : Type 0 where
  pub hash_algorithm : ℕ
  pub flags : ℕ
  pub iterations : ℕ
  pub salt : Bytes

-- typeSet: a map used as a set.
unfoldable pub add_type : Option ℕ → List ℕ → List ℕ
add_type none set = set
add_type (some t) set = if any (λ u. u == t) set then set else t ∷ set

unfoldable pub type_set : List Rr → List ℕ
type_set [] = []
type_set (rr ∷ rrs) = add_type (to_wire rr.rrtype) (type_set rrs)

-- A set that is not empty gets RRSIG.
unfoldable pub signed_types : List ℕ → List ℕ
signed_types [] = []
signed_types (t ∷ ts) = add_type (to_wire RRtype.rrsig) (t ∷ ts)

unfoldable pub types_at : Db → Domain → List ℕ
types_at db name = sort (signed_types (type_set (lookup_all bytes_eq name db.by_name)))

-- nameHash
abbrev pub NameHash : Type 0
NameHash = Domain × Bytes

-- slices.SortFunc by bytes.Compare
unfoldable pub insert_hash : NameHash → List NameHash → List NameHash
insert_hash e [] = e ∷ []
insert_hash e (x ∷ xs) =
    let rest = insert_hash e xs in if before x.1 e.1 then x ∷ rest else e ∷ x ∷ xs

unfoldable pub sort_hashes : List NameHash → List NameHash
sort_hashes [] = []
sort_hashes (e ∷ es) = insert_hash e (sort_hashes es)

abbrev pub hashes_of : List NameHash → List Bytes
hashes_of [] = []
hashes_of (e ∷ es) = e.1 ∷ hashes_of es

-- The hash of the entry behind; the first where the entries end.
abbrev pub next_hash_in : Bytes → List NameHash → Bytes
next_hash_in top [] = top
next_hash_in top (e ∷ es) = e.1

unfoldable pub zone_ttl : List Rr → ℕ
zone_ttl [] = default_ttl
zone_ttl (soa ∷ rrs) = soa.ttl

module _ ⦃u : Unicode⦄ (h : Hashing) where
  -- NSEC3Record.AsRR
  unfoldable pub nsec3_rr : Domain → ℕ → Bytes → Nsec3 → Rr
  nsec3_rr zone ttl name_hash n = record {
    name = to_lower (map upper_byte (h.encode name_hash) ++ (dot ∷ zone));
    rrtype = RRtype.nsec3;
    ttl = ttl;
    opts = RRopts.nsec3 n;
  }

  abbrev pub nsec3_of : Db → Nsec3Params → NameHash → Bytes → Nsec3
  nsec3_of db p e next_hash = record {
    hash_algorithm = p.hash_algorithm;
    flags = p.flags;
    iterations = p.iterations;
    salt = p.salt;
    next_hash = next_hash;
    types = types_at db e.0;
  }

  -- The records of the sorted entries; `top` is the hash of the first.
  unfoldable pub link_records : Db → Nsec3Params → ℕ → Bytes → List NameHash → List Rr
  link_records db p ttl top [] = []
  link_records db p ttl top (e ∷ es) =
      nsec3_rr db.zone ttl e.1 (nsec3_of db p e (next_hash_in top es))
      ∷ link_records db p ttl top es

  unfoldable pub chain_records : Db → Nsec3Params → ℕ → List NameHash → List Rr
  chain_records db p ttl [] = []
  chain_records db p ttl (e ∷ es) = link_records db p ttl e.1 (e ∷ es)

  -- The keys of byHash.
  unfoldable pub chain_keys : List NameHash → List Bytes
  chain_keys [] = []
  chain_keys (e ∷ es) = to_lower (map upper_byte (h.encode e.1)) ∷ chain_keys es

  unfoldable pub name_hashes : Nsec3Params → List (Domain × List Rr) → List NameHash
  name_hashes p [] = []
  name_hashes p ((name, rrs) ∷ m) = (name, hash_name h name p.iterations p.salt) ∷ name_hashes p m

  -- NSEC3PARAMRecord.AsRR
  unfoldable pub nsec3param_rr : Domain → ℕ → Nsec3Params → Rr
  nsec3param_rr zone ttl p = record {
    name = zone;
    rrtype = RRtype.nsec3param;
    ttl = ttl;
    opts = RRopts.nsec3param p.hash_algorithm p.flags p.iterations p.salt;
  }

  abbrev pub chain_of : Db → Nsec3Params → ℕ → List NameHash → Nsec3Chain × Rr
  chain_of db p ttl es = (
    record {
      iterations = p.iterations;
      salt = p.salt;
      records = chain_records db p ttl es;
      by_hash = chain_keys es;
    },
    nsec3param_rr db.zone ttl p,
  )

  -- `BuildNSEC3Chain`; the error on an empty database is `none`.
  unfoldable pub build_nsec3_chain : Db → Nsec3Params → Option (Nsec3Chain × Rr)
  build_nsec3_chain db p =
      if length db.by_name == 0
      then none
      else some (
          chain_of db p (zone_ttl (lookup_all type_eq RRtype.soa db.by_type))
            (sort_hashes (name_hashes p db.by_name)))
