-- ===== src/Db/Sanity.antt =====
-- internal/db/sanity.go: whether a zone is consistent.
pub mod Sound
pub mod Sane
pub mod Typed
pub mod Runs
pub mod Safe
use xfx1_dns.Prelude.{
  ℕ, zero, suc, ◌+◌, ◌-◌, ◌*◌, ◌/◌, ◌%◌, ◌^◌, ◌≤◌, ◌<◌, bit_and, bit_or, ◌≡◌, refl, sym, ap, ◌∙◌,
  ◌≢◌, ◌↔◌, ◌⊎◌, inl, inr, Bool, true, false, ◌&&◌, ◌||◌, not, Option, none, some, List, [], ◌∷◌,
  ◌++◌, map, reverse, arith, ◌==◌, if◌then◌else◌, length, filter, any,
}
use xfx1_dns.Db.{compare_owners, Db, lookup_by_type, has_suffix, all_records}
use xfx1_dns.Db.Index.{lookup_all}
use xfx1_dns.Rec.Domain.{Unicode, Domain, compare_domain, same_domain}
use xfx1_dns.Rec.Types.{RRtype, type_eq}
use xfx1_dns.Rec.Opts.{Soa, RRopts}
use xfx1_dns.Rec.Rr.{Rr}
use xfx1_dns.Prelude.Result.{no_error, Result, panic, ok, err, fault, ◌>>=◌}
use xfx1_dns.Prelude.Bytes.{bytes_eq}
use xfx1_dns.Prelude.{ltb}

pub data SanityError : Type 0 where
  soa_missing multiple_soas soa_zero_serial : SanityError
  soa_mname_no_ns ns_no_address cname_at_apex duplicate_cname cname_has_other_data :
      Domain → SanityError
  cname_self_reference cname_no_resolve : Domain → SanityError

abbrev pub Check : Type 0 → Type 0
Check = Result SanityError

-- The type assertions on the data of a record, which panic on data of another type.
unfoldable pub soa_opts : RRopts → Check Soa
soa_opts (RRopts.soa o) = ok o
soa_opts _ = fault panic

unfoldable pub ns_opts : RRopts → Check Domain
ns_opts (RRopts.ns d) = ok d
ns_opts _ = fault panic

unfoldable pub cname_opts : RRopts → Check Domain
cname_opts (RRopts.cname d) = ok d
cname_opts _ = fault panic

unfoldable pub cname_compatible_rrtype : RRtype → Bool
cname_compatible_rrtype RRtype.cname = true
cname_compatible_rrtype RRtype.rrsig = true
cname_compatible_rrtype RRtype.nsec3 = true
cname_compatible_rrtype RRtype.nsec3param = true
cname_compatible_rrtype _ = false

-- db.ByType[t] and db.ByName[name]
abbrev pub of_type : Db → RRtype → List Rr
of_type db t = lookup_all type_eq t db.by_type

abbrev pub of_name : Db → Domain → List Rr
of_name db name = lookup_all bytes_eq name db.by_name

unfoldable pub is_empty : List Rr → Bool
is_empty [] = true
is_empty (rr ∷ rrs) = false

abbrev pub head_of : List Rr → Check Rr
head_of [] = fault panic
head_of (rr ∷ rrs) = ok rr

abbrev pub soas : Db → List Rr
soas db = filter (λ rr. type_eq rr.rrtype RRtype.soa) (all_records db)

-- The comparison of two names, which may panic; `same_domain` is its outcome.
abbrev pub compared : ⦃u : Unicode⦄ → Domain → Domain → Check (Unit {0})
compared a b = no_error (compare_domain a b)

-- The comparisons of a call of `LookupByType`; `lookup_by_type` is its outcome.
abbrev pub looked_up : ⦃u : Unicode⦄ → Db → Domain → RRtype → Check (Unit {0})
looked_up db name t = no_error (compare_owners (of_type db t) name)

-- Whether a name server of the list is `mname`.
unfoldable pub has_ns : ⦃u : Unicode⦄ → Domain → List Rr → Check Bool
has_ns mname [] = ok false
has_ns mname (rr ∷ rrs) = do
  ns ← ns_opts rr.opts
  _ ← compared ns mname
  rest ← has_ns mname rrs
  ok (same_domain ns mname || rest)

module _ ⦃u : Unicode⦄ (db : Db) where
  abbrev pub has_address : Domain → Bool
  has_address name =
      not (is_empty (lookup_by_type db name RRtype.a))
      || not (is_empty (lookup_by_type db name RRtype.aaaa))

  -- The records whose first is taken as the SOA: those at the apex, or else all of them.
  unfoldable pub soa_candidates : List Rr
  soa_candidates =
      let at_apex = lookup_by_type db db.zone RRtype.soa in
      if is_empty at_apex then soas db else at_apex

  -- 1. Exactly one SOA.
  unfoldable pub check_soa_count : ℕ → Check (Unit {0})
  check_soa_count n =
      if n == 0 then err soa_missing else if ltb 1 n then err multiple_soas else ok tt

  -- 2. and 3. Its serial, and a name server for its MNAME.
  unfoldable pub check_soa : Soa → Check (Unit {0})
  check_soa soa = if soa.serial == 0 then err soa_zero_serial else do
    found ← has_ns soa.mname (of_type db RRtype.ns)
    if found then ok tt else err (soa_mname_no_ns soa.mname)

  -- 4. An address for each name server.
  unfoldable pub check_ns_addresses : List Rr → Check (Unit {0})
  check_ns_addresses [] = ok tt
  check_ns_addresses (rr ∷ rrs) = do
    ns ← ns_opts rr.opts
    _ ← looked_up db ns RRtype.a
    _ ← looked_up db ns RRtype.aaaa
    if has_address ns then check_ns_addresses rrs else err (ns_no_address ns)

  -- 5. No CNAME at the apex.
  unfoldable pub check_apex : Check (Unit {0})
  check_apex = do
    _ ← looked_up db db.zone RRtype.cname
    if is_empty (lookup_by_type db db.zone RRtype.cname) then ok tt else err (cname_at_apex db.zone)

  -- 6. No two CNAMEs of the same owner; `seen` are the owners met so far.
  unfoldable pub check_owners : List Domain → List Rr → Check (Unit {0})
  check_owners seen [] = ok tt
  check_owners seen (rr ∷ rrs) =
      if any (λ d. bytes_eq d rr.name) seen
      then err (duplicate_cname rr.name)
      else check_owners (rr.name ∷ seen) rrs

  -- 7. No other data at the owner of a CNAME.
  unfoldable pub check_alone : List Rr → Check (Unit {0})
  check_alone [] = ok tt
  check_alone (rr ∷ rrs) =
      if any (λ peer. not (cname_compatible_rrtype peer.rrtype)) (of_name db rr.name)
      then err (cname_has_other_data rr.name)
      else check_alone rrs

  -- 8. No CNAME that refers to itself.
  unfoldable pub check_self : List Rr → Check (Unit {0})
  check_self [] = ok tt
  check_self (rr ∷ rrs) = do
    target ← cname_opts rr.opts
    _ ← compared rr.name target
    if same_domain rr.name target then err (cname_self_reference rr.name) else check_self rrs

  abbrev pub in_zone : Domain → Bool
  in_zone target = has_suffix target db.zone

  -- The lookups of the loop: for AAAA only where there is no A.
  abbrev pub address_looked_up : Domain → Check (Unit {0})
  address_looked_up target = do
    _ ← looked_up db target RRtype.a
    if is_empty (lookup_by_type db target RRtype.a) then looked_up db target RRtype.aaaa else ok tt

  -- 9. The loop over `depth`; `fuel` is what is left of `maxDepth`.
  unfoldable pub follow : Domain → ℕ → Domain → Check (Unit {0})
  follow owner zero target = err (cname_no_resolve owner)
  follow owner (suc fuel) target = do
    _ ← address_looked_up target
    if has_address target then ok tt else do
      _ ← looked_up db target RRtype.cname
      if is_empty (lookup_by_type db target RRtype.cname) then err (cname_no_resolve owner) else do
        rr ← head_of (lookup_by_type db target RRtype.cname)
        onward ← cname_opts rr.opts
        if in_zone onward then follow owner fuel onward else ok tt

  unfoldable pub check_chains : ℕ → List Rr → Check (Unit {0})
  check_chains max_depth [] = ok tt
  check_chains max_depth (rr ∷ rrs) = do
    target ← cname_opts rr.opts
    _ ← (if in_zone target then follow rr.name max_depth target else ok tt)
    check_chains max_depth rrs

  unfoldable pub sanity_checks : Check (Unit {0})
  sanity_checks = do
    _ ← check_soa_count (length (soas db))
    _ ← looked_up db db.zone RRtype.soa
    rr ← head_of soa_candidates
    soa ← soa_opts rr.opts
    _ ← check_soa soa
    _ ← check_ns_addresses (of_type db RRtype.ns)
    _ ← check_apex
    _ ← check_owners [] (of_type db RRtype.cname)
    _ ← check_alone (of_type db RRtype.cname)
    _ ← check_self (of_type db RRtype.cname)
    check_chains (length (all_records db)) (of_type db RRtype.cname)
