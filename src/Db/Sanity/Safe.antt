-- ===== src/Db/Sanity/Safe.antt =====
-- `SanityChecks` returns on a database of records whose data is of their type.
use xfx1_dns.Prelude.{◌≡◌, List, [], ◌∷◌, filter, All, All-append, All-if, All-filter}
use xfx1_dns.Db.{new_db, lookup_by_type, concat_slices, all_records}
use xfx1_dns.Db.Index.{AllValues, lookup_all, AllValues-index_onto, lookup_all-index_onto}
use xfx1_dns.Db.Sanity.{of_type, is_empty, soas, soa_candidates, sanity_checks}
use xfx1_dns.Db.Dots.{Dotted, KeepsDot, Named, Targeted}
use xfx1_dns.Prelude.Result.{Returns}
use xfx1_dns.Rec.Domain.{Unicode, Domain, same_domain}
use xfx1_dns.Rec.Types.{RRtype, type_eq, type_eq_iff}
use xfx1_dns.Rec.Rr.{Rr}
use xfx1_dns.Db.Sanity.Runs.{sanity-Returns}
use xfx1_dns.Db.Sanity.Typed.{IsTyped, IsOf, All-IsOf, MnameDotted}

module _ (zone : Domain) (records : List Rr) where
  of_type-new_db :
      (t : RRtype) → of_type (new_db zone records) t ≡ filter (λ rr. type_eq rr.rrtype t) records
  unfolding new_db lookup_all
  of_type-new_db t = lookup_all-index_onto type_eq type_eq_iff (λ (rr : Rr). rr.rrtype) t records []

  All-concat_slices :
      (P : Rr → Type 0) (m : List (RRtype × List Rr)) → AllValues P m → All P (concat_slices m)
  unfolding concat_slices
  All-concat_slices P [] h = tt
  All-concat_slices P ((t, rrs) ∷ m) h =
      All-append P rrs (concat_slices m) h.0 (All-concat_slices P m h.1)

  all_records-All : (P : Rr → Type 0) → All P records → All P (all_records (new_db zone records))
  unfolding all_records new_db
  all_records-All P h =
      All-concat_slices P _
        (AllValues-index_onto type_eq P (λ (rr : Rr). rr.rrtype) records [] h tt)

  of_type-All :
      (P : Rr → Type 0) → All P records → (t : RRtype) → All P (of_type (new_db zone records) t)
  of_type-All P h t = rw (of_type-new_db t) (All-filter P (λ rr. type_eq rr.rrtype t) records h)

  lookup-All :
      ⦃u : Unicode⦄ (P : Rr → Type 0) (t : RRtype) (name : Domain)
      → All P (of_type (new_db zone records) t)
      → All P (lookup_by_type (new_db zone records) name t)
  unfolding lookup_by_type
  lookup-All P t name h =
      All-filter P (λ rr. same_domain rr.name name) (of_type (new_db zone records) t) h

  candidates-All :
      ⦃u : Unicode⦄ (P : Rr → Type 0)
      → All P (soas (new_db zone records))
      → All P (of_type (new_db zone records) RRtype.soa)
      → All P (soa_candidates (new_db zone records))
  unfolding soa_candidates
  candidates-All P all typed =
      let db = new_db zone records in
      let at_apex = lookup_by_type db db.zone RRtype.soa in
      All-if P (is_empty at_apex) (soas db) at_apex all (lookup-All P RRtype.soa db.zone typed)

  -- The data of each record is of its type, and its names end in a dot.
  pub record IsCheckable : Type 0 where
    pub typed : All IsTyped records
    pub apex : Dotted zone
    pub named : All Named records
    pub targeted : All Targeted records
    pub mnames : All (λ rr. MnameDotted rr.opts) records

  module _ ⦃u : Unicode⦄ (h : IsCheckable) where
    of_type-IsOf : (t : RRtype) → All (IsOf t) (of_type (new_db zone records) t)
    of_type-IsOf t = rw (of_type-new_db t) (All-IsOf t records h.typed)

    -- In a new database of records whose data is of their types and whose names end in a dot,
    -- `SanityChecks` returns: no type assertion and no comparison of names panics, and following
    -- CNAMEs ends, in a cycle too. Lower-casing is taken to keep a final dot.
    pub sanity_checks-Returns : KeepsDot u → Returns (sanity_checks (new_db zone records))
    unfolding new_db
    sanity_checks-Returns law =
        let db = new_db zone records in
        let mnames : Rr → Type 0 = λ rr. MnameDotted rr.opts in
        sanity-Returns law db
          (AllValues-index_onto type_eq Named (λ (rr : Rr). rr.rrtype) records [] h.named tt) h.apex
          (candidates-All (IsOf RRtype.soa)
            (All-IsOf RRtype.soa (all_records db) (all_records-All IsTyped h.typed))
            (of_type-IsOf RRtype.soa))
          (candidates-All mnames
            (All-filter mnames (λ rr. type_eq rr.rrtype RRtype.soa) (all_records db)
              (all_records-All mnames h.mnames))
            (of_type-All mnames h.mnames RRtype.soa))
          (of_type-IsOf RRtype.ns) (of_type-IsOf RRtype.cname) (of_type-All Targeted h.targeted)
          (λ d. (
            lookup-All (IsOf RRtype.cname) RRtype.cname d (of_type-IsOf RRtype.cname),
            lookup-All Targeted RRtype.cname d (of_type-All Targeted h.targeted RRtype.cname),
          ))
