-- ===== src/Slave/Response/Known.antt =====
-- What holds of every record of the database holds of every record of an answer.
use xfx1_dns.Prelude.{
  Bool, true, false, not, ◌&&◌, List, [], ◌∷◌, Option, none, some, All, All-append, All-filter,
  length, ◌==◌, if◌then◌else◌, All-option,
}
use xfx1_dns.Prelude.Bytes.{bytes_eq}
use xfx1_dns.Rec.Domain.{Domain, Unicode, dot}
use xfx1_dns.Rec.Types.{RRtype, type_eq}
use xfx1_dns.Rec.Rr.{Rr}
use xfx1_dns.Db.{
  Db, new_db, lookup_by_type, lookup_by_name, name_exists, wildcard_walk, wildcard_lookup, blocked,
  additional_loop, lookup_additional, fresh_target, addresses, wildcard_of,
}
use xfx1_dns.Db.Index.{AllValues, All-lookup_all, AllValues-index_onto}
use xfx1_dns.Slave.Response.{
  Lookup, synthesise_answers, expand_wildcard, lookup_absent, lookup_rrset, positive, empty_answer,
  is_cname, wildcard_answer,
}
use xfx1_dns.Dns.Response.{rcode_no_error}

-- A property of records that does not depend on their owner name.
module _ ⦃u : Unicode⦄ (P : Rr → Type 0)
    (rename : (rr : Rr) (n : Domain) → P rr → P (record rr { name = n })) where
  -- It holds of every record in both indexes.
  pub record Holds (db : Db) : Type 0 where
    pub types : AllValues P db.by_type
    pub names : AllValues P db.by_name

  pub Holds-new_db :
      (zone : Domain) (records : List Rr) → All P records → Holds (new_db zone records)
  unfolding new_db
  Holds-new_db zone records h = record {
    types = AllValues-index_onto type_eq P (λ rr. rr.rrtype) records [] h tt;
    names = AllValues-index_onto bytes_eq P (λ rr. rr.name) records [] h tt;
  }

  module _ (db : Db) (h : Holds db) where
    pub by_type-All : (name : Domain) (t : RRtype) → All P (lookup_by_type db name t)
    unfolding lookup_by_type
    by_type-All name t = All-filter P _ _ (All-lookup_all type_eq P t db.by_type h.types)

    by_name-All : (name : Domain) (t : RRtype) → All P (lookup_by_name db name t)
    unfolding lookup_by_name
    by_name-All name t = All-filter P _ _ (All-lookup_all bytes_eq P name db.by_name h.names)

    additional_loop-All : (rrs : List Rr) (seen : List Domain) → All P (additional_loop db rrs seen)
    unfolding additional_loop
    additional_loop-All [] seen = tt
    additional_loop-All (rr ∷ rrs) seen =
        All-option P (fresh_target seen rr) (additional_loop db rrs seen) _
          (additional_loop-All rrs seen)
          λ target _.
            All-append P (addresses db target) (additional_loop db rrs (target ∷ seen))
              (All-append P (lookup_by_type db target RRtype.a)
                (lookup_by_type db target RRtype.aaaa) (by_type-All target RRtype.a)
                (by_type-All target RRtype.aaaa))
              (additional_loop-All rrs (target ∷ seen))

    additional-All : (answers : List Rr) (t : RRtype) → All P (lookup_additional db answers t)
    unfolding lookup_additional
    additional-All answers t = additional_loop-All answers []

    synthesise-All : (rrs : List Rr) (n : Domain) → All P rrs → All P (synthesise_answers rrs n)
    unfolding synthesise_answers
    synthesise-All [] n h = tt
    synthesise-All (rr ∷ rrs) n h = (rename rr n h.0, synthesise-All rrs n h.1)

    -- Answers and additional records.
    abbrev Both : Lookup → Type 0
    Both l = All P l.answers × All P l.additional

    Both-if : (b : Bool) (x y : Lookup) → Both x → Both y → Both (if b then x else y)
    Both-if true x y hx hy = hx
    Both-if false x y hx hy = hy

    positive-Both :
        (owner : Domain) (t : RRtype) (answers : List Rr)
        → All P answers
        → Both (positive db owner t answers)
    positive-Both owner t answers k = (k, additional-All answers t)

    expand_wildcard-Both :
        (name : Domain) (t : RRtype) (owner : Domain) (rrs : List Rr)
        → All P rrs
        → Both (expand_wildcard db name t owner rrs)
    unfolding expand_wildcard
    expand_wildcard-Both name t owner [] k =
        let cnames = lookup_by_name db owner RRtype.cname in
        Both-if (not (is_cname t) && not (length cnames == 0))
          (positive db owner RRtype.cname (synthesise_answers cnames name))
          (empty_answer rcode_no_error owner)
          (positive-Both owner RRtype.cname _
            (synthesise-All cnames name (by_name-All owner RRtype.cname)))
          (tt, tt)
    expand_wildcard-Both name t owner (rr ∷ rrs) k =
        positive-Both owner t _ (synthesise-All (rr ∷ rrs) name k)

    abbrev Match : Option (Domain × List Rr) → Type 0
    Match none = Unit
    Match (some w) = All P w.1

    Match-if :
        (b : Bool) (x y : Option (Domain × List Rr))
        → Match x
        → Match y
        → Match (if b then x else y)
    Match-if true x y hx hy = hx
    Match-if false x y hx hy = hy

    wildcard_walk-Match :
        (name zone : Domain) (t : RRtype) (rest : Domain)
        → Match (wildcard_walk db name zone t rest)
    unfolding wildcard_walk
    wildcard_walk-Match name zone t [] = tt
    wildcard_walk-Match name zone t (c ∷ parent) =
        let rest = wildcard_walk db name zone t parent in
        let further = if bytes_eq parent zone then none else rest in
        let here =
          if blocked db parent name
          then none
          else some (wildcard_of parent, lookup_by_name db (wildcard_of parent) t) in
        Match-if (c == dot) (if name_exists db (wildcard_of parent) then here else further) rest
          (Match-if (name_exists db (wildcard_of parent)) here further
            (Match-if (blocked db parent name) none _ tt (by_name-All (wildcard_of parent) t))
            (Match-if (bytes_eq parent zone) none rest tt (wildcard_walk-Match name zone t parent)))
          (wildcard_walk-Match name zone t parent)

    wildcard_lookup-Match : (name : Domain) (t : RRtype) → Match (wildcard_lookup db name db.zone t)
    unfolding wildcard_lookup
    wildcard_lookup-Match name t =
        Match-if (bytes_eq name db.zone) none (wildcard_walk db name db.zone t name) tt
          (wildcard_walk-Match name db.zone t name)

    matched-Both :
        (name : Domain) (t : RRtype) (w : Option (Domain × List Rr))
        → Match w
        → Both (wildcard_answer db name t w)
    unfolding wildcard_answer
    matched-Both name t none k = (tt, tt)
    matched-Both name t (some w) k = expand_wildcard-Both name t w.0 w.1 k

    lookup_absent-Both : (name : Domain) (t : RRtype) → Both (lookup_absent db name t)
    unfolding lookup_absent
    lookup_absent-Both name t =
        Both-if (name_exists db name) (empty_answer rcode_no_error name) _ (tt, tt)
          (matched-Both name t (wildcard_lookup db name db.zone t) (wildcard_lookup-Match name t))

    pub lookup_rrset-Both : (name : Domain) (t : RRtype) → Both (lookup_rrset db name t)
    unfolding lookup_rrset
    lookup_rrset-Both name t =
        let answers = lookup_by_type db name t in
        let cnames = lookup_by_type db name RRtype.cname in
        let absent = lookup_absent db name t in
        let alias =
          if not (is_cname t) && not (length cnames == 0)
          then positive db name RRtype.cname cnames
          else absent in
        Both-if (not (length answers == 0)) (positive db name t answers) alias
          (positive-Both name t answers (by_type-All name t))
          (Both-if (not (is_cname t) && not (length cnames == 0))
            (positive db name RRtype.cname cnames) absent
            (positive-Both name RRtype.cname cnames (by_type-All name RRtype.cname))
            (lookup_absent-Both name t))
