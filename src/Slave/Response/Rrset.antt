-- ===== src/Slave/Response/Rrset.antt =====
-- `lookupRRset`: what an answer for one name and type consists of, and when the name is denied.
use xfx1_dns.Prelude.{
  ◌≡◌, ◌↔◌, ◌⊎◌, refl, ◌∙◌, Bool, true, false, not, ◌&&◌, List, [], ◌∷◌, Option, none, some, All,
  All-filter, filter, length, ◌==◌, if◌then◌else◌, Bool-cases, inl, inr, arith,
}
use xfx1_dns.Prelude.Bytes.{bytes_eq, bytes_eq_iff}
use xfx1_dns.Rec.Domain.{Domain, Unicode, same_domain, to_lower}
use xfx1_dns.Rec.Domain.Order.{same_domain_lem}
use xfx1_dns.Rec.Types.{RRtype, type_eq}
use xfx1_dns.Rec.Rr.{Rr}
use xfx1_dns.Db.{Db, new_db, lookup_by_type, lookup_by_name, name_exists, wildcard_lookup}
use xfx1_dns.Db.Lookup.{lookup_by_type-new_db}
use xfx1_dns.Db.Wildcard.{wildcard_lookup_sound}
use xfx1_dns.Dns.Response.{rcode_no_error, rcode_nx_domain}
use xfx1_dns.Slave.Response.{
  Lookup, is_cname, positive, empty_answer, synthesise_answers, expand_wildcard, wildcard_answer,
  lookup_absent, lookup_rrset,
}

module _ {A : Type 0} where
  filter-All : (p : A → Bool) (xs : List A) → All (λ a. p a ≡ true) (filter p xs)
  filter-All p [] = tt
  filter-All p (x ∷ xs) = elim (Bool-cases (p x)) [
    | inl e ↦ rw e (e, filter-All p xs)
    | inr e ↦ rw e (filter-All p xs)
  ]

  All-both :
      {P Q R : A → Type 0} (xs : List A)
      → ((a : A) → P a → Q a → R a)
      → All P xs
      → All Q xs
      → All R xs
  All-both [] f h k = tt
  All-both (x ∷ xs) f h k = (f x h.0 k.0, All-both xs f h.1 k.1)

module _ ⦃u : Unicode⦄ where
  -- A record answers a question: its name is the queried one up to case, and its type is the
  -- queried one or CNAME.
  pub Answering : Domain → RRtype → Rr → Type 0
  Answering name t rr =
      (same_domain rr.name name ≡ true)
      × ((type_eq rr.rrtype t ≡ true) ⊎ (type_eq rr.rrtype RRtype.cname ≡ true))

  module _ (zone : Domain) (records : List Rr) (name : Domain) (t : RRtype) where
    named :
        (rr : Rr)
        → bytes_eq (to_lower rr.name) (to_lower name) ≡ true
        → same_domain rr.name name ≡ true
    named rr h = same_domain_lem rr.name name ∙ h

    by_type-Answering :
        (s : RRtype)
        → ((rr : Rr)
            → type_eq rr.rrtype s ≡ true
            → (type_eq rr.rrtype t ≡ true) ⊎ (type_eq rr.rrtype RRtype.cname ≡ true))
        → All (Answering name t) (lookup_by_type (new_db zone records) name s)
    unfolding Answering
    by_type-Answering s f =
        let typed = filter (λ (rr : Rr). type_eq rr.rrtype s) records in
        let found = filter (λ (rr : Rr). bytes_eq (to_lower rr.name) (to_lower name)) typed in
        rw (lookup_by_type-new_db zone records name s) (
          All-both found (λ rr n s'. (named rr n, f rr s'))
            (filter-All (λ (rr : Rr). bytes_eq (to_lower rr.name) (to_lower name)) typed)
            (All-filter (λ rr. type_eq rr.rrtype s ≡ true) _ typed
              (filter-All (λ (rr : Rr). type_eq rr.rrtype s) records)))

    synthesised-Answering :
        (rrs : List Rr)
        → All (λ rr. (type_eq rr.rrtype t ≡ true) ⊎ (type_eq rr.rrtype RRtype.cname ≡ true)) rrs
        → All (Answering name t) (synthesise_answers rrs name)
    unfolding synthesise_answers Answering
    synthesised-Answering [] h = tt
    synthesised-Answering (rr ∷ rrs) h = (
      (
        named (record rr { name = name })
            (ground (arith, bytes_eq_iff (to_lower name) (to_lower name))),
        h.0,
      ),
      synthesised-Answering rrs h.1,
    )

    typed-All :
        (db : Db) (owner : Domain) (s : RRtype)
        → All (λ rr. type_eq rr.rrtype s ≡ true) (lookup_by_name db owner s)
    unfolding lookup_by_name
    typed-All db owner s = filter-All (λ (rr : Rr). type_eq rr.rrtype s) _

    abbrev Answered : Lookup → Type 0
    Answered l = All (Answering name t) l.answers

    Answered-if :
        (b : Bool) (x y : Lookup) → Answered x → Answered y → Answered (if b then x else y)
    Answered-if true x y hx hy = hx
    Answered-if false x y hx hy = hy

    expand_wildcard-Answered :
        (owner : Domain) (rrs : List Rr)
        → All (λ rr. type_eq rr.rrtype t ≡ true) rrs
        → Answered (expand_wildcard (new_db zone records) name t owner rrs)
    unfolding expand_wildcard
    expand_wildcard-Answered owner [] h =
        let db = new_db zone records in
        let cnames = lookup_by_name db owner RRtype.cname in
        Answered-if (not (is_cname t) && not (length cnames == 0))
          (positive db owner RRtype.cname (synthesise_answers cnames name))
          (empty_answer rcode_no_error owner)
          (synthesised-Answering cnames (
            All-both cnames (λ rr e _. inr e) (typed-All db owner RRtype.cname)
              (typed-All db owner RRtype.cname)))
          tt
    expand_wildcard-Answered owner (rr ∷ rrs) h =
        synthesised-Answering (rr ∷ rrs) (All-both (rr ∷ rrs) (λ rr e _. inl e) h h)

    wildcard_answer-Answered :
        (w : Option (Domain × List Rr))
        → wildcard_lookup (new_db zone records) name zone t ≡ w
        → Answered (wildcard_answer (new_db zone records) name t w)
    unfolding wildcard_answer
    wildcard_answer-Answered none h = tt
    wildcard_answer-Answered (some (owner, rrs)) h =
        let db = new_db zone records in
        let (parent, is_wildcard, above, found, taken) =
          wildcard_lookup_sound db name zone t owner rrs h in
        expand_wildcard-Answered owner rrs (rw taken (typed-All db owner t))

    lookup_absent-Answered : Answered (lookup_absent (new_db zone records) name t)
    unfolding lookup_absent new_db
    lookup_absent-Answered =
        let db = new_db zone records in
        Answered-if (name_exists db name) (empty_answer rcode_no_error name)
          (wildcard_answer db name t (wildcard_lookup db name zone t)) tt
          (wildcard_answer-Answered (wildcard_lookup db name zone t) refl)

    -- Each answer has the queried name, up to case, and the queried type or type CNAME; so have the
    -- answers that stem from a wildcard.
    pub lookup_rrset-Answering :
        All (Answering name t) (lookup_rrset (new_db zone records) name t).answers
    unfolding lookup_rrset
    lookup_rrset-Answering =
        let db = new_db zone records in
        let answers = lookup_by_type db name t in
        let cnames = lookup_by_type db name RRtype.cname in
        let absent = lookup_absent db name t in
        let alias =
          if not (is_cname t) && not (length cnames == 0)
          then positive db name RRtype.cname cnames
          else absent in
        Answered-if (not (length answers == 0)) (positive db name t answers) alias
          (by_type-Answering t λ rr e. inl e)
          (Answered-if (not (is_cname t) && not (length cnames == 0))
            (positive db name RRtype.cname cnames) absent
            (by_type-Answering RRtype.cname λ rr e. inr e) lookup_absent-Answered)

  module _ (db : Db) (name : Domain) (t : RRtype) where
    expand_wildcard-rcode :
        (owner : Domain) (rrs : List Rr)
        → (expand_wildcard db name t owner rrs).rcode ≡ rcode_no_error
    unfolding expand_wildcard
    expand_wildcard-rcode owner [] = ground arith
    expand_wildcard-rcode owner (rr ∷ rrs) = refl

    wildcard_answer-rcode :
        (w : Option (Domain × List Rr))
        → ((wildcard_answer db name t w).rcode ≡ rcode_nx_domain) ↔ (w ≡ none)
    unfolding wildcard_answer
    wildcard_answer-rcode none = ground arith
    wildcard_answer-rcode (some (owner, rrs)) = ground (arith, expand_wildcard-rcode owner rrs)

    -- Why a name is denied.
    pub record Denied : Type 0 where
      pub no_records : length (lookup_by_type db name t) ≡ 0
      pub no_alias :
          (type_eq t RRtype.cname ≡ true) ⊎ (length (lookup_by_type db name RRtype.cname) ≡ 0)
      pub no_name : name_exists db name ≡ false
      pub no_wildcard : wildcard_lookup db name db.zone t ≡ none

    lookup_rrset-Denied : Denied → (lookup_rrset db name t).rcode ≡ rcode_nx_domain
    unfolding lookup_rrset lookup_absent
    lookup_rrset-Denied d = ground (
      arith,
      d.no_records,
      d.no_alias,
      d.no_name,
      d.no_wildcard,
      (wildcard_answer-rcode none).1 refl,
    )

    Denied-lookup_rrset : (lookup_rrset db name t).rcode ≡ rcode_nx_domain → Denied
    unfolding lookup_rrset lookup_absent
    Denied-lookup_rrset h = record {
      no_records = ground (arith, h);
      no_alias = ground (arith, h);
      no_name = ground (arith, h);
      no_wildcard =
          ground (arith, h, (wildcard_answer-rcode (wildcard_lookup db name db.zone t)).0);
    }

    -- The code is NXDOMAIN exactly if no record has the queried name and type, no CNAME record has
    -- the name (unless the query is for CNAME), the name is no key of the name index and no
    -- wildcard applies.
    pub lookup_rrset_nx : ((lookup_rrset db name t).rcode ≡ rcode_nx_domain) ↔ Denied
    lookup_rrset_nx = (Denied-lookup_rrset, lookup_rrset-Denied)
