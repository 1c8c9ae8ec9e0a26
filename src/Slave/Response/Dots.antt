-- ===== src/Slave/Response/Dots.antt =====
-- The comparisons of an answer: between names with a trailing dot they do not panic.
use xfx1_dns.Db.Wildcard.{Above, wildcard_lookup_sound, cut, further}
use xfx1_dns.Dns.Response.{rcode_no_error, rcode_nx_domain}
use xfx1_dns.Prelude.{
  ℕ, ◌≡◌, refl, sym, inl, inr, Bool, true, false, ◌&&◌, ◌||◌, not, Option, none, some, List, [],
  ◌∷◌, ◌==◌, if◌then◌else◌, length, any, All, All-append, All-if, All-option, Bool-cases,
}
use xfx1_dns.Db.{
  Db, new_db, lookup_by_type, compare_owners, lookup_by_name, name_exists, wildcard_of,
  wildcard_lookup, additional_target, fresh_target,
}
use xfx1_dns.Db.Dots.{
  Dotted, KeepsDot, Named, DottedOption, Targeted, Targeted-rename, compare_owners-Returns,
}
use xfx1_dns.Db.Index.{AllValues, lookup_all, All-lookup_all, AllValues-index_onto}
use xfx1_dns.Slave.Response.{
  Lookup, synthesise_answers, is_cname, empty_answer, positive, expand_wildcard, wildcard_answer,
  lookup_absent, lookup_rrset, EncloserProof, Chain, proof_records, append_dnssec,
}
use xfx1_dns.Db.{Call}
use xfx1_dns.Slave.Response.Calls.{
  chain_calls, run_calls, additional_calls, owner_calls, denial_calls, chain_proof, dnssec_calls,
  negative_calls, rrset_calls, answer_calls,
}
use xfx1_dns.Slave.Response.Known.{Holds, Holds-new_db, lookup_rrset-Both}
use xfx1_dns.Slave.Response.Records.{ProofHolds, ChainHolds, proof_records-All}
use xfx1_dns.Rec.Domain.{Unicode, Domain, ends_dot}
use xfx1_dns.Rec.Types.{RRtype, type_eq}
use xfx1_dns.Rec.Rr.{Rr}
use xfx1_dns.Prelude.Result.{Returns, Returns-ok, Returns-bind}
use xfx1_dns.Prelude.Bytes.{Bytes, bytes_eq}
use mathlib.Core.Path.{subst}

-- What stands behind a dot of a name is empty or ends in a dot as well.
wildcard_of-Dotted : (s q : Bytes) → Above s q → Dotted s → Dotted (wildcard_of q)
unfolding ends_dot
wildcard_of-Dotted _ [] cut h = refl
wildcard_of-Dotted _ (d ∷ r) cut h = h
wildcard_of-Dotted _ q (further {s = []} a) h = absurd (nothing_above q a)
  where
    nothing_above : (q : Bytes) → ¬ (Above [] q)
    nothing_above q a = elim a [ ]
wildcard_of-Dotted _ q (further {s = d ∷ r} a) h = wildcard_of-Dotted (d ∷ r) q a h

abbrev pub DottedCall : Call → Type 0
DottedCall c = Dotted c.0

-- For a zone whose name ends in a dot the chain looks up names that do.
unfoldable pub LooksUpDots : Option Chain → Type 0
LooksUpDots none = Unit
LooksUpDots (some chain) =
    (name zone : Domain) → Dotted zone → All DottedCall (chain.lookups name zone)

module _ ⦃u : Unicode⦄ where
  -- The names of a database end in a dot: owners, targets, and the apex.
  pub record HasDots (db : Db) : Type 0 where
    pub owners : AllValues Named db.by_type
    pub targets : Holds Targeted Targeted-rename db
    pub apex : Dotted db.zone

  pub HasDots-new_db :
      (zone : Domain) (records : List Rr)
      → Dotted zone
      → All Named records
      → All Targeted records
      → HasDots (new_db zone records)
  unfolding new_db
  HasDots-new_db zone records z n t = record {
    owners = AllValues-index_onto type_eq Named (λ rr. rr.rrtype) records [] n tt;
    targets = Holds-new_db Targeted Targeted-rename zone records t;
    apex = z;
  }

module _ ⦃u : Unicode⦄ (law : KeepsDot u) where
  run_calls-Returns :
      (db : Db) (calls : List Call)
      → AllValues Named db.by_type
      → All DottedCall calls
      → Returns (run_calls db calls)
  unfolding run_calls
  run_calls-Returns db [] owners h = Returns-ok tt
  run_calls-Returns db ((name, t) ∷ calls) owners h =
      Returns-bind (compare_owners (lookup_all type_eq t db.by_type) name) _
        (compare_owners-Returns law _ name (All-lookup_all type_eq Named t db.by_type owners) h.0)
        λ _ _. run_calls-Returns db calls owners h.1

  fresh_target-Dotted :
      (seen : List Domain) (rr : Rr) (target : Domain)
      → Targeted rr
      → fresh_target seen rr ≡ some target
      → Dotted target
  unfolding fresh_target
  fresh_target-Dotted seen rr target h e = picked (additional_target rr.opts) h e
    where
      picked :
          (o : Option Domain)
          → DottedOption o
          → elim o [ none ↦ none | some d ↦ if any (bytes_eq d) seen then none else some d ]
            ≡ some target
          → Dotted target
      picked none k e = cc
      picked (some d) k e = elim (Bool-cases (any (bytes_eq d) seen)) [
        | inl met ↦ cc (rw met at e)
        | inr met ↦ let same : d ≡ target = cc (rw met at e) in subst Dotted same k
      ]

  additional_calls-Dotted :
      (rrs : List Rr) (seen : List Domain)
      → All Targeted rrs
      → All DottedCall (additional_calls rrs seen)
  unfolding additional_calls
  additional_calls-Dotted [] seen h = tt
  additional_calls-Dotted (rr ∷ rrs) seen h =
      All-option DottedCall (fresh_target seen rr) (additional_calls rrs seen) _
        (additional_calls-Dotted rrs seen h.1)
        λ target e.
          let ends = fresh_target-Dotted seen rr target h.0 e in
          (ends, (ends, additional_calls-Dotted rrs (target ∷ seen) h.1))

  owner_calls-Dotted : (rrs : List Rr) → All Named rrs → All DottedCall (owner_calls rrs)
  unfolding owner_calls
  owner_calls-Dotted [] h = tt
  owner_calls-Dotted (rr ∷ rrs) h = (h.0, owner_calls-Dotted rrs h.1)

  chain_calls-Dotted :
      (db : Db) (chain : Option Chain) (name : Domain)
      → LooksUpDots chain
      → Dotted db.zone
      → All DottedCall (chain_calls db chain name)
  unfolding LooksUpDots
  chain_calls-Dotted db none name h z = tt
  chain_calls-Dotted db (some chain) name h z = h name db.zone z

  denial_calls-Dotted :
      (db : Db) (chain : Option Chain) (name : Domain)
      → ChainHolds Named chain
      → All DottedCall (denial_calls (chain_proof db chain name))
  unfolding ChainHolds
  denial_calls-Dotted db none name h = tt
  denial_calls-Dotted db (some chain) name h =
      denied (chain.proof_of name db.zone db) (h name db.zone db)
    where
      denied :
          (o : Option EncloserProof)
          → ((p : EncloserProof) → o ≡ some p → ProofHolds Named p)
          → All DottedCall (denial_calls o)
      denied none k = tt
      denied (some p) k =
          owner_calls-Dotted (proof_records p) (proof_records-All Named p (k p refl))

  module _ (db : Db) (h : HasDots db) (name : Domain) (k : Dotted name) where
    abbrev Owned : Lookup → Type 0
    Owned l = Dotted l.effective_owner

    Owned-if : (b : Bool) (x y : Lookup) → Owned x → Owned y → Owned (if b then x else y)
    Owned-if true x y hx hy = hx
    Owned-if false x y hx hy = hy

    expand_wildcard-Owned :
        (t : RRtype) (owner : Domain) (rrs : List Rr)
        → Dotted owner
        → Owned (expand_wildcard db name t owner rrs)
    unfolding expand_wildcard
    expand_wildcard-Owned t owner [] o =
        let cnames = lookup_by_name db owner RRtype.cname in
        Owned-if (not (is_cname t) && not (length cnames == 0))
          (positive db owner RRtype.cname (synthesise_answers cnames name))
          (empty_answer rcode_no_error owner) o o
    expand_wildcard-Owned t owner (rr ∷ rrs) o = o

    wildcard_answer-Owned :
        (t : RRtype) (w : Option (Domain × List Rr))
        → wildcard_lookup db name db.zone t ≡ w
        → Owned (wildcard_answer db name t w)
    unfolding wildcard_answer
    wildcard_answer-Owned t none e = k
    wildcard_answer-Owned t (some w) e =
        let (parent, is_wildcard, above, _, _) =
          wildcard_lookup_sound db name db.zone t w.0 w.1 e in
        expand_wildcard-Owned t w.0 w.1
          (subst Dotted (sym is_wildcard) (wildcard_of-Dotted name parent above k))

    lookup_absent-Owned : (t : RRtype) → Owned (lookup_absent db name t)
    unfolding lookup_absent
    lookup_absent-Owned t =
        let w = wildcard_lookup db name db.zone t in
        Owned-if (name_exists db name) (empty_answer rcode_no_error name)
          (wildcard_answer db name t w) k (wildcard_answer-Owned t w refl)

    lookup_rrset-Owned : (t : RRtype) → Owned (lookup_rrset db name t)
    unfolding lookup_rrset
    lookup_rrset-Owned t =
        let answers = lookup_by_type db name t in
        let cnames = lookup_by_type db name RRtype.cname in
        let absent = lookup_absent db name t in
        let alias = not (is_cname t) && not (length cnames == 0) in
        Owned-if (not (length answers == 0)) (positive db name t answers)
          (if alias then positive db name RRtype.cname cnames else absent) k
          (Owned-if alias (positive db name RRtype.cname cnames) absent k (lookup_absent-Owned t))

    rrset_calls-Dotted : (t : RRtype) → All DottedCall (rrset_calls db name t)
    unfolding rrset_calls
    rrset_calls-Dotted t =
        let both = lookup_rrset-Both Targeted Targeted-rename db h.targets name t in
        let targets = additional_calls-Dotted (lookup_rrset db name t).answers [] both.0 in
        All-if DottedCall (length (lookup_by_type db name t) == 0 && not (is_cname t)) _ _
          (k, (k, targets)) (k, targets)

    dnssec_calls-Dotted :
        (chain : Option Chain) (owner : Domain) (rcode : ℕ) (answers : List Rr) (do_bit : Bool)
        → ChainHolds Named chain
        → LooksUpDots chain
        → Dotted owner
        → All DottedCall (dnssec_calls db chain name owner rcode answers do_bit)
    unfolding dnssec_calls
    dnssec_calls-Dotted chain owner rcode answers do_bit c l o =
        All-if DottedCall (not do_bit || not db.dnssec_enabled) _ _ tt (
          All-if DottedCall (rcode == rcode_no_error) _ _
            (All-if DottedCall (length answers == 0) _ _ tt (o, tt))
            (All-if DottedCall (rcode == rcode_nx_domain) _ _
              (All-append DottedCall (chain_calls db chain name) _
                (chain_calls-Dotted db chain name l h.apex) (denial_calls-Dotted db chain name c))
              tt))

    negative_calls-Dotted :
        (rcode : ℕ) (answers : List Rr) (do_bit : Bool)
        → All DottedCall (negative_calls db rcode answers do_bit)
    unfolding negative_calls
    negative_calls-Dotted rcode answers do_bit =
        let soa : Call = (db.zone, RRtype.soa) in
        let signed : List Call = soa ∷ (db.zone, RRtype.rrsig) ∷ [] in
        let nothing =
          not (rcode == rcode_nx_domain) && not (rcode == rcode_no_error && length answers == 0) in
        All-if DottedCall nothing [] (if do_bit && db.dnssec_enabled then signed else soa ∷ []) tt (
          All-if DottedCall (do_bit && db.dnssec_enabled) signed (soa ∷ []) (h.apex, (h.apex, tt))
            (h.apex, tt))

    -- No call of `LookupByType` for an answer panics.
    pub answer_calls-Returns :
        (chain : Option Chain) (t : RRtype) (qtype : ℕ) (do_bit : Bool)
        → ChainHolds Named chain
        → LooksUpDots chain
        → Returns (run_calls db (answer_calls db chain name t qtype do_bit))
    unfolding answer_calls
    answer_calls-Returns chain t qtype do_bit c l =
        let found = lookup_rrset db name t in
        let signed =
          append_dnssec db chain name found.effective_owner qtype found.rcode found.answers []
            do_bit in
        run_calls-Returns db (answer_calls db chain name t qtype do_bit) h.owners (
          All-append DottedCall (rrset_calls db name t) _ (rrset_calls-Dotted t) (
            All-append DottedCall
              (dnssec_calls db chain name found.effective_owner found.rcode found.answers do_bit) _
              (dnssec_calls-Dotted chain found.effective_owner found.rcode found.answers do_bit c l
                (lookup_rrset-Owned t))
              (negative_calls-Dotted found.rcode signed.answers do_bit)))
