-- ===== src/Db/Sanity/Runs.antt =====
-- Each check returns on records whose data is of their type and whose names end in a dot.
use xfx1_dns.Prelude.{
  ℕ, zero, suc, ◌≡◌, false, not, List, [], ◌∷◌, arith, ◌==◌, if◌then◌else◌, length, any, All, ltb,
}
use xfx1_dns.Db.{Db, lookup_by_type, all_records}
use xfx1_dns.Db.Index.{AllValues, All-lookup_all}
use xfx1_dns.Db.Sanity.{
  soa_opts, ns_opts, cname_opts, cname_compatible_rrtype, of_type, of_name, is_empty, head_of, soas,
  has_ns, has_address, soa_candidates, check_soa_count, check_soa, check_ns_addresses, check_apex,
  check_owners, check_alone, check_self, in_zone, follow, check_chains, sanity_checks, looked_up,
  compared, address_looked_up,
}
use xfx1_dns.Db.Sanity.Sane.{check_soa_count-one}
use xfx1_dns.Db.Dots.{
  Dotted, KeepsDot, Named, Targeted, compare_domain-Returns, compare_owners-Returns,
}
use xfx1_dns.Prelude.Result.{
  no_error-Returns, Returns, Returns-ok, Returns-err, Returns-if, Returns-bind, ok,
}
use xfx1_dns.Rec.Domain.{Unicode, Domain, same_domain}
use xfx1_dns.Rec.Types.{RRtype, type_eq}
use xfx1_dns.Rec.Opts.{Soa}
use xfx1_dns.Rec.Rr.{Rr}
use xfx1_dns.Prelude.Bytes.{bytes_eq}
use mathlib.Core.Path.{subst}
use xfx1_dns.Db.Sanity.Typed.{
  IsOf, ns_opts-Returns, cname_opts-Returns, soa_opts-Returns, ns-Dotted, cname-Dotted, MnameDotted,
  mname-Dotted, has_ns-Returns,
}

module _ ⦃u : Unicode⦄ (law : KeepsDot u) (db : Db) (owners : AllValues Named db.by_type) where
  looked_up-Returns : (name : Domain) (t : RRtype) → Dotted name → Returns (looked_up db name t)
  looked_up-Returns name t k =
      no_error-Returns _
        (compare_owners-Returns law _ name (All-lookup_all type_eq Named t db.by_type owners) k)

  check_soa-Returns :
      (soa : Soa)
      → Dotted soa.mname
      → All (IsOf RRtype.ns) (of_type db RRtype.ns)
      → All Targeted (of_type db RRtype.ns)
      → Returns (check_soa db soa)
  unfolding check_soa
  check_soa-Returns soa m h k =
      Returns-if (soa.serial == 0) _ _ (λ _. Returns-err _)
        λ _.
          Returns-bind (has_ns soa.mname (of_type db RRtype.ns)) _
            (has_ns-Returns law soa.mname _ m h k)
            λ found _. Returns-if found _ _ (λ _. Returns-ok _) (λ _. Returns-err _)

  check_ns_addresses-Returns :
      (rrs : List Rr)
      → All (IsOf RRtype.ns) rrs
      → All Targeted rrs
      → Returns (check_ns_addresses db rrs)
  unfolding check_ns_addresses
  check_ns_addresses-Returns [] h k = Returns-ok _
  check_ns_addresses-Returns (rr ∷ rrs) h k =
      Returns-bind (ns_opts rr.opts) _ (ns_opts-Returns rr.opts h.0) λ d e.
        let dots = ns-Dotted rr.opts d k.0 e in
        Returns-bind (looked_up db d RRtype.a) _ (looked_up-Returns d RRtype.a dots) λ _ _.
          Returns-bind (looked_up db d RRtype.aaaa) _ (looked_up-Returns d RRtype.aaaa dots) λ _ _.
            Returns-if (has_address db d) _ _ (λ _. check_ns_addresses-Returns rrs h.1 k.1)
              (λ _. Returns-err _)

  check_owners-Returns : (seen : List Domain) (rrs : List Rr) → Returns (check_owners db seen rrs)
  unfolding check_owners
  check_owners-Returns seen [] = Returns-ok _
  check_owners-Returns seen (rr ∷ rrs) =
      Returns-if (any (λ d. bytes_eq d rr.name) seen) _ _ (λ _. Returns-err _)
        (λ _. check_owners-Returns (rr.name ∷ seen) rrs)

  check_alone-Returns : (rrs : List Rr) → Returns (check_alone db rrs)
  unfolding check_alone
  check_alone-Returns [] = Returns-ok _
  check_alone-Returns (rr ∷ rrs) =
      Returns-if (any (λ peer. not (cname_compatible_rrtype peer.rrtype)) (of_name db rr.name)) _ _
        (λ _. Returns-err _) (λ _. check_alone-Returns rrs)

  check_self-Returns :
      (rrs : List Rr)
      → All (IsOf RRtype.cname) rrs
      → All Named rrs
      → All Targeted rrs
      → Returns (check_self db rrs)
  unfolding check_self
  check_self-Returns [] h n k = Returns-ok _
  check_self-Returns (rr ∷ rrs) h n k =
      Returns-bind (cname_opts rr.opts) _ (cname_opts-Returns rr.opts h.0) λ d e.
        Returns-bind (compared rr.name d) _
          (no_error-Returns _
            (compare_domain-Returns law rr.name d n.0 (cname-Dotted rr.opts d k.0 e)))
          λ _ _.
            Returns-if (same_domain rr.name d) _ _ (λ _. Returns-err _)
              (λ _. check_self-Returns rrs h.1 n.1 k.1)

  head_of-Returns : (rrs : List Rr) → is_empty rrs ≡ false → Returns (head_of rrs)
  unfolding is_empty
  head_of-Returns [] h = cc
  head_of-Returns (rr ∷ rrs) h = Returns-ok rr

  head_of-All : (P : Rr → Type 0) (rrs : List Rr) (rr : Rr) → All P rrs → head_of rrs ≡ ok rr → P rr
  head_of-All P [] rr h e = cc
  head_of-All P (x ∷ rrs) rr h e = let same : x ≡ rr = cc in subst P same h.0

  -- The records that a name leads to are CNAMEs, whose targets end in a dot.
  abbrev Cnames : Type 0
  Cnames =
      (d : Domain)
      → All (IsOf RRtype.cname) (lookup_by_type db d RRtype.cname)
        × All Targeted (lookup_by_type db d RRtype.cname)

  address_looked_up-Returns : (d : Domain) → Dotted d → Returns (address_looked_up db d)
  address_looked_up-Returns d k =
      Returns-bind (looked_up db d RRtype.a) _ (looked_up-Returns d RRtype.a k) λ _ _.
        Returns-if (is_empty (lookup_by_type db d RRtype.a)) _ _
          (λ _. looked_up-Returns d RRtype.aaaa k) (λ _. Returns-ok _)

  follow-Returns :
      Cnames
      → (owner : Domain) (fuel : ℕ) (target : Domain) → Dotted target
      → Returns (follow db owner fuel target)
  unfolding follow
  follow-Returns h owner zero target k = Returns-err _
  follow-Returns h owner (suc fuel) target k =
      let found = lookup_by_type db target RRtype.cname in
      Returns-bind (address_looked_up db target) _ (address_looked_up-Returns target k) λ _ _.
        Returns-if (has_address db target) _ _ (λ _. Returns-ok _)
          λ _.
            Returns-bind (looked_up db target RRtype.cname) _
              (looked_up-Returns target RRtype.cname k)
              λ _ _.
                Returns-if (is_empty found) _ _ (λ _. Returns-err _)
                  λ some_cname.
                    Returns-bind (head_of found) _ (head_of-Returns found some_cname) λ rr e.
                      Returns-bind (cname_opts rr.opts) _
                        (cname_opts-Returns rr.opts
                          (head_of-All (IsOf RRtype.cname) found rr ((h target).0) e))
                        λ d run.
                          let targeted = head_of-All Targeted found rr ((h target).1) e in
                          Returns-if (in_zone db d) _ _
                            (λ _.
                              follow-Returns h owner fuel d (cname-Dotted rr.opts d targeted run))
                            (λ _. Returns-ok _)

  check_chains-Returns :
      Cnames
      → (depth : ℕ) (rrs : List Rr) → All (IsOf RRtype.cname) rrs
      → All Targeted rrs
      → Returns (check_chains db depth rrs)
  unfolding check_chains
  check_chains-Returns h depth [] k t = Returns-ok _
  check_chains-Returns h depth (rr ∷ rrs) k t =
      Returns-bind (cname_opts rr.opts) _ (cname_opts-Returns rr.opts k.0) λ d e.
        Returns-bind (if in_zone db d then follow db rr.name depth d else ok tt) _
          (Returns-if (in_zone db d) _ _
            (λ _. follow-Returns h rr.name depth d (cname-Dotted rr.opts d t.0 e))
            (λ _. Returns-ok _))
          λ _ _. check_chains-Returns h depth rrs k.1 t.1

  check_soa_count-Returns : (n : ℕ) → Returns (check_soa_count db n)
  unfolding check_soa_count
  check_soa_count-Returns n =
      Returns-if (n == 0) _ _ (λ _. Returns-err _)
        λ _. Returns-if (ltb 1 n) _ _ (λ _. Returns-err _) (λ _. Returns-ok _)

  check_apex-Returns : Dotted db.zone → Returns (check_apex db)
  unfolding check_apex
  check_apex-Returns z =
      Returns-bind (looked_up db db.zone RRtype.cname) _ (looked_up-Returns db.zone RRtype.cname z)
        λ _ _.
          Returns-if (is_empty (lookup_by_type db db.zone RRtype.cname)) _ _ (λ _. Returns-ok _)
            (λ _. Returns-err _)

  -- Behind the count of SOAs there is a first candidate.
  soa_head-Returns :
      check_soa_count db (length (soas db)) ≡ ok tt → Returns (head_of (soa_candidates db))
  unfolding soa_candidates is_empty
  soa_head-Returns counted = go (lookup_by_type db db.zone RRtype.soa)
    where
      go : (rrs : List Rr) → Returns (head_of (if is_empty rrs then soas db else rrs))
      go [] = some_soa (soas db) (check_soa_count-one db (length (soas db)) counted)
        where
          some_soa : (rrs : List Rr) → length rrs ≡ 1 → Returns (head_of rrs)
          some_soa [] e = absurd (omega (arith, e))
          some_soa (rr ∷ rrs) e = Returns-ok rr
      go (rr ∷ rrs) = Returns-ok rr

  pub sanity-Returns :
      Dotted db.zone
      → All (IsOf RRtype.soa) (soa_candidates db)
      → All (λ rr. MnameDotted rr.opts) (soa_candidates db)
      → All (IsOf RRtype.ns) (of_type db RRtype.ns)
      → All (IsOf RRtype.cname) (of_type db RRtype.cname)
      → ((t : RRtype) → All Targeted (of_type db t))
      → Cnames
      → Returns (sanity_checks db)
  unfolding sanity_checks
  sanity-Returns z hs hm hn hc ht hl =
      let cnames = of_type db RRtype.cname in
      Returns-bind (check_soa_count db (length (soas db))) _
        (check_soa_count-Returns (length (soas db)))
        λ _ counted.
          Returns-bind (looked_up db db.zone RRtype.soa) _ (looked_up-Returns db.zone RRtype.soa z)
            λ _ _. Returns-bind (head_of (soa_candidates db)) _ (soa_head-Returns counted) λ rr e.
              Returns-bind (soa_opts rr.opts) _
                (soa_opts-Returns rr.opts
                  (head_of-All (IsOf RRtype.soa) (soa_candidates db) rr hs e))
                λ soa o.
                  Returns-bind (check_soa db soa) _
                    (check_soa-Returns soa
                      (mname-Dotted rr.opts soa
                        (head_of-All (λ rr. MnameDotted rr.opts) (soa_candidates db) rr hm e) o)
                      hn (ht RRtype.ns))
                    λ _ _.
                      Returns-bind (check_ns_addresses db (of_type db RRtype.ns)) _
                        (check_ns_addresses-Returns _ hn (ht RRtype.ns))
                        λ _ _. Returns-bind (check_apex db) _ (check_apex-Returns z) λ _ _.
                          Returns-bind (check_owners db [] cnames) _
                            (check_owners-Returns [] cnames)
                            λ _ _.
                              Returns-bind (check_alone db cnames) _ (check_alone-Returns cnames)
                                λ _ _.
                                  Returns-bind (check_self db cnames) _
                                    (check_self-Returns cnames hc
                                      (All-lookup_all type_eq Named RRtype.cname db.by_type owners)
                                      (ht RRtype.cname))
                                    λ _ _.
                                      check_chains-Returns hl (length (all_records db)) cnames hc
                                        (ht RRtype.cname)
