-- ===== src/Db/Sanity/Sane.antt =====
-- `SanityChecks` accepts only consistent zones.
use xfx1_dns.Prelude.{
  ℕ, ◌≡◌, refl, ap, ◌∙◌, ◌≢◌, inl, inr, Bool, true, false, ◌||◌, List, [], ◌∷◌, arith, ◌==◌,
  if◌then◌else◌, length, any, All, Bool-cases, ltb,
}
use xfx1_dns.Db.{Db, lookup_by_type, all_records}
use xfx1_dns.Db.Sanity.{
  looked_up, compared, Check, soa_opts, ns_opts, of_type, is_empty, head_of, soas, has_ns,
  soa_candidates, check_soa_count, check_soa, check_ns_addresses, check_apex, check_owners,
  check_alone, check_self, sanity_checks, cname_at_apex,
}
use xfx1_dns.Db.Sanity.Sound.{
  ns_opts-ok, HasServer, IsAlias, Fresh, check_ns_addresses-HasServer, check_owners-Fresh,
  checks-IsAlias,
}
use xfx1_dns.Rec.Domain.{Unicode, Domain, same_domain}
use xfx1_dns.Rec.Types.{RRtype}
use xfx1_dns.Rec.Opts.{Soa, RRopts}
use xfx1_dns.Rec.Rr.{Rr}
use xfx1_dns.Prelude.Result.{>>=-eq-ok, ok, err}

pub soa_opts-ok : (o : RRopts) (soa : Soa) → soa_opts o ≡ ok soa → o ≡ RRopts.soa soa
unfolding soa_opts
soa_opts-ok o soa h = ground arith

-- Whether the data of a record is a name server equal to `mname` up to case.
abbrev pub serves : ⦃u : Unicode⦄ → Domain → RRopts → Bool
serves mname (RRopts.ns d) = same_domain d mname
serves mname _ = false

has_ns-any :
    ⦃u : Unicode⦄ (mname : Domain) (rrs : List Rr) (b : Bool)
    → has_ns mname rrs ≡ ok b
    → any (λ rr. serves mname rr.opts) rrs ≡ b
unfolding has_ns
has_ns-any mname [] b run = cc
has_ns-any mname (rr ∷ rrs) b run =
    let (d, opts, run1) = >>=-eq-ok (ns_opts rr.opts) _ run in
    let (_, _, next_run) = >>=-eq-ok (compared d mname) _ run1 in
    let (rest, tail, last) = >>=-eq-ok (has_ns mname rrs) _ next_run in
    let here : serves mname rr.opts ≡ same_domain d mname =
      ap (serves mname) (ns_opts-ok rr.opts d opts) in
    let later = has_ns-any mname rrs rest tail in
    let value : (same_domain d mname || rest) ≡ b = cc in ground (arith, here, later, value)

module _ ⦃u : Unicode⦄ (db : Db) where
  -- A consistent zone.
  pub record Sane : Type 0 where
    pub one_soa : length (soas db) ≡ 1
    pub soa_rr : Rr
    pub soa : Soa
    pub others : List Rr
    pub candidate : soa_candidates db ≡ soa_rr ∷ others
    pub soa_data : soa_rr.opts ≡ RRopts.soa soa
    pub serial : soa.serial ≢ 0
    pub mname : any (λ rr. serves soa.mname rr.opts) (of_type db RRtype.ns) ≡ true
    pub servers : All (HasServer db) (of_type db RRtype.ns)
    pub apex : lookup_by_type db db.zone RRtype.cname ≡ []
    pub owners : Fresh db [] (of_type db RRtype.cname)
    pub aliases : All (IsAlias db) (of_type db RRtype.cname)

  pub check_soa_count-one : (n : ℕ) → check_soa_count db n ≡ ok tt → n ≡ 1
  unfolding check_soa_count
  check_soa_count-one n run = elim (Bool-cases (n == 0)) [
    | inl e ↦ cc (rw e at run)
    | inr e ↦ elim (Bool-cases (ltb 1 n)) [
      | inl d ↦ cc (rw (e, d) at run)
      | inr d ↦ ground (arith, e, d)
    ]
  ]

  check_soa-parts :
      (soa : Soa)
      → check_soa db soa ≡ ok tt
      → (soa.serial ≢ 0) × (any (λ rr. serves soa.mname rr.opts) (of_type db RRtype.ns) ≡ true)
  unfolding check_soa
  check_soa-parts soa run = elim (Bool-cases (soa.serial == 0)) [
    | inl e ↦ cc (rw e at run)
    | inr e ↦
        let (b, found, last) =
          >>=-eq-ok (has_ns soa.mname (of_type db RRtype.ns)) _ (rw e at run) in
        (
          λ z. ground (arith, e, z),
          elim (Bool-cases b) [
            | inl t ↦ has_ns-any soa.mname (of_type db RRtype.ns) b found ∙ t
            | inr t ↦ cc (rw t at last)
          ],
        )
  ]

  head_of-ok :
      (rrs : List Rr) (rr : Rr) → head_of rrs ≡ ok rr → (rest : List Rr) × (rrs ≡ rr ∷ rest)
  head_of-ok [] rr h = cc
  head_of-ok (x ∷ rest) rr h = (rest, cc)

  check_apex-none : check_apex db ≡ ok tt → lookup_by_type db db.zone RRtype.cname ≡ []
  unfolding check_apex
  check_apex-none run =
      let (_, _, last) = >>=-eq-ok (looked_up db db.zone RRtype.cname) _ run in
      go (lookup_by_type db db.zone RRtype.cname) last
    where
      go :
          (rrs : List Rr)
          → ◌≡◌ {A = Check (Unit {0})}
              (if is_empty rrs then ok tt else err (cname_at_apex db.zone))
              (ok tt)
          → rrs ≡ []
      go [] r = refl
      go (rr ∷ rrs) r = unfold is_empty in cc

  -- A zone that `SanityChecks` accepts has exactly one SOA, with a serial other than 0 and an MNAME
  -- among its name servers; each of its name servers has an address; no CNAME stands at the apex,
  -- the owners of the CNAMEs are different and have no ordinary data beside them, and each target
  -- is another name that leads, by CNAMEs, to an address or out of the zone.
  pub sanity_checks-Sane : sanity_checks db ≡ ok tt → Sane
  unfolding sanity_checks
  sanity_checks-Sane run =
      let cnames = of_type db RRtype.cname in
      let (_, count, run1) = >>=-eq-ok (check_soa_count db (length (soas db))) _ run in
      let (_, _, run1') = >>=-eq-ok (looked_up db db.zone RRtype.soa) _ run1 in
      let (soa_rr, chosen, run2) = >>=-eq-ok (head_of (soa_candidates db)) _ run1' in
      let (soa, opts, run3) = >>=-eq-ok (soa_opts soa_rr.opts) _ run2 in
      let (_, soa_run, run4) = >>=-eq-ok (check_soa db soa) _ run3 in
      let (_, ns_run, run5) = >>=-eq-ok (check_ns_addresses db (of_type db RRtype.ns)) _ run4 in
      let (_, apex_run, run6) = >>=-eq-ok (check_apex db) _ run5 in
      let (_, owners_run, run7) = >>=-eq-ok (check_owners db [] cnames) _ run6 in
      let (_, alone_run, run8) = >>=-eq-ok (check_alone db cnames) _ run7 in
      let (_, self_run, chains_run) = >>=-eq-ok (check_self db cnames) _ run8 in
      let (rest, candidates) = head_of-ok (soa_candidates db) soa_rr chosen in
      let (serial, mname) = check_soa-parts soa soa_run in
      record {
        one_soa = check_soa_count-one (length (soas db)) count;
        soa_rr = soa_rr;
        soa = soa;
        others = rest;
        candidate = candidates;
        soa_data = soa_opts-ok soa_rr.opts soa opts;
        serial = serial;
        mname = mname;
        servers = check_ns_addresses-HasServer db (of_type db RRtype.ns) ns_run;
        apex = check_apex-none apex_run;
        owners = check_owners-Fresh db [] cnames owners_run;
        aliases = checks-IsAlias db (length (all_records db)) cnames alone_run self_run chains_run;
      }
