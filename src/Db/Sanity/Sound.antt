-- ===== src/Db/Sanity/Sound.antt =====
-- What a zone that passes the checks is like.
use xfx1_dns.Prelude.{
  ℕ, zero, suc, ◌≡◌, refl, inl, inr, true, false, not, List, [], ◌∷◌, arith, if◌then◌else◌, any,
  All, Bool-cases,
}
use xfx1_dns.Db.{Db, lookup_by_type}
use xfx1_dns.Db.Sanity.{
  Check, ns_opts, cname_opts, cname_compatible_rrtype, of_name, is_empty, head_of, has_address,
  looked_up, compared, address_looked_up, check_ns_addresses, check_owners, check_alone, check_self,
  in_zone, follow, check_chains, cname_no_resolve,
}
use xfx1_dns.Rec.Domain.{Unicode, Domain, same_domain}
use xfx1_dns.Rec.Types.{RRtype}
use xfx1_dns.Rec.Opts.{RRopts}
use xfx1_dns.Rec.Rr.{Rr}
use xfx1_dns.Prelude.Result.{>>=-eq-ok, ok, err, ◌>>=◌}
use xfx1_dns.Prelude.Bytes.{bytes_eq}
use mathlib.Core.Path.{subst}

pub cname_opts-ok : (o : RRopts) (d : Domain) → cname_opts o ≡ ok d → o ≡ RRopts.cname d
unfolding cname_opts
cname_opts-ok o d h = ground arith

pub ns_opts-ok : (o : RRopts) (d : Domain) → ns_opts o ≡ ok d → o ≡ RRopts.ns d
unfolding ns_opts
ns_opts-ok o d h = ground arith

module _ ⦃u : Unicode⦄ (db : Db) where
  -- A name has an address, lies outside the zone, or has a CNAME record to a name of this kind.
  pub data Resolves : Domain → Type 0 where
    by_address : (d : Domain) → has_address db d ≡ true → Resolves d
    outside : (d : Domain) → in_zone db d ≡ false → Resolves d
    by_cname :
        (d target : Domain) (rr : Rr) (rest : List Rr)
        → lookup_by_type db d RRtype.cname ≡ rr ∷ rest
        → rr.opts ≡ RRopts.cname target
        → Resolves target
        → Resolves d

  -- A name server record whose target has an address.
  pub record HasServer (rr : Rr) : Type 0 where
    pub server : Domain
    pub opts : rr.opts ≡ RRopts.ns server
    pub address : has_address db server ≡ true

  -- A CNAME record that is the only one of its owner, stands beside no ordinary data, and whose
  -- target is another name and resolves.
  pub record IsAlias (rr : Rr) : Type 0 where
    pub target : Domain
    pub opts : rr.opts ≡ RRopts.cname target
    pub alone : any (λ peer. not (cname_compatible_rrtype peer.rrtype)) (of_name db rr.name) ≡ false
    pub other_name : same_domain rr.name target ≡ false
    pub resolves : Resolves target

  -- The owners are different, one from another and from those of `seen`.
  abbrev pub Fresh : List Domain → List Rr → Type 0
  Fresh seen [] = Unit
  Fresh seen (rr ∷ rrs) = (any (λ d. bytes_eq d rr.name) seen ≡ false) × Fresh (rr.name ∷ seen) rrs

  pub check_ns_addresses-HasServer :
      (rrs : List Rr) → check_ns_addresses db rrs ≡ ok tt → All HasServer rrs
  unfolding check_ns_addresses
  check_ns_addresses-HasServer [] run = tt
  check_ns_addresses-HasServer (rr ∷ rrs) run =
      let (server, opts, run1) = >>=-eq-ok (ns_opts rr.opts) _ run in
      let (_, _, run2) = >>=-eq-ok (looked_up db server RRtype.a) _ run1 in
      let (_, _, rest) = >>=-eq-ok (looked_up db server RRtype.aaaa) _ run2 in
      elim (Bool-cases (has_address db server)) [
        | inl e ↦ (
          record { server = server; opts = ns_opts-ok rr.opts server opts; address = e },
          check_ns_addresses-HasServer rrs (rw e at rest),
        )
        | inr e ↦ cc (rw e at rest)
      ]

  pub check_owners-Fresh :
      (seen : List Domain) (rrs : List Rr) → check_owners db seen rrs ≡ ok tt → Fresh seen rrs
  unfolding check_owners
  check_owners-Fresh seen [] run = tt
  check_owners-Fresh seen (rr ∷ rrs) run = elim (Bool-cases (any (λ d. bytes_eq d rr.name) seen)) [
    | inl e ↦ cc (rw e at run)
    | inr e ↦ (e, check_owners-Fresh (rr.name ∷ seen) rrs (rw e at run))
  ]

  -- A round of the loop from where no address was found.
  onward-Resolves :
      (owner : Domain) (fuel : ℕ) (target : Domain) (rrs : List Rr)
      → ((d : Domain) → follow db owner fuel d ≡ ok tt → Resolves d)
      → lookup_by_type db target RRtype.cname ≡ rrs
      → ◌≡◌ {A = Check (Unit {0})}
          (if is_empty rrs then err (cname_no_resolve owner) else do
            rr ← head_of rrs
            d ← cname_opts rr.opts
            if in_zone db d then follow db owner fuel d else ok tt)
          (ok tt)
      → Resolves target
  unfolding is_empty
  onward-Resolves owner fuel target [] rec e run = cc
  onward-Resolves owner fuel target (rr ∷ rest) rec e run =
      let (d, opts, next_run) = >>=-eq-ok (cname_opts rr.opts) _ run in
      by_cname target d rr rest e (cname_opts-ok rr.opts d opts) (elim (Bool-cases (in_zone db d)) [
        | inl k ↦ rec d (rw k at next_run)
        | inr k ↦ outside d k
      ])

  follow-Resolves :
      (owner : Domain) (fuel : ℕ) (target : Domain)
      → follow db owner fuel target ≡ ok tt
      → Resolves target
  unfolding follow
  follow-Resolves owner zero target run = cc
  follow-Resolves owner (suc fuel) target run =
      let (_, _, run1) = >>=-eq-ok (address_looked_up db target) _ run in
      elim (Bool-cases (has_address db target)) [
        | inl e ↦ by_address target e
        | inr e ↦
            let (_, _, run2) = >>=-eq-ok (looked_up db target RRtype.cname) _ (rw e at run1) in
            onward-Resolves owner fuel target (lookup_by_type db target RRtype.cname)
              (follow-Resolves owner fuel) refl run2
      ]

  chain-Resolves :
      (owner : Domain) (depth : ℕ) (target : Domain)
      → ◌≡◌ {A = Check (Unit {0})}
          (if in_zone db target then follow db owner depth target else ok tt)
          (ok tt)
      → Resolves target
  chain-Resolves owner depth target run = elim (Bool-cases (in_zone db target)) [
    | inl e ↦ follow-Resolves owner depth target (rw e at run)
    | inr e ↦ outside target e
  ]

  pub checks-IsAlias :
      (depth : ℕ) (rrs : List Rr)
      → check_alone db rrs ≡ ok tt
      → check_self db rrs ≡ ok tt
      → check_chains db depth rrs ≡ ok tt
      → All IsAlias rrs
  unfolding check_alone check_self check_chains
  checks-IsAlias depth [] alone self chains = tt
  checks-IsAlias depth (rr ∷ rrs) alone self chains =
      elim (Bool-cases
        (any (λ peer. not (cname_compatible_rrtype peer.rrtype)) (of_name db rr.name))) [
          | inl e ↦ cc (rw e at alone)
          | inr e ↦
              let (target, opts, self1) = >>=-eq-ok (cname_opts rr.opts) _ self in
              let (_, _, self_rest) = >>=-eq-ok (compared rr.name target) _ self1 in
              let (target', opts', chain) = >>=-eq-ok (cname_opts rr.opts) _ chains in
              let (_, here, chains_rest) =
                >>=-eq-ok (if in_zone db target' then follow db rr.name depth target' else ok tt) _
                  chain in
              let same : target' ≡ target = cc in
              elim (Bool-cases (same_domain rr.name target)) [
                | inl k ↦ cc (rw k at self_rest)
                | inr k ↦ (
                  record {
                    target = target;
                    opts = cname_opts-ok rr.opts target opts;
                    alone = e;
                    other_name = k;
                    resolves = subst Resolves same (chain-Resolves rr.name depth target' here);
                  },
                  checks-IsAlias depth rrs (rw e at alone) (rw k at self_rest) chains_rest,
                )
              ]
        ]
