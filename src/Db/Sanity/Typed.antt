-- ===== src/Db/Sanity/Typed.antt =====
-- Records whose data is of their type: the type assertions on them hold.
use xfx1_dns.Prelude.{◌≡◌, sym, ◌∙◌, inl, inr, false, List, [], ◌∷◌, filter, All, Bool-cases}
use xfx1_dns.Db.{additional_target}
use xfx1_dns.Db.Sanity.{soa_opts, ns_opts, cname_opts, has_ns, compared}
use xfx1_dns.Db.Sanity.Sane.{soa_opts-ok}
use xfx1_dns.Db.Sanity.Sound.{ns_opts-ok, cname_opts-ok}
use xfx1_dns.Db.Dots.{Dotted, DottedOption, KeepsDot, Targeted, compare_domain-Returns}
use xfx1_dns.Prelude.Result.{no_error-Returns, Returns, Returns-ok, Returns-bind, ok}
use xfx1_dns.Rec.Domain.{Unicode, Domain}
use xfx1_dns.Rec.Types.{RRtype, type_eq, type_eq_iff}
use xfx1_dns.Rec.Opts.{Soa, RRopts, opts_type}
use xfx1_dns.Rec.Rr.{Rr}
use mathlib.Core.Path.{subst}

-- The data of a record is of the record's type.
abbrev pub IsTyped : Rr → Type 0
IsTyped rr = rr.rrtype ≡ opts_type rr.opts

-- A record of one type, with data of that type.
abbrev pub IsOf : RRtype → Rr → Type 0
IsOf t rr = t ≡ opts_type rr.opts

pub ns_opts-Returns : (o : RRopts) → RRtype.ns ≡ opts_type o → Returns (ns_opts o)
unfolding ns_opts opts_type
ns_opts-Returns (RRopts.ns d) h = Returns-ok d
ns_opts-Returns o h = cc

pub cname_opts-Returns : (o : RRopts) → RRtype.cname ≡ opts_type o → Returns (cname_opts o)
unfolding cname_opts opts_type
cname_opts-Returns (RRopts.cname d) h = Returns-ok d
cname_opts-Returns o h = cc

pub soa_opts-Returns : (o : RRopts) → RRtype.soa ≡ opts_type o → Returns (soa_opts o)
unfolding soa_opts opts_type
soa_opts-Returns (RRopts.soa s) h = Returns-ok s
soa_opts-Returns o h = cc

-- The records of a type among typed ones.
pub All-IsOf :
    (t : RRtype) (rrs : List Rr)
    → All IsTyped rrs
    → All (IsOf t) (filter (λ rr. type_eq rr.rrtype t) rrs)
All-IsOf t [] h = tt
All-IsOf t (rr ∷ rrs) h = elim (Bool-cases (type_eq rr.rrtype t)) [
  | inl e ↦ rw e (sym ((type_eq_iff rr.rrtype t).0 e) ∙ h.0, All-IsOf t rrs h.1)
  | inr e ↦ rw e (All-IsOf t rrs h.1)
]

-- What the data of a record refers to ends in a dot.
pub ns-Dotted :
    (o : RRopts) (d : Domain) → DottedOption (additional_target o) → ns_opts o ≡ ok d → Dotted d
unfolding additional_target
ns-Dotted o d h e = subst (λ x. DottedOption (additional_target x)) (ns_opts-ok o d e) h

pub cname-Dotted :
    (o : RRopts) (d : Domain) → DottedOption (additional_target o) → cname_opts o ≡ ok d → Dotted d
unfolding additional_target
cname-Dotted o d h e = subst (λ x. DottedOption (additional_target x)) (cname_opts-ok o d e) h

-- The primary server of an SOA record ends in a dot.
abbrev pub MnameDotted : RRopts → Type 0
MnameDotted (RRopts.soa o) = Dotted o.mname
MnameDotted _ = Unit

pub mname-Dotted : (o : RRopts) (soa : Soa) → MnameDotted o → soa_opts o ≡ ok soa → Dotted soa.mname
mname-Dotted o soa h e = subst MnameDotted (soa_opts-ok o soa e) h

pub has_ns-Returns :
    ⦃u : Unicode⦄ (law : KeepsDot u) (mname : Domain) (rrs : List Rr)
    → Dotted mname
    → All (IsOf RRtype.ns) rrs
    → All Targeted rrs
    → Returns (has_ns mname rrs)
unfolding has_ns
has_ns-Returns law mname [] m h k = Returns-ok false
has_ns-Returns law mname (rr ∷ rrs) m h k =
    Returns-bind (ns_opts rr.opts) _ (ns_opts-Returns rr.opts h.0) λ d e.
      Returns-bind (compared d mname) _
        (no_error-Returns _ (compare_domain-Returns law d mname (ns-Dotted rr.opts d k.0 e) m))
        λ _ _.
          Returns-bind (has_ns mname rrs) _ (has_ns-Returns law mname rrs m h.1 k.1)
            λ rest _. Returns-ok _
