-- ===== src/Rfc2136/Handler/Refine.antt =====
-- Updates against an abstract view: a map from the names of objects to objects.
use xfx1_dns.Prelude.{
  ◌≡◌, refl, sym, ap, ◌∙◌, inl, inr, ◌&&◌, ◌||◌, not, Option, none, some, List, [], ◌∷◌, arith,
  ◌==◌, if◌then◌else◌, Bool-cases,
}
use xfx1_dns.Rfc2136.Handler.{
  Folding, equal_fold, source_label, source_label_value, Handler, name_step, rdata_step, delete_cr,
  delete_all_at_name, delete_rrset, delete_rr, record_object, add_rr, update_of_type, update_of,
  process_update, process_updates,
}
use xfx1_dns.Rfc2136.Wire.{class_in, class_none, class_any, WireRr}
use xfx1_dns.Rfc2136.Naming.{Sha256, CrNameError, cr_name}
use xfx1_dns.Rfc2136.Cluster.{Object, Client, UpdateError, has_label, Store, apply_failed}
use xfx1_dns.Rfc2136.Handler.Delete.{
  continue-ok, call-ok, without, delete_cr-find, delete_listed-find,
}
use xfx1_dns.Rec.Domain.{Unicode}
use xfx1_dns.Rec.Parse.{ParseError, parse_rdata}
use xfx1_dns.Rec.Types.{RRtype, type_text, from_wire}
use xfx1_dns.Rec.Opts.{RRopts}
use xfx1_dns.Prelude.Result.{Result, ok, err, fault}
use xfx1_dns.Prelude.Bytes.{Bytes, bytes_eq}

abbrev label : Bytes × Bytes
label = (source_label, source_label_value)

-- The abstract cluster.
abbrev pub Objects : Type 0
Objects = Bytes → Option Object

-- A change at the name that `CRName` gives.
abbrev pub at_name : Result CrNameError Bytes → (Bytes → Option Object) → Objects → Objects
at_name (ok name) new m n = if bytes_eq name n then new name else m n
at_name (err e) new m n = m n
at_name (fault x) new m n = m n

name_step-ok {ℓ} :
    {S : Type ℓ} (r : Result CrNameError Bytes) {s s' : S} {name : Bytes}
    → name_step r s ≡ (s', ok name)
    → (s ≡ s') × (r ≡ ok name)
name_step-ok (ok name) run = (cc, cc)
name_step-ok (err e) run = cc
name_step-ok (fault x) run = cc

rdata_step-ok {ℓ} :
    {S : Type ℓ} (r : Result ParseError RRopts) {s s' : S} {opts : RRopts}
    → rdata_step r s ≡ (s', ok opts)
    → (s ≡ s') × (r ≡ ok opts)
rdata_step-ok (ok opts) run = (cc, cc)
rdata_step-ok (err e) run = cc
rdata_step-ok (fault x) run = cc

module _ ⦃u : Unicode⦄ ⦃f : Folding⦄ {S : Type 0} (c : Client S) (sha : Sha256) (h : Handler) where
  -- The object for a record, if its data is parsed.
  abbrev pub object_for : RRtype → WireRr → Result ParseError RRopts → Bytes → Option Object
  object_for t rr (ok opts) name = some (record_object c sha h name rr.name t opts)
  object_for t rr (err e) name = none
  object_for t rr (fault x) name = none

  -- An update of a known type.
  unfoldable pub spec_of_type : RRtype → WireRr → Objects → Objects
  spec_of_type t rr m n =
      let cr = cr_name sha source_label_value (type_text t) rr.name rr.rdata in
      if rr.class == class_in
      then at_name cr (object_for t rr (parse_rdata t rr.rdata)) m n
      else if rr.class == class_any && rr.ttl == 0 && rr.rdlength == 0
      then without
          (λ o.
            has_label label o
            && equal_fold o.spec.name rr.name
            && equal_fold (type_text o.spec.rrtype) (type_text t))
          (m n)
      else if rr.class == class_none && rr.ttl == 0
      then at_name cr (λ _. none) m n
      else m n

  abbrev pub spec_of : Option RRtype → WireRr → Objects → Objects
  spec_of none rr m = m
  spec_of (some t) rr m = spec_of_type t rr m

  -- What one update asks for.
  unfoldable pub update_spec : WireRr → Objects → Objects
  update_spec rr m n =
      if rr.class == class_any && rr.ttl == 0 && rr.rrtype == 255 && rr.rdlength == 0
      then without (λ o. has_label label o && equal_fold o.spec.name rr.name) (m n)
      else spec_of (from_wire rr.rrtype) rr m n

  -- What a list of updates asks for, one after the other.
  unfoldable pub updates_spec : List WireRr → Objects → Objects
  updates_spec [] m = m
  updates_spec (rr ∷ rrs) m = updates_spec rrs (update_spec rr m)

  module _ (store : Store c h.namespace) where
    add_rr-find :
        (t : RRtype) (rr : WireRr) (s s' : S)
        → add_rr c sha h rr.name t rr.rdata s ≡ (s', ok tt)
        → (n : Bytes)
        → store.find s' n
          ≡ at_name
              (cr_name sha source_label_value (type_text t) rr.name rr.rdata)
              (object_for t rr (parse_rdata t rr.rdata))
              (store.find s)
              n
    unfolding add_rr
    add_rr-find t rr s s' run n =
        let cr = cr_name sha source_label_value (type_text t) rr.name rr.rdata in
        let (s1, name, named, step) = continue-ok (name_step cr s) _ run in
        let (same, e) = name_step-ok cr named in
        let (s2, opts, parsed, last) =
          continue-ok (rdata_step (parse_rdata t rr.rdata) s1) _ step in
        let (same', e') = rdata_step-ok (parse_rdata t rr.rdata) parsed in
        let o = record_object c sha h name rr.name t opts in
        let put = store.applied s2 s' o (call-ok apply_failed (c.apply s2 h.namespace o) last) n in
        rw (e, e', same ∙ same') put

    delete_rr-find :
        (rrtype fqdn rdata : Bytes) (s s' : S)
        → delete_rr c sha h fqdn rrtype rdata s ≡ (s', ok tt)
        → (n : Bytes)
        → store.find s' n
          ≡ at_name (cr_name sha source_label_value rrtype fqdn rdata) (λ _. none) (store.find s) n
    unfolding delete_rr
    delete_rr-find rrtype fqdn rdata s s' run n =
        let cr = cr_name sha source_label_value rrtype fqdn rdata in
        let (s1, name, named, last) = continue-ok (name_step cr s) (delete_cr c sha h) run in
        let (same, e) = name_step-ok cr named in
        rw (e, same) (delete_cr-find c sha h store name s1 s' last n)

    delete_rrset-find :
        (rrtype fqdn : Bytes) (s s' : S)
        → delete_rrset c sha h fqdn rrtype s ≡ (s', ok tt)
        → (n : Bytes)
        → store.find s' n
          ≡ without
              (λ o.
                has_label label o
                && equal_fold o.spec.name fqdn
                && equal_fold (type_text o.spec.rrtype) rrtype)
              (store.find s n)
    unfolding delete_rrset
    delete_rrset-find rrtype fqdn s s' run n =
        delete_listed-find c sha h store _ s s' run n ∙ either (store.find s n)
      where
        either :
            (m : Option Object)
            → without
                (λ o.
                  has_label label o
                  && not (
                      not (equal_fold o.spec.name fqdn)
                      || not (equal_fold (type_text o.spec.rrtype) rrtype)))
                m
              ≡ without
                  (λ o.
                    has_label label o
                    && equal_fold o.spec.name fqdn
                    && equal_fold (type_text o.spec.rrtype) rrtype)
                  m
        either none = refl
        either (some o) = ground arith

    delete_all_at_name-find :
        (fqdn : Bytes) (s s' : S)
        → delete_all_at_name c sha h fqdn s ≡ (s', ok tt)
        → (n : Bytes)
        → store.find s' n
          ≡ without (λ o. has_label label o && equal_fold o.spec.name fqdn) (store.find s n)
    unfolding delete_all_at_name
    delete_all_at_name-find fqdn s s' run n =
        delete_listed-find c sha h store _ s s' run n ∙ either (store.find s n)
      where
        either :
            (m : Option Object)
            → without (λ o. has_label label o && not (not (equal_fold o.spec.name fqdn))) m
              ≡ without (λ o. has_label label o && equal_fold o.spec.name fqdn) m
        either none = refl
        either (some o) = ground arith

    unchanged :
        (s s' : S)
        → ◌≡◌ {A = S × Result UpdateError (Unit {0})} (s, ok tt) (s', ok tt)
        → (n : Bytes) → store.find s' n ≡ store.find s n
    unchanged s s' run n =
        ap (λ (p : S × Result UpdateError (Unit {0})). store.find p.0 n) (sym run)

    update_of_type-find :
        (t : RRtype) (rr : WireRr) (s s' : S)
        → update_of_type c sha h t rr s ≡ (s', ok tt)
        → (n : Bytes) → store.find s' n ≡ spec_of_type t rr (store.find s) n
    unfolding update_of_type spec_of_type
    update_of_type-find t rr s s' run n = elim (Bool-cases (rr.class == class_in)) [
      | inl e ↦ rw e (add_rr-find t rr s s' (rw e at run) n)
      | inr e ↦ elim (Bool-cases (rr.class == class_any && rr.ttl == 0 && rr.rdlength == 0)) [
        | inl d ↦ rw (e, d) (delete_rrset-find (type_text t) rr.name s s' (rw (e, d) at run) n)
        | inr d ↦ elim (Bool-cases (rr.class == class_none && rr.ttl == 0)) [
          | inl k ↦
              rw (e, d, k)
                (delete_rr-find (type_text t) rr.name rr.rdata s s' (rw (e, d, k) at run) n)
          | inr k ↦ rw (e, d, k) (unchanged s s' (rw (e, d, k) at run) n)
        ]
      ]
    ]

    update_of-find :
        (t : Option RRtype) (rr : WireRr) (s s' : S)
        → update_of c sha h t rr s ≡ (s', ok tt)
        → (n : Bytes) → store.find s' n ≡ spec_of t rr (store.find s) n
    update_of-find none rr s s' run n = unchanged s s' run n
    update_of-find (some t) rr s s' run n = update_of_type-find t rr s s' run n

    process_update-find :
        (rr : WireRr) (s s' : S)
        → process_update c sha h rr s ≡ (s', ok tt)
        → (n : Bytes) → store.find s' n ≡ update_spec rr (store.find s) n
    unfolding process_update update_spec
    process_update-find rr s s' run n =
        elim (Bool-cases
          (rr.class == class_any && rr.ttl == 0 && rr.rrtype == 255 && rr.rdlength == 0)) [
            | inl e ↦ rw e (delete_all_at_name-find rr.name s s' (rw e at run) n)
            | inr e ↦ rw e (update_of-find (from_wire rr.rrtype) rr s s' (rw e at run) n)
          ]

    -- A list of updates that ends without an error has changed the objects of the namespace as the
    -- list asks for, one update after the other: an added record lies under its name, and of the
    -- objects with the gateway's label exactly those that a deletion means are gone; all else stays.
    pub process_updates-find :
        (rrs : List WireRr) (s s' : S)
        → process_updates c sha h rrs s ≡ (s', ok tt)
        → store.find s' ≡ updates_spec rrs (store.find s)
    unfolding process_updates updates_spec
    process_updates-find [] s s' run =
        ap (λ (p : S × Result UpdateError (Unit {0})). store.find p.0) (sym run)
    process_updates-find (rr ∷ rrs) s s' run =
        let (s1, _, first_step, rest) =
          continue-ok (process_update c sha h rr s) (λ _. process_updates c sha h rrs) run in
        process_updates-find rrs s1 s' rest
        ∙ ap (updates_spec rrs) (λ i n. process_update-find rr s s1 first_step n i)
