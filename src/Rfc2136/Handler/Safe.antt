-- ===== src/Rfc2136/Handler/Safe.antt =====
-- No update makes the handler panic.
use xfx1_dns.Prelude.{
  ℕ, ◌≤◌, ◌≡◌, refl, inl, inr, Bool, true, false, ◌&&◌, Option, none, some, List, [], ◌∷◌, arith,
  ◌==◌, if◌then◌else◌, length, ltb, Bool-cases,
}
use xfx1_dns.Rfc2136.Handler.{
  Folding, source_label_value, rcode_notimp, rcode_not_zone, Handler, name_step, rdata_step, call,
  delete_cr, delete_each, delete_from, delete_listed, delete_all_at_name, delete_rrset, delete_rr,
  add_rr, update_of_type, update_of, process_update, process_updates, zone_mismatch, rcode_of,
  handle_update, rcode_no_error, rcode_serv_fail,
}
use xfx1_dns.Rfc2136.Wire.{class_in, class_none, class_any, WireRr, Message}
use xfx1_dns.Rfc2136.Naming.{max_cr_name_len, Sha256, CrNameError, cr_name, limited}
use xfx1_dns.Rfc2136.Cluster.{
  Object, Client, UpdateError, Run, continue, apply_failed, delete_failed,
}
use xfx1_dns.Rec.Domain.{Unicode}
use xfx1_dns.Rec.Parse.{ParseError, parse_rdata}
use xfx1_dns.Rec.Types.{RRtype, type_text, from_wire}
use xfx1_dns.Rec.Opts.{RRopts}
use xfx1_dns.Rec.Parse.Safe.{parse_rdata-Returns}
use xfx1_dns.Prelude.Result.{Result, Returns, Returns-ok, Returns-err, Returns-if, ok, err, fault}
use xfx1_dns.Prelude.Bytes.{Bytes}

continue-Returns {ℓ κ μ} :
    {S : Type ℓ} {A : Type κ} {B : Type μ} (m : S × Result UpdateError A) (f : A → Run S B)
    → Returns m.1
    → ((a : A) (s : S) → Returns (f a s).1)
    → Returns (continue m f).1
continue-Returns (s, ok a) f h k = k a s
continue-Returns (s, err e) f h k = Returns-err e
continue-Returns (s, fault x) f h k = absurd h.holds

call-Returns {ℓ} : {S : Type ℓ} (e : UpdateError) (p : S × Bool) → Returns (call e p).1
call-Returns e (s, true) = Returns-ok _
call-Returns e (s, false) = Returns-err e

limited-Returns : (name : Bytes) → Returns (limited name)
limited-Returns name =
    Returns-if (ltb max_cr_name_len (length name)) _ _ (λ _. Returns-err _) (λ _. Returns-ok _)

cr_name-Returns :
    ⦃u : Unicode⦄ (sha : Sha256) (source rrtype fqdn rdata : Bytes)
    → Returns (cr_name sha source rrtype fqdn rdata)
unfolding cr_name
cr_name-Returns sha source rrtype fqdn rdata = limited-Returns _

name_step-Returns {ℓ} :
    {S : Type ℓ} (r : Result CrNameError Bytes) (s : S) → Returns r → Returns (name_step r s).1
name_step-Returns (ok name) s h = Returns-ok name
name_step-Returns (err e) s h = Returns-err _
name_step-Returns (fault x) s h = absurd h.holds

rdata_step-Returns {ℓ} :
    {S : Type ℓ} (r : Result ParseError RRopts) (s : S) → Returns r → Returns (rdata_step r s).1
rdata_step-Returns (ok opts) s h = Returns-ok opts
rdata_step-Returns (err e) s h = Returns-err _
rdata_step-Returns (fault x) s h = absurd h.holds

if-Returns {ℓ κ} :
    {S : Type ℓ} {A : Type κ} (b : Bool) (m m' : Run S A) (s : S)
    → Returns (m s).1
    → Returns (m' s).1
    → Returns ((if b then m else m') s).1
if-Returns true m m' s h k = h
if-Returns false m m' s h k = k

outcome-if-Returns {ℓ κ} :
    {S : Type ℓ} {A : Type κ} (b : Bool) (p q : S × Result UpdateError A)
    → Returns p.1
    → Returns q.1
    → Returns (if b then p else q).1
outcome-if-Returns true p q h k = h
outcome-if-Returns false p q h k = k

module _ ⦃u : Unicode⦄ ⦃f : Folding⦄ {S : Type 0} (c : Client S) (sha : Sha256) (h : Handler) where
  delete_cr-Returns : (name : Bytes) (s : S) → Returns (delete_cr c sha h name s).1
  unfolding delete_cr
  delete_cr-Returns name s = call-Returns delete_failed (c.delete s h.namespace name)

  delete_each-Returns :
      (keep : Object → Bool) (os : List Object) (s : S) → Returns (delete_each c sha h keep os s).1
  unfolding delete_each
  delete_each-Returns keep [] s = Returns-ok tt
  delete_each-Returns keep (o ∷ os) s =
      outcome-if-Returns (keep o) (delete_each c sha h keep os s)
        (continue (delete_cr c sha h o.name s) (λ _. delete_each c sha h keep os))
        (delete_each-Returns keep os s)
        (continue-Returns (delete_cr c sha h o.name s) (λ _. delete_each c sha h keep os)
          (delete_cr-Returns o.name s) (λ _ s'. delete_each-Returns keep os s'))

  delete_from-Returns :
      (keep : Object → Bool) (l : Option (List Object)) (s : S)
      → Returns (delete_from c sha h keep l s).1
  delete_from-Returns keep none s = Returns-err _
  delete_from-Returns keep (some os) s = delete_each-Returns keep os s

  delete_listed-Returns : (keep : Object → Bool) (s : S) → Returns (delete_listed c sha h keep s).1
  unfolding delete_listed
  delete_listed-Returns keep s = delete_from-Returns keep _ s

  delete_rr-Returns :
      (fqdn rrtype rdata : Bytes) (s : S) → Returns (delete_rr c sha h fqdn rrtype rdata s).1
  unfolding delete_rr
  delete_rr-Returns fqdn rrtype rdata s =
      let name = cr_name sha source_label_value rrtype fqdn rdata in
      continue-Returns (name_step name s) (delete_cr c sha h)
        (name_step-Returns name s (cr_name-Returns sha source_label_value rrtype fqdn rdata))
        delete_cr-Returns

  add_rr-Returns :
      (fqdn : Bytes) (t : RRtype) (rdata : Bytes) (s : S)
      → Returns (add_rr c sha h fqdn t rdata s).1
  unfolding add_rr
  add_rr-Returns fqdn t rdata s =
      let name = cr_name sha source_label_value (type_text t) fqdn rdata in
      continue-Returns (name_step name s) _
        (name_step-Returns name s (cr_name-Returns sha source_label_value (type_text t) fqdn rdata))
        λ cr s'.
          continue-Returns (rdata_step (parse_rdata t rdata) s') _
            (rdata_step-Returns (parse_rdata t rdata) s' (parse_rdata-Returns t rdata))
            λ opts s''. call-Returns apply_failed (c.apply s'' h.namespace _)

  update_of_type-Returns :
      (t : RRtype) (rr : WireRr) (s : S) → Returns (update_of_type c sha h t rr s).1
  unfolding update_of_type delete_rrset
  update_of_type-Returns t rr s =
      if-Returns (rr.class == class_in) _ _ s (add_rr-Returns rr.name t rr.rdata s) (
        if-Returns (rr.class == class_any && rr.ttl == 0 && rr.rdlength == 0) _ _ s
          (delete_listed-Returns _ s)
          (if-Returns (rr.class == class_none && rr.ttl == 0) _ _ s
            (delete_rr-Returns rr.name (type_text t) rr.rdata s) (Returns-ok tt)))

  update_of-Returns :
      (t : Option RRtype) (rr : WireRr) (s : S) → Returns (update_of c sha h t rr s).1
  update_of-Returns none rr s = Returns-ok tt
  update_of-Returns (some t) rr s = update_of_type-Returns t rr s

  process_update-Returns : (rr : WireRr) (s : S) → Returns (process_update c sha h rr s).1
  unfolding process_update delete_all_at_name
  process_update-Returns rr s =
      if-Returns (rr.class == class_any && rr.ttl == 0 && rr.rrtype == 255 && rr.rdlength == 0) _ _
        s (delete_listed-Returns _ s) (update_of-Returns (from_wire rr.rrtype) rr s)

  process_updates-Returns : (rrs : List WireRr) (s : S) → Returns (process_updates c sha h rrs s).1
  unfolding process_updates
  process_updates-Returns [] s = Returns-ok tt
  process_updates-Returns (rr ∷ rrs) s =
      continue-Returns (process_update c sha h rr s) (λ _. process_updates c sha h rrs)
        (process_update-Returns rr s) (λ _ s'. process_updates-Returns rrs s')

  -- `HandleUpdate` returns on every message, with an rcode that fits its four bits.
  pub handle_update-ok :
      (msg : Message) (s : S)
      → (s' : S) × (rcode : ℕ) × (handle_update c sha h msg s ≡ (s', ok rcode)) × (rcode ≤ 10)
  unfolding handle_update
  handle_update-ok msg s = elim (Bool-cases (ltb 0 (length msg.prerequisites))) [
    | inl e ↦ (s, rcode_notimp, rw e, omega arith)
    | inr e ↦ elim (Bool-cases (zone_mismatch c sha h msg.zone)) [
      | inl d ↦ (s, rcode_not_zone, rw (e, d), omega arith)
      | inr d ↦
          rw (e, d)
            (go (process_updates c sha h msg.updates s) (process_updates-Returns msg.updates s))
    ]
  ]
    where
      go :
          (m : S × Result UpdateError (Unit {0}))
          → Returns m.1
          → (s' : S) × (rcode : ℕ) × (rcode_of c sha h m ≡ (s', ok rcode)) × (rcode ≤ 10)
      go (s', ok _) k = (s', rcode_no_error, refl, omega arith)
      go (s', err e) k = (s', rcode_serv_fail, refl, omega arith)
      go (s', fault x) k = absurd k.holds
