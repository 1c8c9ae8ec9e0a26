-- ===== src/Rfc2136/Handler.antt =====
-- internal/rfc2136/handler.go, operations.go: updates as changes of the objects in a cluster.
pub mod Safe
pub mod Delete
pub mod Refine
use xfx1_dns.Prelude.{
  ℕ, zero, suc, ◌+◌, ◌-◌, ◌*◌, ◌/◌, ◌%◌, ◌^◌, ◌≤◌, ◌<◌, bit_and, bit_or, ◌≡◌, refl, sym, ap, ◌∙◌,
  ◌≢◌, ◌↔◌, ◌⊎◌, inl, inr, Bool, true, false, ◌&&◌, ◌||◌, not, Option, none, some, List, [], ◌∷◌,
  ◌++◌, map, reverse, arith, ◌==◌, if◌then◌else◌, length, any,
}
use xfx1_dns.Rfc2136.Wire.{class_in, class_none, class_any, WireRr, Message, strip_dot}
use xfx1_dns.Rfc2136.Naming.{Sha256, CrNameError, cr_name}
use xfx1_dns.Rfc2136.Cluster.{
  Object, Client, UpdateError, Run, continue, and_then, pure_step, name_overflow, apply_failed,
  list_failed, delete_failed, bad_rdata,
}
use xfx1_dns.Rec.Domain.{Unicode, Domain, lower_byte}
use xfx1_dns.Rec.Parse.{ParseError, parse_rdata}
use xfx1_dns.Rec.Types.{RRtype, type_text, from_wire}
use xfx1_dns.Rec.Opts.{RRopts}
use xfx1_dns.Prelude.Result.{Result, ok, err, fault, ◌>>=◌}
use xfx1_dns.Prelude.Bytes.{Bytes, codes, bytes_eq}
use xfx1_dns.Prelude.{ltb}
use xfx1_dns.Prelude.{leb}

-- `strings.EqualFold` beyond ASCII goes by the tables of package unicode, which are not in the
-- repository.
pub record Folding : Type 0 where
  pub fold : Bytes → Bytes → Bool

-- strings.EqualFold: byte by byte where both texts are ASCII.
unfoldable pub equal_fold : ⦃f : Folding⦄ → Bytes → Bytes → Bool
equal_fold ⦃f⦄ s t =
    if any (λ c. leb 128 c) s || any (λ c. leb 128 c) t
    then f.fold s t
    else bytes_eq (map lower_byte s) (map lower_byte t)

abbrev pub source_label : Bytes
source_label = codes "dns.xfx1.de/source"

abbrev pub source_label_value : Bytes
source_label_value = codes "rfc2136"

abbrev pub rcode_no_error : ℕ
rcode_no_error = 0

abbrev pub rcode_serv_fail : ℕ
rcode_serv_fail = 2

abbrev pub rcode_notimp : ℕ
rcode_notimp = 4

abbrev pub rcode_refused : ℕ
rcode_refused = 5

abbrev pub rcode_not_zone : ℕ
rcode_not_zone = 10

-- Handler, without its logger and its counters.
pub record Handler : Type 0 where
  pub namespace : Bytes
  pub zone : Domain

-- The errors of `CRName` and `ParseRdata` as errors of a step.
abbrev pub name_step {ℓ} : {S : Type ℓ} → Result CrNameError Bytes → Run S Bytes
name_step (ok name) = pure_step (ok name)
name_step (err e) = pure_step (err name_overflow)
name_step (fault x) = pure_step (fault x)

abbrev pub rdata_step {ℓ} : {S : Type ℓ} → Result ParseError RRopts → Run S RRopts
rdata_step (ok opts) = pure_step (ok opts)
rdata_step (err e) = pure_step (err (bad_rdata e))
rdata_step (fault x) = pure_step (fault x)

-- What a call of the client does, with its error.
abbrev pub call {ℓ} : {S : Type ℓ} → UpdateError → S × Bool → S × Result UpdateError (Unit {0})
call e (s, true) = (s, ok tt)
call e (s, false) = (s, err e)

module _ ⦃u : Unicode⦄ ⦃f : Folding⦄ {S : Type 0} (c : Client S) (sha : Sha256) (h : Handler) where
  unfoldable pub delete_cr : Bytes → Run S (Unit {0})
  delete_cr name s = call delete_failed (c.delete s h.namespace name)

  -- The loop over listed objects: those that `keep` passes over stay.
  unfoldable pub delete_each : (Object → Bool) → List Object → Run S (Unit {0})
  delete_each keep [] s = (s, ok tt)
  delete_each keep (o ∷ os) s =
      let rest = delete_each keep os in
      if keep o then rest s else continue (delete_cr o.name s) (λ _. rest)

  abbrev pub delete_from : (Object → Bool) → Option (List Object) → Run S (Unit {0})
  delete_from keep none s = (s, err list_failed)
  delete_from keep (some os) s = delete_each keep os s

  unfoldable pub delete_listed : (Object → Bool) → Run S (Unit {0})
  delete_listed keep s =
      delete_from keep (c.query s h.namespace (source_label, source_label_value)) s

  unfoldable pub delete_all_at_name : Bytes → Run S (Unit {0})
  delete_all_at_name fqdn = delete_listed (λ o. not (equal_fold o.spec.name fqdn))

  unfoldable pub delete_rrset : Bytes → Bytes → Run S (Unit {0})
  delete_rrset fqdn rrtype =
      delete_listed
        λ o. not (equal_fold o.spec.name fqdn) || not (equal_fold (type_text o.spec.rrtype) rrtype)

  unfoldable pub delete_rr : Bytes → Bytes → Bytes → Run S (Unit {0})
  delete_rr fqdn rrtype rdata =
      and_then (name_step (cr_name sha source_label_value rrtype fqdn rdata)) delete_cr

  -- The object that `addRR` puts into the cluster.
  abbrev pub record_object : Bytes → Bytes → RRtype → RRopts → Object
  record_object name fqdn rrtype opts = record {
    name = name;
    namespace = h.namespace;
    labels = (source_label, source_label_value) ∷ [];
    spec = record { name = fqdn; rrtype = rrtype; ttl = 60; opts = opts };
  }

  unfoldable pub add_rr : Bytes → RRtype → Bytes → Run S (Unit {0})
  add_rr fqdn rrtype rdata =
      and_then (name_step (cr_name sha source_label_value (type_text rrtype) fqdn rdata)) λ name.
        and_then (rdata_step (parse_rdata rrtype rdata))
          λ opts s. call apply_failed (c.apply s h.namespace (record_object name fqdn rrtype opts))

  -- `processUpdate` behind the look at the type.
  unfoldable pub update_of_type : RRtype → WireRr → Run S (Unit {0})
  update_of_type rrtype rr =
      if rr.class == class_in
      then add_rr rr.name rrtype rr.rdata
      else if rr.class == class_any && rr.ttl == 0 && rr.rdlength == 0
      then delete_rrset rr.name (type_text rrtype)
      else if rr.class == class_none && rr.ttl == 0
      then delete_rr rr.name (type_text rrtype) rr.rdata
      else pure_step (ok tt)

  -- An unknown type is skipped.
  abbrev pub update_of : Option RRtype → WireRr → Run S (Unit {0})
  update_of none rr = pure_step (ok tt)
  update_of (some rrtype) rr = update_of_type rrtype rr

  unfoldable pub process_update : WireRr → Run S (Unit {0})
  process_update rr =
      if rr.class == class_any && rr.ttl == 0 && rr.rrtype == 255 && rr.rdlength == 0
      then delete_all_at_name rr.name
      else update_of (from_wire rr.rrtype) rr

  unfoldable pub process_updates : List WireRr → Run S (Unit {0})
  process_updates [] s = (s, ok tt)
  process_updates (rr ∷ rrs) s = continue (process_update rr s) (λ _. process_updates rrs)

  -- Both names without a trailing dot, up to case.
  unfoldable pub matches_zone : Bytes → Bool
  matches_zone name = equal_fold (strip_dot name) (strip_dot h.zone)

  abbrev pub zone_mismatch : Option WireRr → Bool
  zone_mismatch none = false
  zone_mismatch (some z) = not (matches_zone z.name)

  -- The rcode for the end of the updates.
  abbrev pub rcode_of : S × Result UpdateError (Unit {0}) → S × Result UpdateError ℕ
  rcode_of (s, ok _) = (s, ok rcode_no_error)
  rcode_of (s, err e) = (s, ok rcode_serv_fail)
  rcode_of (s, fault x) = (s, fault x)

  unfoldable pub handle_update : Message → Run S ℕ
  handle_update msg s =
      if ltb 0 (length msg.prerequisites)
      then (s, ok rcode_notimp)
      else if zone_mismatch msg.zone
      then (s, ok rcode_not_zone)
      else rcode_of (process_updates msg.updates s)
