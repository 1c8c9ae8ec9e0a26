-- ===== src/Rfc2136/Handler/Delete.antt =====
-- What the steps of the handler that end well do to the objects of its namespace.
use xfx1_dns.Prelude.{
  ◌≡◌, refl, sym, ap, ◌∙◌, inl, inr, Bool, true, false, ◌&&◌, not, Option, none, some, List, [],
  ◌∷◌, arith, if◌then◌else◌, any, Bool-cases,
}
use xfx1_dns.Rfc2136.Handler.{
  Folding, source_label, source_label_value, Handler, call, delete_cr, delete_each, delete_from,
  delete_listed,
}
use xfx1_dns.Rfc2136.Naming.{Sha256}
use xfx1_dns.Rfc2136.Cluster.{
  Object, Client, UpdateError, Run, continue, has_label, Store, delete_failed,
}
use xfx1_dns.Rec.Domain.{Unicode}
use xfx1_dns.Prelude.Result.{Result, ok, err, fault}
use xfx1_dns.Prelude.Bytes.{Bytes, bytes_eq}

pub continue-ok {ℓ κ μ} :
    {S : Type ℓ} {A : Type κ} {B : Type μ} (m : S × Result UpdateError A) (f : A → Run S B) {s' : S}
    {b : B}
    → continue m f ≡ (s', ok b)
    → (s : S) × (a : A) × (m ≡ (s, ok a)) × (f a s ≡ (s', ok b))
continue-ok (s, ok a) f run = (s, a, refl, run)
continue-ok (s, err e) f run = cc
continue-ok (s, fault x) f run = cc

pub call-ok {ℓ} :
    {S : Type ℓ} (e : UpdateError) (p : S × Bool) {s' : S} → call e p ≡ (s', ok tt) → p ≡ (s', true)
call-ok {S = S} e (s, true) run = ap (λ (p : S × Result UpdateError (Unit {0})). (p.0, true)) run
call-ok e (s, false) run = cc

-- An object that is gone from under its name, if `gone` holds of it.
abbrev pub without : (Object → Bool) → Option Object → Option Object
without gone none = none
without gone (some o) = if gone o then none else some o

module _ ⦃u : Unicode⦄ ⦃f : Folding⦄ {S : Type 0} (c : Client S) (sha : Sha256) (h : Handler)
    (store : Store c h.namespace) where
  abbrev found : S → Bytes → Option Object
  found = store.find

  pub delete_cr-find :
      (name : Bytes) (s s' : S)
      → delete_cr c sha h name s ≡ (s', ok tt)
      → (n : Bytes) → found s' n ≡ (if bytes_eq name n then none else found s n)
  unfolding delete_cr
  delete_cr-find name s s' run =
      store.deleted s s' name (call-ok delete_failed (c.delete s h.namespace name) run)

  -- The loop takes out the names of the objects that are not passed over.
  delete_each-find :
      (keep : Object → Bool) (os : List Object) (s s' : S)
      → delete_each c sha h keep os s ≡ (s', ok tt)
      → (n : Bytes)
      → found s' n ≡ (if any (λ o. not (keep o) && bytes_eq o.name n) os then none else found s n)
  unfolding delete_each
  delete_each-find keep [] s s' run n =
      ap (λ (p : S × Result UpdateError (Unit {0})). found p.0 n) (sym run)
  delete_each-find keep (o ∷ os) s s' run n = elim (Bool-cases (keep o)) [
    | inl e ↦ rw e (delete_each-find keep os s s' (rw e at run) n)
    | inr e ↦
        let (s1, _, gone, rest) =
          continue-ok (delete_cr c sha h o.name s) (λ _. delete_each c sha h keep os)
            (rw e at run) in
        let here = delete_cr-find o.name s s1 gone n in
        let later = delete_each-find keep os s1 s' rest n in ground (arith, here, later)
  ]

  pub delete_listed-find :
      (keep : Object → Bool) (s s' : S)
      → delete_listed c sha h keep s ≡ (s', ok tt)
      → (n : Bytes)
      → found s' n
        ≡ without (λ o. has_label (source_label, source_label_value) o && not (keep o)) (found s n)
  unfolding delete_listed
  delete_listed-find keep s s' run n =
      go (c.query s h.namespace (source_label, source_label_value)) refl run
    where
      go :
          (l : Option (List Object))
          → c.query s h.namespace (source_label, source_label_value) ≡ l
          → delete_from c sha h keep l s ≡ (s', ok tt)
          → found s' n
            ≡ without
                (λ o. has_label (source_label, source_label_value) o && not (keep o))
                (found s n)
      go none e r = cc
      go (some os) e r =
          delete_each-find keep os s s' r n
          ∙ rw (store.queried s (source_label, source_label_value) os e (λ o. not (keep o)) n)
              (either (found s n))
        where
          either :
              (o : Option Object)
              → (if elim o [
                | none ↦ false
                | some x ↦ has_label (source_label, source_label_value) x && not (keep x)
              ]
                  then none
                  else o)
                ≡ without (λ x. has_label (source_label, source_label_value) x && not (keep x)) o
          either none = refl
          either (some x) = refl
