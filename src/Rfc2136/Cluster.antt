-- ===== src/Rfc2136/Cluster.antt =====
-- internal/k8s/client/interface.go as internal/rfc2136 uses it: objects in a cluster.
use xfx1_dns.Prelude.{◌≡◌, Bool, true, false, ◌&&◌, Option, none, some, List, if◌then◌else◌, any}
use xfx1_dns.Rec.Parse.{ParseError}
use xfx1_dns.Rec.Rr.{Rr}
use xfx1_dns.Prelude.Result.{Result, ok, err, fault}
use xfx1_dns.Prelude.Bytes.{Bytes, bytes_eq}

-- base.Object of a record: its metadata and its spec.
pub record Object : Type 0 where
  pub name : Bytes
  pub namespace : Bytes
  pub labels : List (Bytes × Bytes)
  pub spec : Rr

-- The calls of K8sClient: the cluster after the call, and whether it went well. `query` gives the
-- objects of a namespace with a label; the error ErrNoResults is the empty list. The parameters
-- of a call come from ParamsFor, which knows the type of records.
pub record Client (S : Type 0) : Type 0 where
  pub apply : S → Bytes → Object → S × Bool
  pub delete : S → Bytes → Bytes → S × Bool
  pub query : S → Bytes → Bytes × Bytes → Option (List Object)

pub data UpdateError : Type 0 where
  name_overflow apply_failed list_failed delete_failed : UpdateError
  bad_rdata : ParseError → UpdateError

-- A handler's step: from a cluster to a cluster, with an error or a value.
abbrev pub Run {ℓ κ} : Type ℓ → Type κ → Type (ℓ ⊔ κ)
Run S A = S → S × Result UpdateError A

abbrev pub continue {ℓ κ μ} :
    {S : Type ℓ} {A : Type κ} {B : Type μ}
    → S × Result UpdateError A
    → (A → Run S B)
    → S × Result UpdateError B
continue (s, ok a) f = f a s
continue (s, err e) f = (s, err e)
continue (s, fault x) f = (s, fault x)

-- The second step starts where the first has left the cluster; an error ends the run.
abbrev pub and_then {ℓ κ μ} :
    {S : Type ℓ} {A : Type κ} {B : Type μ} → Run S A → (A → Run S B) → Run S B
and_then m f s = continue (m s) f

-- A computation that leaves the cluster alone.
abbrev pub pure_step {ℓ κ} : {S : Type ℓ} {A : Type κ} → Result UpdateError A → Run S A
pure_step r s = (s, r)

-- Whether an object has a label.
unfoldable pub has_label : Bytes × Bytes → Object → Bool
has_label (key, value) o = any (λ (k, v). bytes_eq k key && bytes_eq v value) o.labels

-- What the API server promises: seen as a map from names to objects, `apply` puts an object under
-- its name, `delete` takes the name out, and `query` lists the objects with a label, each once.
pub record Store {S : Type 0} (c : Client S) (ns : Bytes) : Type 0 where
  pub find : S → Bytes → Option Object
  pub applied :
      (s s' : S) (o : Object)
      → c.apply s ns o ≡ (s', true)
      → (n : Bytes) → find s' n ≡ (if bytes_eq o.name n then some o else find s n)
  pub deleted :
      (s s' : S) (name : Bytes)
      → c.delete s ns name ≡ (s', true)
      → (n : Bytes) → find s' n ≡ (if bytes_eq name n then none else find s n)
  pub queried :
      (s : S) (label : Bytes × Bytes) (os : List Object)
      → c.query s ns label ≡ some os
      → (test : Object → Bool) (n : Bytes)
      → any (λ o. test o && bytes_eq o.name n) os
        ≡ elim (find s n) [ none ↦ false | some o ↦ has_label label o && test o ]
