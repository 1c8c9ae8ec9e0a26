-- ===== src/Db/Lookup.antt =====
-- What the lookups in a new database find: a description by the list of its records.
use xfx1_dns.Prelude.{◌≡◌, refl, Bool, List, [], ◌∷◌, filter, any, arith}
use xfx1_dns.Prelude.Bytes.{bytes_eq, bytes_eq_iff}
use xfx1_dns.Rec.Domain.{Domain, Unicode, same_domain, to_lower}
use xfx1_dns.Rec.Domain.Order.{same_domain_lem}
use xfx1_dns.Rec.Types.{RRtype, type_eq, type_eq_iff}
use xfx1_dns.Rec.Rr.{Rr}
use xfx1_dns.Db.{new_db, lookup_by_type, lookup_by_name, name_exists}
use xfx1_dns.Db.Index.{lookup_all, has_key, lookup_all-index_onto, has_key-index_onto}

module _ {A : Type 0} where
  pub filter-cong :
      (p q : A → Bool) (xs : List A) → ((a : A) → p a ≡ q a) → filter p xs ≡ filter q xs
  filter-cong p q [] h = refl
  filter-cong p q (x ∷ xs) h = rw (h x, filter-cong p q xs h)

  pub filter-swap : (p q : A → Bool) (xs : List A) → filter p (filter q xs) ≡ filter q (filter p xs)
  filter-swap p q [] = refl
  filter-swap p q (x ∷ xs) = ground (arith, filter-swap p q xs)

module _ ⦃u : Unicode⦄ (zone : Domain) (records : List Rr) where
  -- `LookupByType` in a new database gives the records of the type whose names are equal to the
  -- queried one up to case, in the order of the zone.
  pub lookup_by_type-new_db :
      (name : Domain) (t : RRtype)
      → lookup_by_type (new_db zone records) name t
        ≡ filter
            (λ rr. bytes_eq (to_lower rr.name) (to_lower name))
            (filter (λ rr. type_eq rr.rrtype t) records)
  unfolding lookup_by_type new_db lookup_all
  lookup_by_type-new_db name t =
      rw (lookup_all-index_onto type_eq type_eq_iff (λ (rr : Rr). rr.rrtype) t records []) (
        filter-cong (λ (rr : Rr). same_domain rr.name name)
          (λ rr. bytes_eq (to_lower rr.name) (to_lower name))
          (filter (λ rr. type_eq rr.rrtype t) records) λ rr. same_domain_lem rr.name name)

  -- `LookupByName` in a new database gives the records of exactly the queried name and type, in the
  -- order of the zone.
  pub lookup_by_name-new_db :
      (name : Domain) (t : RRtype)
      → lookup_by_name (new_db zone records) name t
        ≡ filter (λ rr. type_eq rr.rrtype t) (filter (λ rr. bytes_eq rr.name name) records)
  unfolding lookup_by_name new_db lookup_all
  lookup_by_name-new_db name t =
      rw (lookup_all-index_onto bytes_eq bytes_eq_iff (λ (rr : Rr). rr.name) name records [])

  -- A name exists in a new database exactly if a record has exactly this name.
  pub name_exists-new_db :
      (name : Domain)
      → name_exists (new_db zone records) name ≡ any (λ rr. bytes_eq rr.name name) records
  unfolding name_exists new_db has_key
  name_exists-new_db name =
      has_key-index_onto bytes_eq bytes_eq_iff (λ (rr : Rr). rr.name) name records []
