-- ===== src/Tests/Stores.antt =====
-- A cluster in memory: a list of the objects of one namespace.
use xfx1_dns.Prelude.{
  ◌≡◌, refl, sym, ap, ◌∙◌, inl, inr, Bool, true, false, ◌&&◌, not, Option, none, some, List, [],
  ◌∷◌, arith, if◌then◌else◌, filter, any, Bool-cases,
}
use xfx1_dns.Rfc2136.Cluster.{Object, Client, has_label, Store}
use xfx1_dns.Prelude.Bytes.{Bytes, bytes_eq, bytes_eq_iff}

abbrev pub Memory : Type 0
Memory = List Object

lookup : Memory → Bytes → Option Object
lookup [] n = none
lookup (o ∷ s) n = if bytes_eq o.name n then some o else lookup s n

-- The objects with a label, one for each name.
unfoldable pub listing : Bytes × Bytes → Memory → Memory
listing l [] = []
listing l (o ∷ s) =
    let rest = filter (λ x. not (bytes_eq x.name o.name)) (listing l s) in
    if has_label l o then o ∷ rest else rest

abbrev pub memory_client : Client Memory
memory_client = record {
  apply = λ s ns o. (o ∷ s, true);
  delete = λ s ns name. (filter (λ o. not (bytes_eq o.name name)) s, true);
  query = λ s ns l. some (listing l s);
}

named : (Object → Bool) → Bytes → Object → Bool
named test n o = test o && bytes_eq o.name n

-- Of objects with other names, none has the name.
any-others :
    (test : Object → Bool) (n : Bytes) (s : Memory)
    → any (named test n) (filter (λ x. not (bytes_eq x.name n)) s) ≡ false
unfolding named
any-others test n [] = refl
any-others test n (x ∷ s) = ground (arith, any-others test n s)

any-filter :
    (test : Object → Bool) (n m : Bytes) (s : Memory)
    → bytes_eq m n ≡ false
    → any (named test n) (filter (λ x. not (bytes_eq x.name m)) s) ≡ any (named test n) s
unfolding named
any-filter test n m [] h = refl
any-filter test n m (x ∷ s) h = elim (Bool-cases (bytes_eq x.name m)) [
  | inl e ↦
      let same : bytes_eq x.name n ≡ false =
        ap (λ y. bytes_eq y n) ((bytes_eq_iff x.name m).0 e) ∙ h in
      ground (arith, e, same, any-filter test n m s h)
  | inr e ↦ ground (arith, e, any-filter test n m s h)
]

any-listing :
    (l : Bytes × Bytes) (test : Object → Bool) (n : Bytes) (s : Memory)
    → any (named test n) (listing l s)
      ≡ elim (lookup s n) [ none ↦ false | some o ↦ has_label l o && test o ]
unfolding listing lookup named
any-listing l test n [] = refl
any-listing l test n (o ∷ s) =
    let others = any-others test o.name (listing l s) in
    elim (Bool-cases (bytes_eq o.name n)) [
      | inl e ↦
          let same : o.name ≡ n = (bytes_eq_iff o.name n).0 e in
          let none_left : any (named test n)
                (filter (λ x. not (bytes_eq x.name o.name)) (listing l s))
              ≡ false =
            rw same (any-others test n (listing l s)) in
          ground (arith, e, none_left)
      | inr e ↦
          let rest = any-filter test n o.name (listing l s) e in
          ground (arith, e, rest, any-listing l test n s)
    ]

lookup-filter :
    (name n : Bytes) (s : Memory)
    → lookup (filter (λ o. not (bytes_eq o.name name)) s) n
      ≡ (if bytes_eq name n then none else lookup s n)
unfolding lookup
lookup-filter name n [] = ground arith
lookup-filter name n (o ∷ s) = ground (
  arith,
  bytes_eq_iff o.name name,
  bytes_eq_iff o.name n,
  bytes_eq_iff name n,
  lookup-filter name n s,
)

pub memory_store : (ns : Bytes) → Store memory_client ns
unfolding lookup named
memory_store ns = record {
  find = lookup;
  applied = λ s s' o run n. ap (λ (p : Memory × Bool). lookup p.0 n) (sym run);
  deleted = λ s s' name run n.
      ap (λ (p : Memory × Bool). lookup p.0 n) (sym run) ∙ lookup-filter name n s;
  queried = λ s l os run test n.
      let same : listing l s ≡ os = cc in
      ap (any (named test n)) (sym same) ∙ any-listing l test n s;
}
