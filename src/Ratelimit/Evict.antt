-- ===== src/Ratelimit/Evict.antt =====
-- Which buckets a forced collection takes.
use xfx1_dns.Prelude.{
  ℕ, zero, suc, ◌≤◌, ◌≡◌, refl, ◌⊎◌, inl, inr, Bool, true, false, not, List, [], ◌∷◌, arith, length,
  take, drop, filter, any, All, All-append, take-append-drop, Bool-cases, leb, leb→le, leb→gt,
}
use xfx1_dns.Ratelimit.{
  Floats, Key, key_eq, Bucket, insert_entry, sort_entries, entries, delete_key, delete_keys,
  to_evict, force_gc,
}
use xfx1_dns.Ratelimit.Bounds.{key_eq_refl, Buckets, All-insert_entry}
use mathlib.Core.Path.{subst}

-- In the order of their creation.
abbrev Sorted : List (Key × ℕ) → Type 0
Sorted [] = Unit
Sorted (e ∷ es) = All (λ x. e.1 ≤ x.1) es × Sorted es

All-zip {ℓ} :
    {A : Type ℓ} (P Q : A → Type 0) (xs : List A) → All P xs → All Q xs → All (λ x. P x × Q x) xs
All-zip P Q [] h k = tt
All-zip P Q (x ∷ xs) h k = ((h.0, k.0), All-zip P Q xs h.1 k.1)

All-weaken {ℓ} :
    {A : Type ℓ} (P Q : A → Type 0) (xs : List A) → ((x : A) → P x → Q x) → All P xs → All Q xs
All-weaken P Q [] f h = tt
All-weaken P Q (x ∷ xs) f h = (f x h.0, All-weaken P Q xs f h.1)

All-always {ℓ} : {A : Type ℓ} (P : A → Type 0) (xs : List A) → ((x : A) → P x) → All P xs
All-always P [] f = tt
All-always P (x ∷ xs) f = (f x, All-always P xs f)

All-drop {ℓ} : {A : Type ℓ} (P : A → Type 0) (n : ℕ) (xs : List A) → All P xs → All P (drop n xs)
All-drop P zero xs h = h
All-drop P (suc n) [] h = tt
All-drop P (suc n) (x ∷ xs) h = All-drop P n xs h.1

-- Of a sorted list, each of the first is as old as each of the others.
front-oldest :
    (n : ℕ) (es : List (Key × ℕ))
    → Sorted es
    → All (λ x. All (λ e. e.1 ≤ x.1) (take n es)) (drop n es)
front-oldest zero es h =
    All-always (λ (x : Key × ℕ). All (λ (y : Key × ℕ). y.1 ≤ x.1) []) es (λ x. tt)
front-oldest (suc n) [] h = tt
front-oldest (suc n) (e ∷ es) h =
    All-zip (λ x. e.1 ≤ x.1) (λ x. All (λ y. y.1 ≤ x.1) (take n es)) (drop n es)
      (All-drop (λ x. e.1 ≤ x.1) n es h.0) (front-oldest n es h.1)

-- The keys of a list are among its keys.
among :
    (whole es : List (Key × ℕ))
    → ((k : Key) → any (λ y. key_eq k y.0) es ≡ true → any (λ y. key_eq k y.0) whole ≡ true)
    → All (λ e. any (λ y. key_eq e.0 y.0) whole ≡ true) es
among whole [] h = tt
among whole (e ∷ es) h =
    (h e.0 (rw (key_eq_refl e.0)), among whole es (λ k r. h k (ground (arith, r))))

module _ (fl : Floats) where
  Sorted-insert_entry :
      (e : Key × ℕ) (es : List (Key × ℕ)) → Sorted es → Sorted (insert_entry fl e es)
  unfolding insert_entry
  Sorted-insert_entry e [] h = (tt, tt)
  Sorted-insert_entry e (x ∷ xs) h = elim (Bool-cases (leb e.1 x.1)) [
    | inl k ↦
        let first_le = leb→le e.1 x.1 k in
        rw k (
          (
            first_le,
            All-weaken (λ y. x.1 ≤ y.1) (λ y. e.1 ≤ y.1) xs (λ y l. omega (arith, first_le, l)) h.0,
          ),
          h,
        )
    | inr k ↦
        let later = leb→gt e.1 x.1 k in
        rw k (
          All-insert_entry fl (λ y. x.1 ≤ y.1) e xs (omega (arith, later)) h.0,
          Sorted-insert_entry e xs h.1,
        )
  ]

  Sorted-sort_entries : (es : List (Key × ℕ)) → Sorted (sort_entries fl es)
  unfolding sort_entries
  Sorted-sort_entries [] = tt
  Sorted-sort_entries (e ∷ es) = Sorted-insert_entry e (sort_entries fl es) (Sorted-sort_entries es)

  -- What holds of a sorted list's entries holds of the list's.
  All-of_insert_entry :
      (P : Key × ℕ → Type 0) (e : Key × ℕ) (es : List (Key × ℕ))
      → All P (insert_entry fl e es)
      → P e × All P es
  unfolding insert_entry
  All-of_insert_entry P e [] h = (h.0, tt)
  All-of_insert_entry P e (x ∷ xs) h = elim (Bool-cases (leb e.1 x.1)) [
    | inl k ↦ rw k at h
    | inr k ↦
        let all = rw k at h in
        let rest = All-of_insert_entry P e xs all.1 in (rest.0, (all.0, rest.1))
  ]

  All-of_sort_entries :
      (P : Key × ℕ → Type 0) (es : List (Key × ℕ)) → All P (sort_entries fl es) → All P es
  unfolding sort_entries
  All-of_sort_entries P [] h = tt
  All-of_sort_entries P (e ∷ es) h =
      let (here, rest) = All-of_insert_entry P e (sort_entries fl es) h in
      (here, All-of_sort_entries P es rest)

  -- Evicted, or at least as young as the evicted.
  Settled : List (Key × ℕ) → Key × ℕ → Type 0
  Settled taken e = All (λ y. y.1 ≤ e.1) taken ⊎ (any (λ y. key_eq e.0 y.0) taken ≡ true)

  All-Settled : (n : ℕ) (es : List (Key × ℕ)) → Sorted es → All (Settled (take n es)) es
  unfolding Settled
  All-Settled n es h =
      let taken = take n es in
      subst (All (Settled taken)) (take-append-drop n es) (
        All-append (Settled taken) taken (drop n es)
          (All-weaken (λ e. any (λ y. key_eq e.0 y.0) taken ≡ true) (Settled taken) taken (λ e. inr)
            (among taken taken (λ k r. r)))
          (All-weaken (λ e. All (λ y. y.1 ≤ e.1) taken) (Settled taken) (drop n es) (λ e. inl)
            (front-oldest n es h)))

  All-of_entries :
      (P : Key × ℕ → Type 0) (m : Buckets fl)
      → All P (entries fl m)
      → All (λ x. P (x.0, x.1.created_at)) m
  All-of_entries P [] h = tt
  All-of_entries P (x ∷ m) h = (h.0, All-of_entries P m h.1)

  All-filter-kept :
      (p : Key × Bucket fl → Bool) (P : Key × Bucket fl → Type 0) (m : Buckets fl)
      → All P m
      → All (λ x. P x × (p x ≡ true)) (filter p m)
  All-filter-kept p P [] h = tt
  All-filter-kept p P (x ∷ m) h = elim (Bool-cases (p x)) [
    | inl e ↦ rw e ((h.0, e), All-filter-kept p P m h.1)
    | inr e ↦ rw e (All-filter-kept p P m h.1)
  ]

  -- No bucket that is left has a deleted key.
  All-delete_keys :
      (P : Key × Bucket fl → Type 0) (es : List (Key × ℕ)) (m : Buckets fl)
      → All P m
      → All (λ x. P x × (any (λ y. key_eq x.0 y.0) es ≡ false)) (delete_keys fl es m)
  unfolding delete_keys
  All-delete_keys P [] m h = All-weaken P (λ x. P x × (false ≡ false)) m (λ x p. (p, refl)) h
  All-delete_keys P (e ∷ es) m h =
      let kept = All-filter-kept (λ x. not (key_eq x.0 e.0)) P m h in
      let rest =
        All-delete_keys (λ x. P x × (not (key_eq x.0 e.0) ≡ true)) es (delete_key fl e.0 m) kept in
      All-weaken
        (λ x. (P x × (not (key_eq x.0 e.0) ≡ true)) × (any (λ y. key_eq x.0 y.0) es ≡ false))
        (λ x. P x × (any (λ y. key_eq x.0 y.0) (e ∷ es) ≡ false))
        (delete_keys fl es (delete_key fl e.0 m)) (λ x q. (q.0.0, ground (arith, q.0.1, q.1))) rest

  -- The entries that a forced collection evicts.
  abbrev pub evicted : Buckets fl → List (Key × ℕ)
  evicted m = take (to_evict fl (length m)) (sort_entries fl (entries fl m))

  pub force_gc-oldest :
      (m : Buckets fl) → All (λ x. All (λ e. e.1 ≤ x.1.created_at) (evicted m)) (force_gc fl m)
  unfolding force_gc
  force_gc-oldest m =
      let taken = evicted m in
      let sorted = sort_entries fl (entries fl m) in
      let settled = All-of_entries (Settled taken) m (
        All-of_sort_entries (Settled taken) (entries fl m)
          (All-Settled (to_evict fl (length m)) sorted (Sorted-sort_entries (entries fl m)))) in
      All-weaken
        (λ x. Settled taken (x.0, x.1.created_at) × (any (λ y. key_eq x.0 y.0) taken ≡ false))
        (λ x. All (λ e. e.1 ≤ x.1.created_at) taken) (delete_keys fl taken m)
        (λ x q. old taken x q.0 q.1)
        (All-delete_keys (λ x. Settled taken (x.0, x.1.created_at)) taken m settled)
    where
      old :
          (taken : List (Key × ℕ)) (x : Key × Bucket fl)
          → Settled taken (x.0, x.1.created_at)
          → any (λ y. key_eq x.0 y.0) taken ≡ false
          → All (λ e. e.1 ≤ x.1.created_at) taken
      old taken x s e = unfold Settled in elim s [ inl a ↦ a | inr b ↦ cc ]
