-- ===== src/Ratelimit/Bounds.antt =====
-- How many buckets there are.
use xfx1_dns.Prelude.{
  ℕ, zero, suc, ◌-◌, ◌*◌, ◌≤◌, ◌<◌, ◌≡◌, refl, ap, ◌∙◌, inl, inr, Bool, true, false, not, Option,
  none, some, List, [], ◌∷◌, map, arith, if◌then◌else◌, length, take, filter, All, All-if, ltb, leb,
  Bool-cases,
}
use xfx1_dns.Ratelimit.{
  Floats, Key, key_eq, prefix_key, Decision, gc_interval, Config, Bucket, Limiter, find_bucket,
  put_bucket, allowlisted, insert_entry, sort_entries, entries, delete_key, delete_keys, to_evict,
  force_gc, normal_gc, crowded, run_gc, maybe_gc, collect, new_bucket, insert_bucket, known_or_new,
  get_or_create, consume, decide, check_at, v4_net, v6_net, no_net,
}
use xfx1_dns.Prelude.Bytes.{Bytes, bytes_eq_iff}

pub key_eq_refl : (k : Key) → key_eq k k ≡ true
unfolding key_eq
key_eq_refl (v4_net a b c) = ground arith
key_eq_refl (v6_net s) = (bytes_eq_iff s s).1 refl
key_eq_refl (no_net s) = (bytes_eq_iff s s).1 refl

length-filter {ℓ} : {A : Type ℓ} (p : A → Bool) (xs : List A) → length (filter p xs) ≤ length xs
length-filter p [] = omega arith
length-filter p (x ∷ xs) = ground (arith, length-filter p xs)

length-map {ℓ κ} :
    {A : Type ℓ} {B : Type κ} (g : A → B) (xs : List A) → length (map g xs) ≡ length xs
length-map g [] = refl
length-map g (x ∷ xs) = ap suc (length-map g xs)

module _ (fl : Floats) where
  abbrev pub Buckets : Type 0
  Buckets = List (Key × Bucket fl)

  has_bucket : Key → Buckets → Bool
  has_bucket key [] = false
  has_bucket key ((k, b) ∷ m) = if key_eq k key then true else has_bucket key m

  length-delete_key :
      (key : Key) (m : Buckets) → has_bucket key m ≡ true → length (delete_key fl key m) < length m
  unfolding has_bucket
  length-delete_key key [] h = cc
  length-delete_key key ((k, b) ∷ m) h = elim (Bool-cases (key_eq k key)) [
    | inl e ↦ rw e (omega (arith, length-filter (λ (x : Key × Bucket fl). not (key_eq x.0 key)) m))
    | inr e ↦ rw e (omega (arith, length-delete_key key m (rw e at h)))
  ]

  length-delete_keys : (es : List (Key × ℕ)) (m : Buckets) → length (delete_keys fl es m) ≤ length m
  unfolding delete_keys
  length-delete_keys [] m = omega arith
  length-delete_keys (e ∷ es) m = omega (
    arith,
    length-delete_keys es (delete_key fl e.0 m),
    length-filter (λ (x : Key × Bucket fl). not (key_eq x.0 e.0)) m,
  )

  -- Each entry stands for a bucket.
  Listed : Buckets → Key × ℕ → Type 0
  Listed m e = has_bucket e.0 m ≡ true

  All-entries :
      (whole m : Buckets)
      → ((k : Key) → has_bucket k m ≡ true → has_bucket k whole ≡ true)
      → All (Listed whole) (entries fl m)
  unfolding Listed has_bucket
  All-entries whole [] h = tt
  All-entries whole ((k, b) ∷ m) h =
      (h k (rw (key_eq_refl k)), All-entries whole m (λ j e. h j (ground (arith, e))))

  pub All-insert_entry :
      (P : Key × ℕ → Type 0) (e : Key × ℕ) (es : List (Key × ℕ))
      → P e
      → All P es
      → All P (insert_entry fl e es)
  unfolding insert_entry
  All-insert_entry P e [] h k = (h, tt)
  All-insert_entry P e (x ∷ xs) h k =
      All-if P (leb e.1 x.1) (e ∷ x ∷ xs) (x ∷ insert_entry fl e xs) (h, k)
        (k.0, All-insert_entry P e xs h k.1)

  All-sort_entries :
      (P : Key × ℕ → Type 0) (es : List (Key × ℕ)) → All P es → All P (sort_entries fl es)
  unfolding sort_entries
  All-sort_entries P [] h = tt
  All-sort_entries P (e ∷ es) h =
      All-insert_entry P e (sort_entries fl es) h.0 (All-sort_entries P es h.1)

  length-insert_entry :
      (e : Key × ℕ) (es : List (Key × ℕ)) → length (insert_entry fl e es) ≡ suc (length es)
  unfolding insert_entry
  length-insert_entry e [] = refl
  length-insert_entry e (x ∷ xs) = ground (arith, length-insert_entry e xs)

  length-sort_entries : (es : List (Key × ℕ)) → length (sort_entries fl es) ≡ length es
  unfolding sort_entries
  length-sort_entries [] = refl
  length-sort_entries (e ∷ es) =
      length-insert_entry e (sort_entries fl es) ∙ ap suc (length-sort_entries es)

  -- A forced collection takes a bucket at least.
  pub length-force_gc : (m : Buckets) → 1 ≤ length m → length (force_gc fl m) < length m
  unfolding force_gc
  length-force_gc m h =
      go (to_evict fl (length m)) (ground arith) (sort_entries fl (entries fl m))
        (length-sort_entries (entries fl m)
          ∙ length-map (λ (x : Key × Bucket fl). (x.0, x.1.created_at)) m)
        (All-sort_entries (Listed m) (entries fl m) (All-entries m m (λ k e. e)))
    where
      go :
          (n : ℕ)
          → 1 ≤ n
          → (es : List (Key × ℕ)) → length es ≡ length m
          → All (Listed m) es
          → length (delete_keys fl (take n es) m) < length m
      go zero k es e all = absurd (omega arith)
      go (suc n) k [] e all = absurd (omega arith)
      go (suc n) k (x ∷ es) e all =
          unfold delete_keys Listed in
          omega (
            arith,
            length-delete_keys (take n es) (delete_key fl x.0 m),
            length-delete_key x.0 m all.0,
          )

  length-put_bucket :
      (key : Key) (b : Bucket fl) (m : Buckets) → length (put_bucket fl key b m) ≡ length m
  unfolding put_bucket
  length-put_bucket key b [] = refl
  length-put_bucket key b ((k, old) ∷ m) = ground (arith, length-put_bucket key b m)

  module _ (cfg : Config fl) (now : ℕ) (capped : 0 < cfg.max_buckets) where
    length-normal_gc : (m : Buckets) → length (normal_gc fl cfg.max_age now m) ≤ length m
    unfolding normal_gc
    length-normal_gc m =
        length-filter (λ (x : Key × Bucket fl). not (ltb cfg.max_age (now - x.1.created_at))) m

    -- Behind the collection there is room for one more bucket.
    length-collect :
        (l : Limiter fl)
        → length l.buckets ≤ cfg.max_buckets
        → length (collect fl cfg now l).buckets < cfg.max_buckets
    unfolding run_gc maybe_gc
    length-collect l h =
        let forced = length-force_gc l.buckets in
        let aged = length-normal_gc l.buckets in
        elim (Bool-cases (crowded fl cfg (length l.buckets))) [
          | inl e ↦ rw e (omega (arith, forced (ground (arith, e))))
          | inr e ↦
              let few : 4 * length l.buckets < 3 * cfg.max_buckets = ground (arith, e, capped) in
              elim (Bool-cases (ltb (now - l.last_gc) gc_interval)) [
                | inl d ↦ rw (e, d) (omega (arith, few))
                | inr d ↦ rw (e, d) (omega (arith, few, aged))
              ]
        ]

    insert_bucket-room :
        (key : Key) (l : Limiter fl)
        → length l.buckets < cfg.max_buckets
        → insert_bucket fl cfg key now l ≡ (
          record l { buckets = (key, new_bucket fl cfg now) ∷ l.buckets },
          some (new_bucket fl cfg now),
        )
    insert_bucket-room key l h = ground arith

    -- In a table of at most MaxBuckets buckets, `getOrCreate` finds or makes a bucket, and leaves at
    -- most MaxBuckets: its error for a full table is not reached.
    pub get_or_create-some :
        (key : Key) (l : Limiter fl)
        → length l.buckets ≤ cfg.max_buckets
        → (l' : Limiter fl) × (b : Bucket fl) × (get_or_create fl cfg key now l ≡ (l', some b))
          × (length l'.buckets ≤ cfg.max_buckets)
    unfolding get_or_create
    get_or_create-some key l h = go (find_bucket fl key (collect fl cfg now l).buckets)
      where
        go :
            (o : Option (Bucket fl))
            → (l' : Limiter fl) × (b : Bucket fl) × (known_or_new fl cfg key now
                  (collect fl cfg now l)
                  o
                ≡ (l', some b))
              × (length l'.buckets ≤ cfg.max_buckets)
        go (some b) = (collect fl cfg now l, b, refl, omega (arith, length-collect l h))
        go none =
            let room = length-collect l h in
            (
              record (collect fl cfg now l) {
                buckets = (key, new_bucket fl cfg now) ∷ (collect fl cfg now l).buckets;
              },
              new_bucket fl cfg now,
              insert_bucket-room key (collect fl cfg now l) room,
              omega (arith, room),
            )

    -- A query leaves at most MaxBuckets buckets where there were at most MaxBuckets.
    pub length-check_at :
        (ip : Bytes) (l : Limiter fl)
        → length l.buckets ≤ cfg.max_buckets
        → length (check_at fl cfg ip now l).0.buckets ≤ cfg.max_buckets
    unfolding check_at
    length-check_at ip l h = elim (Bool-cases (allowlisted fl cfg.allowlist ip)) [
      | inl e ↦ rw e h
      | inr e ↦
          let (l', b, run, small) = get_or_create-some (prefix_key ip) l h in
          rw (e, run) (go l' (decide fl cfg (consume fl cfg now b)) small)
    ]
      where
        go :
            (l' : Limiter fl) (d : Bucket fl × Decision)
            → length l'.buckets ≤ cfg.max_buckets
            → length (put_bucket fl (prefix_key ip) d.0 l'.buckets) ≤ cfg.max_buckets
        go l' d k = omega (arith, length-put_bucket (prefix_key ip) d.0 l'.buckets)
