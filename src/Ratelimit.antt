-- ===== src/Ratelimit.antt =====
-- internal/ratelimit: token buckets per source prefix.
pub mod Bounds
pub mod Evict
pub mod Agree
use xfx1_dns.Prelude.Result.{Result, ok, err}
use xfx1_dns.Prelude.{
  ℕ, zero, suc, ◌+◌, ◌-◌, ◌*◌, ◌/◌, ◌%◌, ◌^◌, ◌≤◌, ◌<◌, bit_and, bit_or, ◌≡◌, refl, sym, ap, ◌∙◌,
  ◌≢◌, ◌↔◌, ◌⊎◌, inl, inr, Bool, true, false, ◌&&◌, ◌||◌, not, Option, none, some, List, [], ◌∷◌,
  ◌++◌, map, reverse, arith, ◌==◌, if◌then◌else◌, length, take, filter,
}
use xfx1_dns.Rec.Opts.{to_4, to_16}
use xfx1_dns.Prelude.Bytes.{Bytes, bytes_eq}
use xfx1_dns.Prelude.Result.{◌>>=◌}
use xfx1_dns.Prelude.{ltb}
use xfx1_dns.Prelude.{leb}

-- float64 as the limiter uses it; `seconds` is Duration.Seconds of nanoseconds.
pub record Floats : Type 1 where
  pub F : Type 0
  pub of_nat : ℕ → F
  pub add : F → F → F
  pub sub : F → F → F
  pub mul : F → F → F
  pub less : F → F → Bool
  pub less_eq : F → F → Bool
  pub seconds : ℕ → F

-- The texts of `prefixKey`, by what they are made of: different keys have different texts.
pub data Key : Type 0 where
  v4_net : ℕ → ℕ → ℕ → Key
  v6_net : Bytes → Key
  no_net : Bytes → Key

unfoldable pub key_eq : Key → Key → Bool
key_eq (v4_net a b c) (v4_net x y z) = a == x && b == y && c == z
key_eq (v6_net s) (v6_net t) = bytes_eq s t
key_eq (no_net s) (no_net t) = bytes_eq s t
key_eq _ _ = false

-- The first three bytes of an IPv4 address and the first six of an IPv6 address.
abbrev v6_key : Bytes → Bytes → Key
v6_key ip [] = no_net ip
v6_key ip (b ∷ s) = v6_net (take 6 (b ∷ s))

abbrev v4_key : Bytes → Bytes → Key
v4_key ip (a ∷ b ∷ c ∷ s) = v4_net a b c
v4_key ip _ = v6_key ip (to_16 ip)

unfoldable pub prefix_key : Bytes → Key
prefix_key ip = v4_key ip (to_4 ip)

pub data Decision : Type 0 where
  allow slip drop_query : Decision

-- ErrRateLimited and ErrTableFull
pub data RateError : Type 0 where
  rate_limited table_full : RateError

-- gcInterval in nanoseconds
abbrev pub gc_interval : ℕ
gc_interval = 60000000000

module _ (fl : Floats) where
  -- The source's integers that are not positive stand as 0 here.
  pub record Config : Type 0 where
    pub burst_size : ℕ
    pub rate_per_sec : fl.F
    pub slip_ratio : ℕ
    pub max_buckets : ℕ
    pub max_age : ℕ
    pub allowlist : List (Bytes → Bool)

  -- Times are nanoseconds.
  pub record Bucket : Type 0 where
    pub tokens : fl.F
    pub last_fill : ℕ
    pub created_at : ℕ
    pub drops : ℕ

  pub record Limiter : Type 0 where
    pub buckets : List (Key × Bucket)
    pub last_gc : ℕ

  unfoldable pub find_bucket : Key → List (Key × Bucket) → Option Bucket
  find_bucket key [] = none
  find_bucket key ((k, b) ∷ m) = if key_eq k key then some b else find_bucket key m

  -- The bucket behind the map's pointer has changed.
  unfoldable pub put_bucket : Key → Bucket → List (Key × Bucket) → List (Key × Bucket)
  put_bucket key b [] = []
  put_bucket key b ((k, old) ∷ m) =
      let rest = put_bucket key b m in if key_eq k key then (k, b) ∷ m else (k, old) ∷ rest

  unfoldable pub allowlisted : List (Bytes → Bool) → Bytes → Bool
  allowlisted [] ip = false
  allowlisted (n ∷ ns) ip = let rest = allowlisted ns ip in if n ip then true else rest

  -- sort.Slice by createdAt
  unfoldable pub insert_entry : Key × ℕ → List (Key × ℕ) → List (Key × ℕ)
  insert_entry e [] = e ∷ []
  insert_entry e (x ∷ xs) =
      let rest = insert_entry e xs in if leb e.1 x.1 then e ∷ x ∷ xs else x ∷ rest

  unfoldable pub sort_entries : List (Key × ℕ) → List (Key × ℕ)
  sort_entries [] = []
  sort_entries (e ∷ es) = insert_entry e (sort_entries es)

  abbrev pub entries : List (Key × Bucket) → List (Key × ℕ)
  entries m = map (λ (k, b). (k, b.created_at)) m

  -- delete(l.buckets, key)
  abbrev pub delete_key : Key → List (Key × Bucket) → List (Key × Bucket)
  delete_key key m = filter (λ (k, b). not (key_eq k key)) m

  unfoldable pub delete_keys : List (Key × ℕ) → List (Key × Bucket) → List (Key × Bucket)
  delete_keys [] m = m
  delete_keys (e ∷ es) m = delete_keys es (delete_key e.0 m)

  -- max(len(entries)/4, 1)
  abbrev pub to_evict : ℕ → ℕ
  to_evict n = if leb 1 (n / 4) then n / 4 else 1

  unfoldable pub force_gc : List (Key × Bucket) → List (Key × Bucket)
  force_gc m = delete_keys (take (to_evict (length m)) (sort_entries (entries m))) m

  unfoldable pub normal_gc : ℕ → ℕ → List (Key × Bucket) → List (Key × Bucket)
  normal_gc max_age now m = filter (λ (k, b). not (ltb max_age (now - b.created_at))) m

  -- float64(len) >= float64(MaxBuckets)*0.75, which is exact up to 2 ^ 51.
  abbrev pub crowded : Config → ℕ → Bool
  crowded cfg n = ltb 0 cfg.max_buckets && leb (3 * cfg.max_buckets) (4 * n)

  unfoldable pub run_gc : Config → ℕ → Limiter → Limiter
  run_gc cfg now l = record {
    buckets =
        if crowded cfg (length l.buckets)
        then force_gc l.buckets
        else normal_gc cfg.max_age now l.buckets;
    last_gc = now;
  }

  unfoldable pub maybe_gc : Config → ℕ → Limiter → Limiter
  maybe_gc cfg now l = if ltb (now - l.last_gc) gc_interval then l else run_gc cfg now l

  -- The collection at the front of `getOrCreate`.
  abbrev pub collect : Config → ℕ → Limiter → Limiter
  collect cfg now l =
      if crowded cfg (length l.buckets) then run_gc cfg now l else maybe_gc cfg now l

  abbrev pub new_bucket : Config → ℕ → Bucket
  new_bucket cfg now = record {
    tokens = fl.of_nat cfg.burst_size;
    last_fill = now;
    created_at = now;
    drops = 0;
  }

  -- A new prefix, if there is room.
  abbrev pub insert_bucket : Config → Key → ℕ → Limiter → Limiter × Option Bucket
  insert_bucket cfg key now l =
      if ltb 0 cfg.max_buckets && leb cfg.max_buckets (length l.buckets)
      then (l, none)
      else (record l { buckets = (key, new_bucket cfg now) ∷ l.buckets }, some (new_bucket cfg now))

  abbrev pub known_or_new : Config → Key → ℕ → Limiter → Option Bucket → Limiter × Option Bucket
  known_or_new cfg key now l (some b) = (l, some b)
  known_or_new cfg key now l none = insert_bucket cfg key now l

  unfoldable pub get_or_create : Config → Key → ℕ → Limiter → Limiter × Option Bucket
  get_or_create cfg key now l =
      let l' = collect cfg now l in known_or_new cfg key now l' (find_bucket key l'.buckets)

  -- The refill of `consume`.
  unfoldable pub refill : Config → ℕ → Bucket → Bucket
  refill cfg now b =
      let burst = fl.of_nat cfg.burst_size in
      let tokens = fl.add b.tokens (fl.mul (fl.seconds (now - b.last_fill)) cfg.rate_per_sec) in
      if ltb b.last_fill now
      then record b { tokens = if fl.less burst tokens then burst else tokens; last_fill = now }
      else b

  -- A token is taken if there is one.
  unfoldable pub consume : Config → ℕ → Bucket → Bucket × Bool
  consume cfg now b =
      let full = refill cfg now b in
      if fl.less_eq (fl.of_nat 1) full.tokens
      then (record full { tokens = fl.sub full.tokens (fl.of_nat 1) }, true)
      else (full, false)

  -- Behind `consume`: a query without a token counts as dropped, and each SlipRatio-th slips.
  abbrev pub decide : Config → Bucket × Bool → Bucket × Decision
  decide cfg (b, true) = (b, allow)
  decide cfg (b, false) =
      let drops = b.drops + 1 in
      (
        record b { drops = drops },
        if ltb 0 cfg.slip_ratio && drops % cfg.slip_ratio == 0 then slip else drop_query,
      )

  abbrev pub check_bucket : Config → Key → ℕ → Limiter × Option Bucket → Limiter × Decision
  check_bucket cfg key now (l, none) = (l, drop_query)
  check_bucket cfg key now (l, some b) =
      let (b', decision) = decide cfg (consume cfg now b) in
      (record l { buckets = put_bucket key b' l.buckets }, decision)

  -- `checkAt` of a UDP address; any other address is allowed.
  unfoldable pub check_at : Config → Bytes → ℕ → Limiter → Limiter × Decision
  check_at cfg ip now l =
      if allowlisted cfg.allowlist ip
      then (l, allow)
      else check_bucket cfg (prefix_key ip) now (get_or_create cfg (prefix_key ip) now l)

  -- Behind `consume` in `allowAt`: a query without a token counts as dropped.
  abbrev pub decide_error : Bucket × Bool → Bucket × Result RateError (Unit {0})
  decide_error (b, true) = (b, ok tt)
  decide_error (b, false) = (record b { drops = b.drops + 1 }, err rate_limited)

  abbrev pub allow_bucket :
      Config → Key → ℕ → Limiter × Option Bucket → Limiter × Result RateError (Unit {0})
  allow_bucket cfg key now (l, none) = (l, err table_full)
  allow_bucket cfg key now (l, some b) =
      let (b', result) = decide_error (consume cfg now b) in
      (record l { buckets = put_bucket key b' l.buckets }, result)

  -- `allowAt`, for connections over TCP.
  unfoldable pub allow_at : Config → Bytes → ℕ → Limiter → Limiter × Result RateError (Unit {0})
  allow_at cfg ip now l =
      if allowlisted cfg.allowlist ip
      then (l, ok tt)
      else allow_bucket cfg (prefix_key ip) now (get_or_create cfg (prefix_key ip) now l)

  -- `NewLimiter`: the defaults, and an empty table.
  unfoldable pub with_defaults : Config → Config
  with_defaults cfg = record cfg {
    burst_size = if cfg.burst_size == 0 then 200 else cfg.burst_size;
    rate_per_sec =
        if fl.less_eq cfg.rate_per_sec (fl.of_nat 0) then fl.of_nat 50 else cfg.rate_per_sec;
    max_age = if cfg.max_age == 0 then 300000000000 else cfg.max_age;
  }

  abbrev pub new_limiter : ℕ → Limiter
  new_limiter now = record { buckets = []; last_gc = now }

  unfoldable pub active_buckets : Limiter → ℕ
  active_buckets l = length l.buckets
