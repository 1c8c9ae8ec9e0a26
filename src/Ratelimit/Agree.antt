-- ===== src/Ratelimit/Agree.antt =====
-- `Check` and `Allow` decide alike.
use xfx1_dns.Prelude.{
  ℕ, ◌≡◌, refl, inl, inr, Bool, true, false, Option, none, some, arith, Bool-cases,
}
use xfx1_dns.Ratelimit.{
  Floats, Key, prefix_key, Decision, RateError, Config, Bucket, Limiter, put_bucket, allowlisted,
  get_or_create, consume, decide, check_bucket, check_at, decide_error, allow_bucket, allow_at,
  allow,
}
use xfx1_dns.Prelude.Result.{Result, ok}
use xfx1_dns.Prelude.Bytes.{Bytes}

abbrev is_allowed : Decision → Bool
is_allowed allow = true
is_allowed _ = false

abbrev is_ok : Result RateError (Unit {0}) → Bool
is_ok (ok _) = true
is_ok _ = false

module _ (fl : Floats) (cfg : Config fl) where
  check_bucket-allow_bucket :
      (key : Key) (now : ℕ) (p : Limiter fl × Option (Bucket fl))
      → ((check_bucket fl cfg key now p).0 ≡ (allow_bucket fl cfg key now p).0)
        × (is_allowed (check_bucket fl cfg key now p).1 ≡ is_ok (allow_bucket fl cfg key now p).1)
  check_bucket-allow_bucket key now (l, none) = (refl, refl)
  check_bucket-allow_bucket key now (l, some b) = go (consume fl cfg now b)
    where
      go :
          (r : Bucket fl × Bool)
          → ((record l { buckets = put_bucket fl key (decide fl cfg r).0 l.buckets })
              ≡ (record l { buckets = put_bucket fl key (decide_error fl r).0 l.buckets }))
            × (is_allowed (decide fl cfg r).1 ≡ is_ok (decide_error fl r).1)
      go (b', true) = (refl, refl)
      go (b', false) = (refl, ground arith)

  -- For the same address, time and table, `Check` allows a query exactly if `Allow` gives no error,
  -- and both leave the same table.
  pub check_at-allow_at :
      (ip : Bytes) (now : ℕ) (l : Limiter fl)
      → ((check_at fl cfg ip now l).0 ≡ (allow_at fl cfg ip now l).0)
        × (is_allowed (check_at fl cfg ip now l).1 ≡ is_ok (allow_at fl cfg ip now l).1)
  unfolding check_at allow_at
  check_at-allow_at ip now l = elim (Bool-cases (allowlisted fl cfg.allowlist ip)) [
    | inl e ↦ rw e (refl, refl)
    | inr e ↦
        rw e (
          check_bucket-allow_bucket (prefix_key ip) now
            (get_or_create fl cfg (prefix_key ip) now l))
  ]
