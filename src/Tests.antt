-- ===== src/Tests.antt =====
-- Concrete zones, names and messages, and the theorems applied to them.
pub mod Names
pub mod Messages
pub mod Zones
pub mod Stores
pub mod Updates
pub mod Checks
pub mod Denials
pub mod Chains
use xfx1_dns.Prelude.{ℕ, ◌≤◌, ◌≡◌, ◌≢◌, refl, List, [], ◌∷◌, some, length, All, arith}
use xfx1_dns.Prelude.Bytes.{Bytes}
use xfx1_dns.Rec.Domain.{Domain, Unicode, ends_dot, domain_labels}
use xfx1_dns.Rec.Domain.Labels.{DotFree}
use xfx1_dns.Rec.Domain.Valid.{IsFqdn, IsLabel}
use xfx1_dns.Rec.Types.{RRtype}
use xfx1_dns.Rec.Opts.{RRopts}
use xfx1_dns.Rec.Rr.{Rr}

-- Names of the tests have ASCII letters only.
instance abbrev pub ascii_only : Unicode
ascii_only = record { lower = λ s. s }

-- "b."
abbrev pub apex : Domain
apex = 98 ∷ 46 ∷ []

-- "a.b."
abbrev pub host : Domain
host = 97 ∷ 46 ∷ 98 ∷ 46 ∷ []

-- "*.b."
abbrev pub star : Domain
star = 42 ∷ 46 ∷ 98 ∷ 46 ∷ []

one_byte : (c : ℕ) → c ≢ 46 → IsLabel (c ∷ [])
one_byte c h = record { nonempty = omega arith; short = omega arith; dot_free = (h, tt) }

pub apex-IsFqdn : IsFqdn apex
unfolding ends_dot domain_labels
apex-IsFqdn = record {
  ends = refl;
  labels = (one_byte 98 (λ e. absurd (omega arith)), tt);
  short = omega arith;
}

pub host-IsFqdn : IsFqdn host
unfolding ends_dot domain_labels
host-IsFqdn = record {
  ends = refl;
  labels = (one_byte 97 (λ e. absurd (omega arith)), (one_byte 98 (λ e. absurd (omega arith)), tt));
  short = omega arith;
}

-- An address of "a.b.".
abbrev pub host_address : Rr
host_address = record {
  name = host;
  rrtype = RRtype.a;
  ttl = 300;
  opts = RRopts.a (10 ∷ 0 ∷ 0 ∷ 1 ∷ []);
}

-- An address of "*.b.".
abbrev pub star_address : Rr
star_address = record {
  name = star;
  rrtype = RRtype.a;
  ttl = 60;
  opts = RRopts.a (10 ∷ 0 ∷ 0 ∷ 2 ∷ []);
}

abbrev pub zone_records : List Rr
zone_records = host_address ∷ star_address ∷ []
