-- ===== src/Tests/Checks.antt =====
-- Concrete zones for the checks and buckets for the rate limiter, and the theorems applied to them.
use xfx1_dns.Tests.{ascii_only, apex, host, host_address}
use xfx1_dns.Db.Sanity.Safe.{IsCheckable, sanity_checks-Returns}
use xfx1_dns.Db.{additional_target, compare_owners}
use xfx1_dns.Prelude.{
  ℕ, ◌+◌, ◌-◌, ◌*◌, ◌/◌, ◌≤◌, ◌≡◌, refl, some, List, [], ◌∷◌, arith, length, All, ltb, leb,
}
use xfx1_dns.Db.{new_db, lookup_by_type, has_suffix, concat_slices, all_records}
use xfx1_dns.Ratelimit.{Floats, Config, Bucket, Limiter, force_gc, get_or_create, check_at, v4_net}
use xfx1_dns.Db.Index.{lookup_all, append_at, index_onto}
use xfx1_dns.Db.Sanity.{
  soa_opts, ns_opts, cname_opts, cname_compatible_rrtype, is_empty, has_ns, soa_candidates,
  check_soa_count, check_soa, check_ns_addresses, check_apex, check_owners, check_alone, check_self,
  follow, check_chains, sanity_checks,
}
use xfx1_dns.Db.Sanity.Sane.{Sane, sanity_checks-Sane}
use xfx1_dns.Ratelimit.Evict.{evicted, force_gc-oldest}
use xfx1_dns.Ratelimit.Bounds.{get_or_create-some, length-check_at}
use xfx1_dns.Rec.Domain.{
  Domain, lower_byte, to_lower, ends_dot, split_dots, domain_labels, compare_bytes,
  common_label_count, compare_labels, compare_domain, same_domain,
}
use xfx1_dns.Rec.Types.{to_wire, type_eq}
use xfx1_dns.Rec.Opts.{RRopts, opts_type}
use xfx1_dns.Rec.Rr.{Rr, new_rr}
use xfx1_dns.Prelude.Result.{Returns, ok}
use xfx1_dns.Prelude.Bytes.{bytes_eq}

-- "c.b."
abbrev alias : Domain
alias = 99 ∷ 46 ∷ 98 ∷ 46 ∷ []

-- A zone "b." with the name server "a.b." and an alias of it.
abbrev good_zone : List Rr
good_zone =
    new_rr apex (
      RRopts.soa (record {
        mname = host;
        rname = host;
        serial = 1;
        refresh = 60;
        retry = 60;
        expire = 60;
        minimum = 60;
      }))
    ∷ new_rr apex (RRopts.ns host)
    ∷ host_address
    ∷ new_rr alias (RRopts.cname host)
    ∷ []

good_zone-run : sanity_checks (new_db apex good_zone) ≡ ok tt
unfolding sanity_checks new_db new_rr opts_type index_onto append_at lookup_all type_eq to_wire
    bytes_eq all_records concat_slices check_soa_count soa_candidates lookup_by_type is_empty
    soa_opts check_soa has_ns ns_opts same_domain compare_domain to_lower lower_byte ends_dot
    domain_labels split_dots common_label_count compare_labels compare_bytes check_ns_addresses
    check_apex check_owners check_alone cname_compatible_rrtype check_self cname_opts check_chains
    has_suffix follow compare_owners
good_zone-run = refl

sanity_checks-Sane_example : Sane (new_db apex good_zone)
sanity_checks-Sane_example = sanity_checks-Sane (new_db apex good_zone) good_zone-run

-- Two aliases of one another.
abbrev cyclic_zone : List Rr
cyclic_zone = new_rr alias (RRopts.cname host) ∷ new_rr host (RRopts.cname alias) ∷ []

cyclic_zone-IsCheckable : IsCheckable apex cyclic_zone
unfolding new_rr opts_type additional_target ends_dot
cyclic_zone-IsCheckable = record {
  typed = (refl, (refl, tt));
  apex = refl;
  named = (refl, (refl, tt));
  targeted = (refl, (refl, tt));
  mnames = (tt, (tt, tt));
}

sanity_checks-Returns_example : Returns (sanity_checks (new_db apex cyclic_zone))
sanity_checks-Returns_example =
    sanity_checks-Returns apex cyclic_zone cyclic_zone-IsCheckable (λ s h. h)

-- Natural numbers in place of floating-point ones; seconds are counted whole.
abbrev whole_numbers : Floats
whole_numbers = record {
  F = ℕ;
  of_nat = λ n. n;
  add = λ a b. a + b;
  sub = λ a b. a - b;
  mul = λ a b. a * b;
  less = ltb;
  less_eq = leb;
  seconds = λ n. n / 1000000000;
}

abbrev small_config : Config whole_numbers
small_config = record {
  burst_size = 2;
  rate_per_sec = 1;
  slip_ratio = 2;
  max_buckets = 2;
  max_age = 300000000000;
  allowlist = [];
}

abbrev bucket_of : ℕ → Bucket whole_numbers
bucket_of created = record { tokens = 0; last_fill = created; created_at = created; drops = 0 }

-- The table is full.
abbrev full_table : Limiter whole_numbers
full_table = record {
  buckets = (v4_net 10 0 0, bucket_of 5) ∷ (v4_net 10 0 1, bucket_of 3) ∷ [];
  last_gc = 0;
}

get_or_create-some_example :
    (l' : Limiter whole_numbers) × (b : Bucket whole_numbers) × (get_or_create whole_numbers
        small_config
        (v4_net 10 0 2)
        9
        full_table
      ≡ (l', some b))
    × (length l'.buckets ≤ 2)
get_or_create-some_example =
    get_or_create-some whole_numbers small_config 9 (omega arith) (v4_net 10 0 2) full_table
      (omega arith)

length-check_at_example :
    length (check_at whole_numbers small_config (10 ∷ 0 ∷ 2 ∷ 7 ∷ []) 9 full_table).0.buckets ≤ 2
length-check_at_example =
    length-check_at whole_numbers small_config 9 (omega arith) (10 ∷ 0 ∷ 2 ∷ 7 ∷ []) full_table
      (omega arith)

force_gc-oldest_example :
    All
      (λ x. All (λ e. e.1 ≤ x.1.created_at) (evicted whole_numbers full_table.buckets))
      (force_gc whole_numbers full_table.buckets)
force_gc-oldest_example = force_gc-oldest whole_numbers full_table.buckets
