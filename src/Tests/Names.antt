-- ===== src/Tests/Names.antt =====
-- Names, types and record data.
use xfx1_dns.Prelude.{◌+◌, ◌≡◌, ◌↔◌, ◌⊎◌, refl, [], ◌∷◌, length, arith}
use xfx1_dns.Prelude.Bytes.{bytes_eq}
use xfx1_dns.Prelude.Result.{ok}
use xfx1_dns.Rec.Domain.{
  split_dots, compare_labels, Domain, less, ends_dot, domain_labels, write, validate_fqdn,
  new_domain, compare_domain, same_domain, to_lower,
}
use xfx1_dns.Rec.Domain.Labels.{length-write}
use xfx1_dns.Rec.Domain.Valid.{IsFqdn, validate_fqdn_iff}
use xfx1_dns.Rec.Domain.Order.{same_domain_lem}
use xfx1_dns.Rec.Opts.{RRopts, opts_type, payload}
use xfx1_dns.Rec.Parse.{parse_rdata}
use xfx1_dns.Rec.Parse.RoundTrip.{parse_rdata-payload}
use xfx1_dns.Tests.{ascii_only, apex, host, host-IsFqdn}

-- "A.B."
abbrev shouted : Domain
shouted = 65 ∷ 46 ∷ 66 ∷ 46 ∷ []

length-write_example : length (write host) ≡ length host + 1
length-write_example = length-write host (unfold ends_dot in refl)

validate_fqdn_iff_example : (validate_fqdn host ≡ ok tt) ↔ ((host ≡ 46 ∷ []) ⊎ IsFqdn host)
validate_fqdn_iff_example = validate_fqdn_iff host

shouted-host : new_domain shouted ≡ ok host
unfolding new_domain validate_fqdn to_lower ends_dot bytes_eq split_dots
shouted-host = refl

same_domain_lem_example : same_domain shouted host ≡ bytes_eq (to_lower shouted) (to_lower host)
same_domain_lem_example = same_domain_lem shouted host

apex_below_host : compare_domain apex host ≡ ok less
unfolding compare_domain domain_labels to_lower bytes_eq compare_labels
apex_below_host = refl

parse_rdata-payload_example :
    parse_rdata (opts_type (RRopts.mx 10 host)) (payload (RRopts.mx 10 host))
    ≡ ok (RRopts.mx 10 host)
parse_rdata-payload_example = parse_rdata-payload (RRopts.mx 10 host) (omega arith, host-IsFqdn)
