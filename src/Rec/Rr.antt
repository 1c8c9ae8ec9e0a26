-- ===== src/Rec/Rr.antt =====
-- internal/rec/rr.go: resource records and their wire form.
use xfx1_dns.Prelude.{ℕ, ◌++◌, none, some, length}
use xfx1_dns.Prelude.Bytes.{Bytes, be16, be32}
use xfx1_dns.Prelude.Result.{Result, ok, err}
use xfx1_dns.Rec.Domain.{Domain, Unicode, write}
use xfx1_dns.Rec.Types.{RRtype, to_wire, default_ttl}
use xfx1_dns.Rec.Opts.{RRopts, opts_type, payload}

pub record Rr : Type 0 where
  pub name : Domain
  pub rrtype : RRtype
  pub ttl : ℕ
  pub opts : RRopts

unfoldable pub new_rr : Domain → RRopts → Rr
new_rr name opts = record { name = name; rrtype = opts_type opts; ttl = default_ttl; opts = opts }

pub data WriteError : Type 0 where
  unknown_rrtype : RRtype → WriteError

-- RR.BinaryWrite: what it appends to the buffer. The class is always IN, 1.
unfoldable pub binary_write : ⦃u : Unicode⦄ → Rr → Result WriteError Bytes
binary_write rr = elim (to_wire rr.rrtype) [
  | none ↦ err (unknown_rrtype rr.rrtype)
  | some wire_type ↦
      let rdata = payload rr.opts in
      ok (
        write rr.name
        ++ (be16 wire_type ++ (be16 1 ++ (be32 rr.ttl ++ (be16 (length rdata) ++ rdata)))))
]
