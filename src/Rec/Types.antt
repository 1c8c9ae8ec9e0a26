-- ===== src/Rec/Types.antt =====
-- internal/rec/rrtype.go, rrttl.go: record types and their wire values.
use xfx1_dns.Prelude.{
  ℕ, ◌≡◌, ◌↔◌, Bool, true, false, Option, none, some, arith, ◌==◌, if◌then◌else◌,
}
use xfx1_dns.Prelude.Bytes.{Bytes, codes, bytes_eq, bytes_eq_iff}

-- The constants; `other s` is a text `s` that is none of them.
pub data RRtype : Type 0 where
  a aaaa ns cname soa ptr mx txt srv caa ds rrsig nsec3 nsec3param dnskey : RRtype
  other : Bytes → RRtype

-- The text of each.
unfoldable pub type_text : RRtype → Bytes
type_text a = codes "A"
type_text aaaa = codes "AAAA"
type_text ns = codes "NS"
type_text cname = codes "CNAME"
type_text soa = codes "SOA"
type_text ptr = codes "PTR"
type_text mx = codes "MX"
type_text txt = codes "TXT"
type_text srv = codes "SRV"
type_text caa = codes "CAA"
type_text ds = codes "DS"
type_text rrsig = codes "RRSIG"
type_text nsec3 = codes "NSEC3"
type_text nsec3param = codes "NSEC3PARAM"
type_text dnskey = codes "DNSKEY"
type_text (other s) = s

-- RRtypeToWire
unfoldable pub to_wire : RRtype → Option ℕ
to_wire a = some 1
to_wire aaaa = some 28
to_wire ns = some 2
to_wire cname = some 5
to_wire soa = some 6
to_wire ptr = some 12
to_wire mx = some 15
to_wire txt = some 16
to_wire srv = some 33
to_wire caa = some 257
to_wire ds = some 43
to_wire rrsig = some 46
to_wire dnskey = some 48
to_wire nsec3 = some 50
to_wire nsec3param = some 51
to_wire (other s) = none

-- RRtypeFromWire: the inverse map, which `init` fills.
unfoldable pub from_wire : ℕ → Option RRtype
from_wire n =
    if n == 1
    then some a
    else if n == 28
    then some aaaa
    else if n == 2
    then some ns
    else if n == 5
    then some cname
    else if n == 6
    then some soa
    else if n == 12
    then some ptr
    else if n == 15
    then some mx
    else if n == 16
    then some txt
    else if n == 33
    then some srv
    else if n == 257
    then some caa
    else if n == 43
    then some ds
    else if n == 46
    then some rrsig
    else if n == 48
    then some dnskey
    else if n == 50
    then some nsec3
    else if n == 51
    then some nsec3param
    else none

-- Equality of two types: the constants have different wire values.
unfoldable pub type_eq : RRtype → RRtype → Bool
unfolding to_wire
type_eq (other s) (other t) = bytes_eq s t
type_eq s t = elim (to_wire s) [
  | none ↦ false
  | some m ↦ elim (to_wire t) [ none ↦ false | some n ↦ m == n ]
]

pub from_wire-to_wire : (t : RRtype) (n : ℕ) → to_wire t ≡ some n → from_wire n ≡ some t
unfolding to_wire from_wire
from_wire-to_wire (other s) n h = ground arith
from_wire-to_wire t n h = ground arith

-- The comparison of types decides equality.
pub type_eq_iff : (s t : RRtype) → (type_eq s t ≡ true) ↔ (s ≡ t)
unfolding type_eq
type_eq_iff (other s) (other t) = ground (arith, bytes_eq_iff s t)
type_eq_iff s t = ground (arith, from_wire-to_wire s, from_wire-to_wire t)

pub to_wire-from_wire : (t : RRtype) (n : ℕ) → from_wire n ≡ some t → to_wire t ≡ some n
unfolding to_wire from_wire
to_wire-from_wire t n h = ground arith

-- The two tables are inverse to one another.
pub wire_tables_inverse : (t : RRtype) (n : ℕ) → (from_wire n ≡ some t) ↔ (to_wire t ≡ some n)
wire_tables_inverse t n = (to_wire-from_wire t n, from_wire-to_wire t n)

abbrev pub default_ttl : ℕ
default_ttl = 300
