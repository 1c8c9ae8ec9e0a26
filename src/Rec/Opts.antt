-- ===== src/Rec/Opts.antt =====
-- internal/rec/rropts.go: record data and its wire form.
use xfx1_dns.Prelude.{
  ℕ, zero, suc, ◌-◌, ◌/◌, ◌%◌, ◌^◌, ◌&&◌, bit_or, List, [], ◌∷◌, ◌++◌, length, get_elem?, set, take,
  drop, replicate, leb, ltb, ◌==◌, none, some, if◌then◌else◌,
}
use xfx1_dns.Prelude.Bytes.{Bytes, bytes_eq, be16, be32}
use xfx1_dns.Rec.Domain.{Domain, Unicode, to_lower, write}
use xfx1_dns.Rec.Types.{RRtype}

pub record Soa : Type 0 where
  pub mname : Domain
  pub rname : Domain
  pub serial : ℕ
  pub refresh : ℕ
  pub retry : ℕ
  pub expire : ℕ
  pub minimum : ℕ

pub record Srv : Type 0 where
  pub priority : ℕ
  pub weight : ℕ
  pub port : ℕ
  pub target : Domain

pub record Rrsig : Type 0 where
  pub type_covered : ℕ
  pub algorithm : ℕ
  pub labels : ℕ
  pub orig_ttl : ℕ
  pub expiration : ℕ
  pub inception : ℕ
  pub key_tag : ℕ
  pub signer_name : Bytes
  pub signature : Bytes

pub record Nsec3 : Type 0 where
  pub hash_algorithm : ℕ
  pub flags : ℕ
  pub iterations : ℕ
  pub salt : Bytes
  pub next_hash : Bytes
  pub types : List ℕ

-- The implementations of the interface RRopts. An address is a net.IP: its bytes.
pub data RRopts : Type 0 where
  a : Bytes → RRopts
  aaaa : Bytes → RRopts
  ns : Domain → RRopts
  cname : Domain → RRopts
  soa : Soa → RRopts
  ptr : Domain → RRopts
  mx : ℕ → Domain → RRopts
  txt : Bytes → RRopts
  srv : Srv → RRopts
  caa : ℕ → Bytes → Bytes → RRopts
  rrsig : Rrsig → RRopts
  dnskey : ℕ → ℕ → ℕ → Bytes → RRopts
  ds : ℕ → ℕ → ℕ → Bytes → RRopts
  nsec3 : Nsec3 → RRopts
  nsec3param : ℕ → ℕ → ℕ → Bytes → RRopts

-- The method RRtype of each.
unfoldable pub opts_type : RRopts → RRtype
opts_type (a ip) = RRtype.a
opts_type (aaaa ip) = RRtype.aaaa
opts_type (ns d) = RRtype.ns
opts_type (cname d) = RRtype.cname
opts_type (soa o) = RRtype.soa
opts_type (ptr d) = RRtype.ptr
opts_type (mx p d) = RRtype.mx
opts_type (txt s) = RRtype.txt
opts_type (srv o) = RRtype.srv
opts_type (caa f t v) = RRtype.caa
opts_type (rrsig o) = RRtype.rrsig
opts_type (dnskey f p g k) = RRtype.dnskey
opts_type (ds k g t d) = RRtype.ds
opts_type (nsec3 o) = RRtype.nsec3
opts_type (nsec3param h f i s) = RRtype.nsec3param

-- ::ffff:0:0/96, the prefix of an IPv4 address in 16 bytes.
abbrev pub v4_prefix : Bytes
v4_prefix = 0 ∷ 0 ∷ 0 ∷ 0 ∷ 0 ∷ 0 ∷ 0 ∷ 0 ∷ 0 ∷ 0 ∷ 255 ∷ 255 ∷ []

-- net.IP.To4 and To16; the empty list is nil.
unfoldable pub to_4 : Bytes → Bytes
to_4 ip =
    if length ip == 4
    then ip
    else if length ip == 16 && bytes_eq (take 12 ip) v4_prefix
    then drop 12 ip
    else []

unfoldable pub to_16 : Bytes → Bytes
to_16 ip = if length ip == 4 then v4_prefix ++ ip else if length ip == 16 then ip else []

-- The next chunk of a TXT payload: at most 255 bytes.
unfoldable pub chunk_of : Bytes → Bytes
chunk_of s = if ltb 255 (length s) then take 255 s else s

-- The loop of the TXT payload. Each round takes a byte at least, so `length s` rounds are enough.
unfoldable pub txt_chunks : ℕ → Bytes → Bytes
unfolding chunk_of
txt_chunks zero s = []
txt_chunks (suc fuel) [] = []
txt_chunks (suc fuel) (c ∷ s) =
    let chunk = chunk_of (c ∷ s) in
    (length chunk % 256) ∷ (chunk ++ txt_chunks fuel (drop (length chunk) (c ∷ s)))

unfoldable pub txt_payload : Bytes → Bytes
unfolding txt_chunks
txt_payload s = txt_chunks (length s) s

-- bitmap[t/8] |= 1 << (7 - t%8), for the low byte t of a type.
abbrev pub set_bit : Bytes → ℕ → Bytes
set_bit bitmap t = elim (get_elem? bitmap (t / 8)) [
  | none ↦ bitmap
  | some b ↦ set bitmap (t / 8) (bit_or b (2 ^ (7 - t % 8)))
]

-- The types of the window at the front of the list, with what is left.
unfoldable pub window_bitmap : ℕ → Bytes → List ℕ → Bytes × List ℕ
window_bitmap window bitmap [] = (bitmap, [])
window_bitmap window bitmap (t ∷ ts) =
    let rest = window_bitmap window (set_bit bitmap (t % 256)) ts in
    if t / 256 == window then rest else (bitmap, t ∷ ts)

-- bitmap[:bitmapLen] behind the loop that cuts zero bytes off the end.
unfoldable pub trim_zeros : Bytes → Bytes
trim_zeros [] = []
trim_zeros (b ∷ r) =
    let rest = trim_zeros r in
    elim rest [ [] ↦ (if b == 0 then [] else b ∷ []) | c ∷ s ↦ b ∷ c ∷ s ]

-- The outer loop: each round takes a type at least, so `length types` rounds are enough.
unfoldable pub type_windows : ℕ → List ℕ → Bytes
unfolding window_bitmap trim_zeros
type_windows zero types = []
type_windows (suc fuel) [] = []
type_windows (suc fuel) (t ∷ ts) =
    let (bitmap, rest) = window_bitmap (t / 256) (replicate 32 0) (t ∷ ts) in
    let bits = trim_zeros bitmap in
    (t / 256 % 256) ∷ (length bits % 256) ∷ (bits ++ type_windows fuel rest)

unfoldable pub type_bitmap : List ℕ → Bytes
unfolding type_windows
type_bitmap types = type_windows (length types) types

-- slices.Sort
unfoldable pub insert_sorted : ℕ → List ℕ → List ℕ
insert_sorted t [] = t ∷ []
insert_sorted t (u ∷ us) = let rest = insert_sorted t us in if leb t u then t ∷ u ∷ us else u ∷ rest

unfoldable pub sort : List ℕ → List ℕ
unfolding insert_sorted
sort [] = []
sort (t ∷ ts) = insert_sorted t (sort ts)

-- The signer's name is written in lower case.
unfoldable pub rrsig_payload : ⦃u : Unicode⦄ → Rrsig → Bytes
unfolding to_lower
rrsig_payload o =
    be16 o.type_covered
    ++ (o.algorithm
        ∷ o.labels
        ∷ (be32 o.orig_ttl
            ++ (be32 o.expiration
                ++ (be32 o.inception
                    ++ (be16 o.key_tag ++ (write (to_lower o.signer_name) ++ o.signature))))))

unfoldable pub nsec3_payload : Nsec3 → Bytes
unfolding type_bitmap sort
nsec3_payload o =
    o.hash_algorithm
    ∷ o.flags
    ∷ (be16 o.iterations
        ++ ((length o.salt % 256)
            ∷ (o.salt
                ++ ((length o.next_hash % 256) ∷ (o.next_hash ++ type_bitmap (sort o.types))))))

-- The method Payload of each; `uint8(len(x))` and `WriteByte` keep the low byte.
unfoldable pub payload : ⦃u : Unicode⦄ → RRopts → Bytes
unfolding to_4 to_16 txt_payload
payload (a ip) = to_4 ip
payload (aaaa ip) = to_16 ip
payload (ns d) = write d
payload (cname d) = write d
payload (soa o) =
    write o.mname
    ++ (write o.rname
        ++ (be32 o.serial
            ++ (be32 o.refresh ++ (be32 o.retry ++ (be32 o.expire ++ be32 o.minimum)))))
payload (ptr d) = write d
payload (mx preference d) = be16 preference ++ write d
payload (txt s) = txt_payload s
payload (srv o) = be16 o.priority ++ (be16 o.weight ++ (be16 o.port ++ write o.target))
payload (caa flags tag value) = flags ∷ (length tag % 256) ∷ (tag ++ value)
payload (rrsig o) = rrsig_payload o
payload (dnskey flags protocol algorithm key) = be16 flags ++ (protocol ∷ algorithm ∷ key)
payload (ds key_tag algorithm digest_type digest) =
    be16 key_tag ++ (algorithm ∷ digest_type ∷ digest)
payload (nsec3 o) = nsec3_payload o
payload (nsec3param hash_algorithm flags iterations salt) =
    hash_algorithm ∷ flags ∷ (be16 iterations ++ ((length salt % 256) ∷ salt))
