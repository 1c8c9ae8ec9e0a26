-- ===== src/Rfc2136/Wire.antt =====
-- internal/rfc2136/wire.go: messages of dynamic updates.
pub mod Names
pub mod Safe
pub mod Encode
use xfx1_dns.Prelude.{
  ℕ, zero, suc, ◌+◌, ◌-◌, ◌*◌, ◌/◌, ◌%◌, Bool, true, false, bit_and, bit_or, List, [], ◌∷◌, ◌++◌,
}
use xfx1_dns.Prelude.{
  Option, none, some, not, ◌&&◌, ◌||◌, length, take, any, leb, ltb, ◌==◌, if◌then◌else◌,
}
use xfx1_dns.Prelude.Bytes.{Bytes, at, slice, u16_at, u32_at, be16, put16, bytes_eq}
use xfx1_dns.Prelude.Result.{Result, ok, err, fault, stuck, ◌>>=◌}
use xfx1_dns.Rec.Domain.{dot}
use xfx1_dns.Rec.Domain.Glue.{parted}

-- OpcodeUpdate, the classes and TypeTSIG.
abbrev pub opcode_update : ℕ
opcode_update = 5

abbrev pub class_in : ℕ
class_in = 1

abbrev pub class_none : ℕ
class_none = 254

abbrev pub class_any : ℕ
class_any = 255

abbrev pub type_tsig : ℕ
type_tsig = 250

pub record Header : Type 0 where
  pub id : ℕ
  pub qr : Bool
  pub opcode : ℕ
  pub aa : Bool
  pub tc : Bool
  pub rd : Bool
  pub ra : Bool
  pub z : ℕ
  pub rcode : ℕ
  pub qdcount : ℕ
  pub ancount : ℕ
  pub nscount : ℕ
  pub arcount : ℕ

-- RR of this package: a record as it stands on the wire.
pub record WireRr : Type 0 where
  pub name : Bytes
  pub rrtype : ℕ
  pub class : ℕ
  pub ttl : ℕ
  pub rdlength : ℕ
  pub rdata : Bytes

pub record Message : Type 0 where
  pub header : Header
  pub zone : Option WireRr
  pub prerequisites : List WireRr
  pub updates : List WireRr
  pub additional : List WireRr
  pub tsig : Option WireRr
  pub raw : Bytes

pub data WireError : Type 0 where
  message_too_short question_truncated header_truncated rdata_truncated : WireError
  name_overrun pointer_truncated pointer_loop invalid_label label_overrun : WireError

-- What the loop of `parseName` returns behind its end: `consumed` at the root label.
unfoldable pub at_root : ℕ → ℕ → ℕ → ℕ
at_root offset visited consumed =
    if consumed == 0
    then 1
    else if leb (offset + consumed) visited
    then visited - offset + 1
    else consumed

-- `consumed` behind a label that ends at `stop`.
unfoldable pub after_label : ℕ → ℕ → ℕ → ℕ
after_label offset stop consumed =
    if consumed == 0 || leb (offset + consumed) stop then stop - offset + 1 else consumed

-- `consumed` behind a pointer: only the first pointer sets it, and only if no label came before.
unfoldable pub after_pointer : ℕ → ℕ → ℕ → ℕ
after_pointer offset visited consumed = if consumed == 0 then visited - offset + 2 else consumed

-- The loop of `parseName`; `seen` are the pointers met so far.
unfoldable pub name_loop : ℕ → Bytes → ℕ → ℕ → ℕ → List ℕ → Bytes → Result WireError (Bytes × ℕ)
name_loop zero msg offset visited consumed seen name = fault stuck
name_loop (suc fuel) msg offset visited consumed seen name =
    if leb (length msg) visited then err name_overrun else do
      len ← at msg visited
      if len == 0
          then ok (name, at_root offset visited consumed)
          else if bit_and len 0xc0 == 0xc0
          then (if leb (length msg) (visited + 1) then err pointer_truncated else do
            word ← u16_at msg visited
            let target = word % 16384
            if any (λ p. p == target) seen
                then err pointer_loop
                else name_loop fuel msg offset target (after_pointer offset visited consumed)
                    (target ∷ seen) name)
          else if not (bit_and len 0xc0 == 0)
          then err invalid_label
          else if ltb (length msg) (visited + 1 + len)
          then err label_overrun
          else do
            label ← slice msg (visited + 1) (visited + 1 + len)
            name_loop fuel msg offset (visited + 1 + len)
                (after_label offset (visited + 1 + len) consumed) seen (parted name ++ label)

-- Each target of a pointer, one of 16384, is followed once, and between two pointers each round
-- takes a byte: this fuel is enough.
abbrev pub name_fuel : Bytes → ℕ
name_fuel msg = suc (16384 * suc (length msg) + length msg)

-- The root is a dot; any other name gets a dot behind it.
abbrev pub dotted : Bytes → Bytes
dotted [] = dot ∷ []
dotted (c ∷ s) = (c ∷ s) ++ (dot ∷ [])

-- The name and the bytes consumed at `offset`.
unfoldable pub parse_name : Bytes → ℕ → Result WireError (Bytes × ℕ)
parse_name msg offset = do
  (name, consumed) ← name_loop (name_fuel msg) msg offset offset 0 [] []
  ok (dotted name, consumed)

unfoldable pub parse_question : Bytes → ℕ → Result WireError (WireRr × ℕ)
parse_question msg start = do
  (name, n) ← parse_name msg start
  if ltb (length msg) (start + n + 4) then err question_truncated else do
    qtype ← u16_at msg (start + n)
    qclass ← u16_at msg (start + n + 2)
    ok (
      record { name = name; rrtype = qtype; class = qclass; ttl = 0; rdlength = 0; rdata = [] },
      start + n + 4 - start,
    )

unfoldable pub parse_rr : Bytes → ℕ → Result WireError (WireRr × ℕ)
parse_rr msg start = do
  (name, n) ← parse_name msg start
  if ltb (length msg) (start + n + 10) then err header_truncated else do
    rrtype ← u16_at msg (start + n)
    class ← u16_at msg (start + n + 2)
    ttl ← u32_at msg (start + n + 4)
    rdlength ← u16_at msg (start + n + 8)
    if ltb (length msg) (start + n + 10 + rdlength) then err rdata_truncated else do
      rdata ← slice msg (start + n + 10) (start + n + 10 + rdlength)
      ok (
        record {
          name = name;
          rrtype = rrtype;
          class = class;
          ttl = ttl;
          rdlength = rdlength;
          rdata = rdata;
        },
        start + n + 10 + rdlength - start,
      )

-- The loop over the zone section, with the first entry: `n` rounds are left.
unfoldable pub parse_questions : ℕ → Bytes → ℕ → Result WireError (List WireRr × ℕ)
parse_questions zero msg offset = ok ([], offset)
parse_questions (suc n) msg offset = do
  (rr, used) ← parse_question msg offset
  (rrs, end) ← parse_questions n msg (offset + used)
  ok (rr ∷ rrs, end)

abbrev pub first : List WireRr → Option WireRr
first [] = none
first (rr ∷ rrs) = some rr

-- The loops over prerequisites and over updates.
unfoldable pub parse_rrs : ℕ → Bytes → ℕ → Result WireError (List WireRr × ℕ)
parse_rrs zero msg offset = ok ([], offset)
parse_rrs (suc n) msg offset = do
  (rr, used) ← parse_rr msg offset
  (rrs, end) ← parse_rrs n msg (offset + used)
  ok (rr ∷ rrs, end)

-- The message before its TSIG record, with ARCOUNT one less.
unfoldable pub strip_tsig : Bytes → ℕ → Result WireError Bytes
strip_tsig msg start = do
  raw ← slice msg 0 start
  arcount ← u16_at raw 10
  ok (if ltb 0 arcount then put16 raw 10 (arcount - 1) else raw)

-- The loop over additional records, with the TSIG record, which stands last, and the raw bytes.
unfoldable pub parse_additional :
    ℕ → Bytes → ℕ → Result WireError (List WireRr × Option WireRr × Bytes)
parse_additional zero msg offset = ok ([], none, msg)
parse_additional (suc n) msg offset = do
  (rr, used) ← parse_rr msg offset
  (rrs, tsig, raw) ← parse_additional n msg (offset + used)
  if rr.rrtype == type_tsig && n == 0
      then (do raw' ← strip_tsig msg offset; ok ([], some rr, raw'))
      else ok (rr ∷ rrs, tsig, raw)

abbrev pub flag : ℕ → ℕ → Bool
flag word value = word / value % 2 == 1

-- The twelve bytes of a header.
unfoldable pub parse_header : Bytes → Result WireError Header
parse_header msg = do
  id ← u16_at msg 0
  word ← u16_at msg 2
  qdcount ← u16_at msg 4
  ancount ← u16_at msg 6
  nscount ← u16_at msg 8
  arcount ← u16_at msg 10
  ok (record {
    id = id;
    qr = flag word 32768;
    opcode = word / 2048 % 16;
    aa = flag word 1024;
    tc = flag word 512;
    rd = flag word 256;
    ra = flag word 128;
    z = word / 16 % 8;
    rcode = word % 16;
    qdcount = qdcount;
    ancount = ancount;
    nscount = nscount;
    arcount = arcount;
  })

unfoldable pub parse_message : Bytes → Result WireError Message
parse_message msg = if ltb (length msg) 12 then err message_too_short else do
  header ← parse_header msg
  (zones, prerequisites_start) ← parse_questions header.qdcount msg 12
  (prerequisites, updates_start) ← parse_rrs header.ancount msg prerequisites_start
  (updates, additional_start) ← parse_rrs header.nscount msg updates_start
  (additional, tsig, raw) ← parse_additional header.arcount msg additional_start
  ok (record {
    header = header;
    zone = first zones;
    prerequisites = prerequisites;
    updates = updates;
    additional = additional;
    tsig = tsig;
    raw = raw;
  })

-- BuildResponse: QR, the opcode of the request, the rcode, and four counts of zero.
unfoldable pub update_response : Message → ℕ → Bytes
update_response msg rcode =
    be16 msg.header.id
    ++ (be16 (bit_or (bit_or 32768 (msg.header.opcode * 2048 % 65536)) (bit_and rcode 0xf))
        ++ (0 ∷ 0 ∷ 0 ∷ 0 ∷ 0 ∷ 0 ∷ 0 ∷ 0 ∷ []))

-- The loop of `encodeName`: `label` are the bytes since the last dot.
unfoldable pub encode_labels : Bytes → Bytes → Bytes
encode_labels label [] = (length label % 256) ∷ label
encode_labels label (c ∷ s) = elim (c == dot) [
  | true ↦ (length label % 256) ∷ (label ++ encode_labels [] s)
  | false ↦ encode_labels (label ++ (c ∷ [])) s
]

-- Without one trailing dot.
unfoldable pub strip_dot : Bytes → Bytes
strip_dot [] = []
strip_dot (c ∷ []) = if c == dot then [] else c ∷ []
strip_dot (c ∷ d ∷ s) = c ∷ strip_dot (d ∷ s)

unfoldable pub encode_name : Bytes → Bytes
encode_name fqdn =
    if bytes_eq fqdn (dot ∷ []) || bytes_eq fqdn []
    then 0 ∷ []
    else encode_labels [] (strip_dot fqdn) ++ (0 ∷ [])
