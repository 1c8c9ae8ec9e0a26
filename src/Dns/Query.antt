-- ===== src/Dns/Query.antt =====
-- internal/dns/query/query.go: the question of an incoming message.
pub mod Safe
pub mod Question
use xfx1_dns.Prelude.{ℕ, zero, suc, ◌+◌, ◌/◌, ◌%◌, Bool, true, false, bit_and, [], ◌∷◌, ◌++◌}
use xfx1_dns.Prelude.{length, ltb, ◌==◌, if◌then◌else◌}
use xfx1_dns.Prelude.Bytes.{Bytes, at, slice, u16_at}
use xfx1_dns.Prelude.Result.{Result, ok, err, fault, stuck, ◌>>=◌}
use xfx1_dns.Rec.Domain.{dot}
use xfx1_dns.Rec.Domain.Glue.{parted}

pub data QueryError : Type 0 where
  too_short no_question multiple_questions compression_pointer label_too_long : QueryError
  qname_too_long label_beyond_message truncated : QueryError

pub record Request : Type 0 where
  pub raw : Bytes
  pub question_end : ℕ
  pub opcode : ℕ
  pub qname : Bytes
  pub qtype : ℕ

-- The loop over the labels: the name and the position behind it.
unfoldable pub scan : ℕ → Bytes → ℕ → ℕ → Bytes → Result QueryError (Bytes × ℕ)
scan zero msg pos wire_len name = fault stuck
scan (suc fuel) msg pos wire_len name =
    if ltb pos (length msg)
    then (do
      label_byte ← at msg pos
      if label_byte == 0
          then (if ltb 255 (wire_len + 1) then err qname_too_long else ok (name, pos + 1))
          else if bit_and label_byte 0xc0 == 0xc0
          then err compression_pointer
          else if ltb 63 label_byte
          then err label_too_long
          else if ltb 255 (wire_len + (1 + label_byte))
          then err qname_too_long
          else if ltb (length msg) (pos + 1 + label_byte)
          then err label_beyond_message
          else do
            label ← slice msg (pos + 1) (pos + 1 + label_byte)
            scan fuel msg (pos + 1 + label_byte) (wire_len + (1 + label_byte))
                (parted name ++ label))
    else ok (name, pos)

-- Each round takes a byte at least, so one round for each byte, and one more, are enough.
unfoldable pub new_request : Bytes → Result QueryError Request
unfolding scan
new_request msg = if ltb (length msg) 12 then err too_short else do
  word ← u16_at msg 2
  qdcount ← u16_at msg 4
  if qdcount == 0 then err no_question else if ltb 1 qdcount then err multiple_questions else do
    (name, pos) ← scan (suc (length msg)) msg 12 0 []
    if ltb (length msg) (pos + 4) then err truncated else do
      qtype ← u16_at msg pos
      ok (record {
        raw = msg;
        question_end = pos + 4;
        opcode = word / 2048 % 16;
        qname = name ++ (dot ∷ []);
        qtype = qtype;
      })

-- Request.ID and Request.Flags return no error.
module _ {E : Type 0} where
  unfoldable pub id : Request → Result E ℕ
  id r = u16_at r.raw 0

  unfoldable pub flags : Request → Result E ℕ
  flags r = u16_at r.raw 2
