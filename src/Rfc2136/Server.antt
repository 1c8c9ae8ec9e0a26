-- ===== src/Rfc2136/Server.antt =====
-- internal/rfc2136/server.go: from the bytes of a message to the bytes of its answer.
pub mod Safe
pub mod Guard
use xfx1_dns.Prelude.{
  ℕ, zero, suc, ◌+◌, ◌-◌, ◌*◌, ◌/◌, ◌%◌, ◌^◌, ◌≤◌, ◌<◌, bit_and, bit_or, ◌≡◌, refl, sym, ap, ◌∙◌,
  ◌≢◌, ◌↔◌, ◌⊎◌, inl, inr, Bool, true, false, ◌&&◌, ◌||◌, not, Option, none, some, List, [], ◌∷◌,
  ◌++◌, map, reverse, arith, ◌==◌, if◌then◌else◌, replicate,
}
use xfx1_dns.Rfc2136.Handler.{Folding, rcode_notimp, Handler, handle_update}
use xfx1_dns.Rfc2136.Wire.{
  opcode_update, WireRr, Message, WireError, parse_message, update_response,
}
use xfx1_dns.Rfc2136.Naming.{Sha256}
use xfx1_dns.Rfc2136.Tsig.{TsigError, Hmac, validate_tsig, append_unsigned, sign_response}
use xfx1_dns.Rfc2136.Cluster.{Client, UpdateError}
use xfx1_dns.Rec.Domain.{Unicode}
use xfx1_dns.Prelude.Result.{Result, ok, err, fault, ◌>>=◌}
use xfx1_dns.Prelude.Bytes.{Bytes}
use xfx1_dns.Rfc2136.Handler.{rcode_serv_fail}
use xfx1_dns.Rfc2136.Handler.{rcode_refused}

-- The answer to bytes that cannot be parsed: their first two bytes, QR and SERVFAIL.
abbrev pub minimal_answer : Bytes → Bytes
minimal_answer (a ∷ b ∷ rest) = a ∷ b ∷ 0x80 ∷ rcode_serv_fail ∷ replicate 8 0
minimal_answer _ = 0 ∷ 0 ∷ 0x80 ∷ rcode_serv_fail ∷ replicate 8 0

module _ ⦃u : Unicode⦄ ⦃f : Folding⦄ {S : Type 0} (c : Client S) (sha : Sha256) (hmac : Hmac)
    (h : Handler) where
  -- REFUSED, with an unsigned TSIG record where the request has one.
  abbrev pub refuse : ℕ → Bytes → Option WireRr → Result TsigError Bytes
  refuse now resp none = ok resp
  refuse now resp (some rr) = append_unsigned now resp rr

  -- A response, signed where the request has a TSIG record.
  abbrev pub reply : Bytes → ℕ → Bytes → Option WireRr → Result TsigError Bytes
  reply key now resp none = ok resp
  reply key now resp (some rr) = sign_response hmac key now resp rr

  -- `processMessage` behind the updates; `HandleUpdate` has no error.
  abbrev pub reply_to : Bytes → ℕ → Message → S × Result UpdateError ℕ → S × Result TsigError Bytes
  reply_to key later msg (s, ok rcode) = (s, reply key later (update_response msg rcode) msg.tsig)
  reply_to key later msg (s, err e) = (s, ok [])
  reply_to key later msg (s, fault x) = (s, fault x)

  -- `processMessage` behind the parser and the check of the signature.
  abbrev pub verified :
      Bytes → ℕ → ℕ → Message → Result TsigError (Unit {0}) → S → S × Result TsigError Bytes
  verified key now later msg (ok _) s = reply_to key later msg (handle_update c sha h msg s)
  verified key now later msg (err e) s =
      (s, refuse later (update_response msg rcode_refused) msg.tsig)
  verified key now later msg (fault x) s = (s, fault x)

  abbrev pub parsed :
      Bytes → ℕ → ℕ → Bytes → Result WireError Message → S → S × Result TsigError Bytes
  parsed key now later packet (err e) s = (s, ok (minimal_answer packet))
  parsed key now later packet (fault x) s = (s, fault x)
  parsed key now later packet (ok msg) s =
      if not (msg.header.opcode == opcode_update)
      then (s, ok (update_response msg rcode_notimp))
      else verified key now later msg (validate_tsig hmac key now msg) s

  -- `processMessage`: `key` is the TSIG key; the clock shows `now` when the signature is checked and
  -- `later` when the answer is made.
  unfoldable pub process_message : Bytes → ℕ → ℕ → Bytes → S → S × Result TsigError Bytes
  process_message key now later packet s = parsed key now later packet (parse_message packet) s
