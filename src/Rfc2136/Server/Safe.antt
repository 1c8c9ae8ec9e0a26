-- ===== src/Rfc2136/Server/Safe.antt =====
-- `processMessage` answers every packet.
use xfx1_dns.Prelude.{
  ℕ, ◌+◌, ◌%◌, ◌≤◌, ◌≡◌, refl, inl, inr, not, Option, none, some, [], ◌∷◌, ◌++◌, arith, ◌==◌,
  length, length-append, Bool-cases,
}
use xfx1_dns.Rfc2136.Handler.{Folding, rcode_notimp, Handler, rcode_refused}
use xfx1_dns.Rfc2136.Wire.{
  opcode_update, class_any, type_tsig, WireRr, Message, WireError, parse_message, update_response,
}
use xfx1_dns.Rfc2136.Naming.{Sha256}
use xfx1_dns.Rfc2136.Tsig.{
  hmac_sha256_name, TsigRecord, TsigError, parse_tsig_rdata, encode_tsig_rdata, encode_rr, Hmac,
  outside_window, compute_mac, check_tsig, validate_tsig, append_tsig, unsigned_for, signed_for,
  append_unsigned, sign_for, sign_response, missing,
}
use xfx1_dns.Rfc2136.Cluster.{Client}
use xfx1_dns.Rfc2136.Server.{minimal_answer, refuse, reply, verified, parsed, process_message}
use xfx1_dns.Rfc2136.Handler.Safe.{handle_update-ok}
use xfx1_dns.Rfc2136.Wire.Safe.{parse_message-Returns}
use xfx1_dns.Rfc2136.Tsig.Safe.{parse_tsig_rdata-Returns}
use xfx1_dns.Rfc2136.Tsig.Respond.{length-put16}
use xfx1_dns.Rec.Domain.{Unicode}
use xfx1_dns.Prelude.Result.{
  Result, Returns, Returns-ok, Returns-err, Returns-if, Returns-bind, ok, err, fault,
}
use xfx1_dns.Prelude.Bytes.{Bytes, bytes_eq, put16, u16_at-ok}

append_tsig-ok :
    (resp name : Bytes) (t : TsigRecord)
    → 12 ≤ length resp
    → (out : Bytes) × (append_tsig resp name t ≡ ok out) × (12 ≤ length out)
unfolding append_tsig
append_tsig-ok resp name t h =
    let (arcount, read) = u16_at-ok {E = TsigError} resp 10 (omega arith) in
    let front = put16 resp 10 ((arcount + 1) % 65536) in
    let behind = encode_rr name type_tsig class_any 0 (encode_tsig_rdata t) in
    (
      front ++ behind,
      rw read,
      omega (arith, length-append front behind, length-put16 resp 10 ((arcount + 1) % 65536)),
    )

-- What an answer is.
abbrev Answers : Result TsigError Bytes → Type 0
Answers r = (out : Bytes) × (r ≡ ok out) × (12 ≤ length out)

module _ ⦃u : Unicode⦄ where
  append_unsigned-ok :
      (now : ℕ) (resp : Bytes) (rr : WireRr)
      → 12 ≤ length resp
      → Answers (append_unsigned now resp rr)
  unfolding append_unsigned
  append_unsigned-ok now resp rr h =
      let (orig_id, read) = u16_at-ok {E = TsigError} resp 0 (omega arith) in
      rw read (go orig_id (parse_tsig_rdata rr.rdata) (parse_tsig_rdata-Returns rr.rdata))
    where
      go :
          (orig_id : ℕ) (r : Result TsigError TsigRecord)
          → Returns r
          → Answers (unsigned_for now resp orig_id rr.name r)
      go orig_id (ok t) k = append_tsig-ok resp rr.name _ h
      go orig_id (err e) k = append_tsig-ok resp rr.name _ h
      go orig_id (fault x) k = absurd k.holds

  sign_response-ok :
      (hmac : Hmac) (key : Bytes) (now : ℕ) (resp : Bytes) (rr : WireRr)
      → 12 ≤ length resp
      → Answers (sign_response hmac key now resp rr)
  unfolding sign_response
  sign_response-ok hmac key now resp rr h =
      go (parse_tsig_rdata rr.rdata) (parse_tsig_rdata-Returns rr.rdata)
    where
      go : (r : Result TsigError TsigRecord) → Returns r → Answers (sign_for hmac key now resp rr r)
      go (ok t) k =
          let (orig_id, read) = u16_at-ok {E = TsigError} resp 0 (omega arith) in
          rw read (append_tsig-ok resp rr.name (signed_for hmac key now resp orig_id rr.name t) h)
      go (err e) k = append_unsigned-ok now resp rr h
      go (fault x) k = absurd k.holds

  check_tsig-Returns :
      (hmac : Hmac) (key : Bytes) (now : ℕ) (raw : Bytes) (rr : WireRr)
      → Returns (check_tsig hmac key now raw rr)
  unfolding check_tsig
  check_tsig-Returns hmac key now raw rr =
      Returns-bind (parse_tsig_rdata rr.rdata) _ (parse_tsig_rdata-Returns rr.rdata) λ t _.
        Returns-if (not (bytes_eq t.algorithm hmac_sha256_name)) _ _ (λ _. Returns-err _)
          λ _.
            Returns-if (outside_window now t) _ _ (λ _. Returns-err _)
              λ _.
                Returns-if (bytes_eq (compute_mac hmac key raw rr t) t.mac) _ _ (λ _. Returns-ok _)
                  (λ _. Returns-err _)

  validate_tsig-Returns :
      (hmac : Hmac) (key : Bytes) (now : ℕ) (msg : Message)
      → Returns (validate_tsig hmac key now msg)
  unfolding validate_tsig
  validate_tsig-Returns hmac key now msg = go msg.tsig refl
    where
      go : (o : Option WireRr) → msg.tsig ≡ o → Returns (validate_tsig hmac key now msg)
      go none e = rw e (Returns-err missing)
      go (some rr) e = rw e (check_tsig-Returns hmac key now msg.raw rr)

length-update_response : (msg : Message) (rcode : ℕ) → 12 ≤ length (update_response msg rcode)
unfolding update_response
length-update_response msg rcode = omega arith

length-minimal_answer : (packet : Bytes) → 12 ≤ length (minimal_answer packet)
length-minimal_answer [] = omega arith
length-minimal_answer (a ∷ []) = omega arith
length-minimal_answer (a ∷ b ∷ r) = omega arith

module _ ⦃u : Unicode⦄ ⦃f : Folding⦄ {S : Type 0} (c : Client S) (sha : Sha256) (hmac : Hmac)
    (h : Handler) (key : Bytes) (now later : ℕ) (packet : Bytes) (s : S) where
  refuse-ok :
      (msg : Message) (o : Option WireRr)
      → Answers (refuse c sha hmac h later (update_response msg rcode_refused) o)
  refuse-ok msg none = (_, refl, length-update_response msg rcode_refused)
  refuse-ok msg (some rr) = append_unsigned-ok later _ rr (length-update_response msg rcode_refused)

  reply-ok :
      (resp : Bytes) (o : Option WireRr)
      → 12 ≤ length resp
      → Answers (reply c sha hmac h key later resp o)
  reply-ok resp none k = (_, refl, k)
  reply-ok resp (some rr) k = sign_response-ok hmac key later resp rr k

  verified-ok :
      (msg : Message) (r : Result TsigError (Unit {0}))
      → Returns r
      → Answers (verified c sha hmac h key now later msg r s).1
  verified-ok msg (ok _) k =
      let (s', rcode, run, small) = handle_update-ok c sha h msg s in
      rw run (reply-ok (update_response msg rcode) msg.tsig (length-update_response msg rcode))
  verified-ok msg (err e) k = refuse-ok msg msg.tsig
  verified-ok msg (fault x) k = absurd k.holds

  parsed-ok :
      (r : Result WireError Message)
      → Returns r
      → Answers (parsed c sha hmac h key now later packet r s).1
  parsed-ok (err e) k = (_, refl, length-minimal_answer packet)
  parsed-ok (fault x) k = absurd k.holds
  parsed-ok (ok msg) k = elim (Bool-cases (not (msg.header.opcode == opcode_update))) [
    | inl e ↦ rw e (_, refl, length-update_response msg rcode_notimp)
    | inr e ↦
        rw e (
          verified-ok msg (validate_tsig hmac key now msg) (validate_tsig-Returns hmac key now msg))
  ]

  -- Every packet gets an answer, of at least the twelve bytes of a header: the gateway does not
  -- panic, whatever the bytes, the key, the times and the cluster are.
  pub process_message-ok :
      (out : Bytes) × ((process_message c sha hmac h key now later packet s).1 ≡ ok out)
      × (12 ≤ length out)
  unfolding process_message
  process_message-ok = parsed-ok (parse_message packet) (parse_message-Returns packet)
