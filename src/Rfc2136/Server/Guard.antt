-- ===== src/Rfc2136/Server/Guard.antt =====
-- What a packet has to be before `processMessage` changes the cluster.
use xfx1_dns.Prelude.{
  ℕ, suc, ◌≡◌, refl, ◌∙◌, ◌≢◌, inl, inr, false, List, [], ◌∷◌, arith, ◌==◌, length, ltb, Bool-cases,
  ltb→ge, ==_iff,
}
use xfx1_dns.Rfc2136.Handler.{Folding, Handler, zone_mismatch, handle_update}
use xfx1_dns.Rfc2136.Wire.{opcode_update, WireRr, Message, WireError, parse_message}
use xfx1_dns.Rfc2136.Naming.{Sha256}
use xfx1_dns.Rfc2136.Tsig.{TsigError, Hmac, validate_tsig}
use xfx1_dns.Rfc2136.Cluster.{Client, UpdateError}
use xfx1_dns.Rfc2136.Server.{reply_to, verified, parsed, process_message}
use xfx1_dns.Rfc2136.Tsig.Accept.{Accepted, validate_tsig_iff}
use xfx1_dns.Rec.Domain.{Unicode}
use xfx1_dns.Prelude.Result.{Result, ok, err, fault}
use xfx1_dns.Prelude.Bytes.{Bytes}

module _ ⦃u : Unicode⦄ ⦃f : Folding⦄ {S : Type 0} (c : Client S) (sha : Sha256) (hmac : Hmac)
    (h : Handler) where
  -- An update that `HandleUpdate` starts on.
  pub record Admitted (key : Bytes) (now : ℕ) (msg : Message) : Type 0 where
    pub opcode : msg.header.opcode ≡ opcode_update
    pub signed : Accepted hmac key now msg
    pub no_prerequisites : msg.prerequisites ≡ []
    pub zone : zone_mismatch c sha h msg.zone ≡ false

  reply_to-state :
      (key : Bytes) (later : ℕ) (msg : Message) (m : S × Result UpdateError ℕ)
      → (reply_to c sha hmac h key later msg m).0 ≡ m.0
  reply_to-state key later msg (s, ok rcode) = refl
  reply_to-state key later msg (s, err e) = refl
  reply_to-state key later msg (s, fault x) = refl

  empty_of : (rrs : List WireRr) → ltb 0 (length rrs) ≡ false → rrs ≡ []
  empty_of [] e = refl
  empty_of (rr ∷ rrs) e = absurd (omega (arith, ltb→ge 0 (suc (length rrs)) e))

  handle_update-guards :
      (msg : Message) (s : S)
      → (handle_update c sha h msg s).0 ≢ s
      → (msg.prerequisites ≡ []) × (zone_mismatch c sha h msg.zone ≡ false)
  unfolding handle_update
  handle_update-guards msg s changed = elim (Bool-cases (ltb 0 (length msg.prerequisites))) [
    | inl e ↦ absurd (changed (rw e))
    | inr e ↦ elim (Bool-cases (zone_mismatch c sha h msg.zone)) [
      | inl d ↦ absurd (changed (rw (e, d)))
      | inr d ↦ (empty_of msg.prerequisites e, d)
    ]
  ]

  module _ (key : Bytes) (now later : ℕ) (packet : Bytes) (s : S) where
    verified-guards :
        (msg : Message) (r : Result TsigError (Unit {0}))
        → validate_tsig hmac key now msg ≡ r
        → (verified c sha hmac h key now later msg r s).0 ≢ s
        → Accepted hmac key now msg
          × (msg.prerequisites ≡ [])
          × (zone_mismatch c sha h msg.zone ≡ false)
    verified-guards msg (ok _) e changed =
        let (none_left, zone) =
          handle_update-guards msg s
            (λ same. changed (reply_to-state key later msg (handle_update c sha h msg s) ∙ same)) in
        ((validate_tsig_iff hmac key now msg).0 e, none_left, zone)
    verified-guards msg (err e') e changed = absurd (changed refl)
    verified-guards msg (fault x) e changed = absurd (changed refl)

    parsed-guards :
        (r : Result WireError Message)
        → (parsed c sha hmac h key now later packet r s).0 ≢ s
        → (msg : Message) × (r ≡ ok msg) × Admitted key now msg
    parsed-guards (err e) changed = absurd (changed refl)
    parsed-guards (fault x) changed = absurd (changed refl)
    parsed-guards (ok msg) changed = elim (Bool-cases (msg.header.opcode == opcode_update)) [
      | inr e ↦ absurd (changed (rw e))
      | inl e ↦
          let (signed, none_left, zone) =
            verified-guards msg (validate_tsig hmac key now msg) refl
              (λ same. changed (rw e same)) in
          (
            msg,
            refl,
            record {
              opcode = (==_iff msg.header.opcode opcode_update).0 e;
              signed = signed;
              no_prerequisites = none_left;
              zone = zone;
            },
          )
    ]

    -- A packet that changes the cluster is a message with the opcode UPDATE, without prerequisites,
    -- for the zone of the gateway (or without a zone), and carries a TSIG record whose MAC for this
    -- message and the key was made at most its fudge from now.
    pub process_message-Admitted :
        (process_message c sha hmac h key now later packet s).0 ≢ s
        → (msg : Message) × (parse_message packet ≡ ok msg) × Admitted key now msg
    unfolding process_message
    process_message-Admitted changed = parsed-guards (parse_message packet) changed
