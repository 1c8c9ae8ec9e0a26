-- ===== src/Slave/Dns/Servable.antt =====
-- Zones that a query can be answered from, and the steps of an answer on their records.
use xfx1_dns.Prelude.{
  ℕ, ◌≤◌, ◌≡◌, ◌≢◌, refl, Bool, List, [], Option, none, some, All, length, arith, ltb, ltb→ge, inl,
  inr,
}
use xfx1_dns.Prelude.Bytes.{Bytes, u16_at, u16_at-Returns}
use xfx1_dns.Prelude.Result.{Result, ok, err, fault, Returns, Returns-if, Returns-bind, Returns-ok}
use xfx1_dns.Rec.Domain.{ends_dot, Domain, Unicode, new_domain}
use xfx1_dns.Rec.Types.{RRtype, to_wire}
use xfx1_dns.Rec.Rr.{Rr}
use xfx1_dns.Db.{Db, new_db}
use xfx1_dns.Dns.Query.{Request}
use xfx1_dns.Dns.Query.Safe.{IsRequest}
use xfx1_dns.Dns.Response.{build_response, refused_response, append_opt, rcode_refused}
use xfx1_dns.Dns.Response.Build.{AllKnown, build_response-wire_section}
use xfx1_dns.Slave.Wire.{NoError, EdnsInfo}
use xfx1_dns.Slave.Response.{Chain, lookup_rrset}
use mathlib.Core.Path.{subst}
use xfx1_dns.Db.Dots.{Dotted, Named, Targeted}
use xfx1_dns.Slave.Response.Dots.{LooksUpDots, HasDots, HasDots-new_db}
use xfx1_dns.Rec.Domain.Valid.{new_domain-IsFqdn}
use xfx1_dns.Slave.Response.Known.{Holds, Holds-new_db, lookup_rrset-Both}
use xfx1_dns.Slave.Response.Records.{ChainHolds, append_dnssec-Holds, append_negative_authority-All}
use xfx1_dns.Slave.Dns.{Zone, Sections, lift, with_opt, refused_sections, answer_sections}

abbrev pub Known : Rr → Type 0
Known rr = to_wire rr.rrtype ≢ none

abbrev pub Known-rename : (rr : Rr) (n : Domain) → Known rr → Known (record rr { name = n })
Known-rename rr n h = h

-- A zone whose records, and whose proofs of denial, have types with a wire value, and whose names
-- end in a dot.
pub record IsServable ⦃u : Unicode⦄ (zone : Zone) : Type 0 where
  pub database : (db : Db) → zone.curr_db ≡ some db → Holds Known Known-rename db
  pub dots : (db : Db) → zone.curr_db ≡ some db → HasDots db
  pub chain : ChainHolds Known zone.nsec3_chain
  pub chain_dots : ChainHolds Named zone.nsec3_chain
  pub chain_lookups : LooksUpDots zone.nsec3_chain

-- A new database of known records whose names end in a dot serves.
pub IsServable-new_db :
    ⦃u : Unicode⦄ (apex : Domain) (records : List Rr) (chain : Option Chain)
    → Dotted apex
    → All Known records
    → All Named records
    → All Targeted records
    → ChainHolds Known chain
    → ChainHolds Named chain
    → LooksUpDots chain
    → IsServable (record { curr_db = some (new_db apex records); nsec3_chain = chain })
IsServable-new_db apex records chain z h n t k d l = record {
  database = λ db e.
      subst (Holds Known Known-rename) (cc e) (Holds-new_db Known Known-rename apex records h);
  dots = λ db e. subst HasDots (cc e) (HasDots-new_db apex records z n t);
  chain = k;
  chain_dots = d;
  chain_lookups = l;
}

-- `NewDomain` returns names that end in a dot.
pub new_domain-Dotted : ⦃u : Unicode⦄ (s : Bytes) (d : Domain) → new_domain s ≡ ok d → Dotted d
new_domain-Dotted s d run = elim (new_domain-IsFqdn s d run) [
  | inl e ↦ rw e (unfold ends_dot in refl)
  | inr f ↦ f.ends
]

module _ {A : Type 0} where
  pub lift-Returns : (r : Result NoError A) → Returns r → Returns (lift r)
  lift-Returns (ok a) h = Returns-ok a
  lift-Returns (err e) h = elim e [ ]
  lift-Returns (fault x) h = absurd h.holds

pub append_opt-Returns :
    (msg : Bytes) (do_bit : Bool) (ext_rcode : ℕ) → Returns (append_opt msg do_bit ext_rcode)
unfolding append_opt
append_opt-Returns msg do_bit ext_rcode =
    Returns-if (ltb (length msg) 12) _ _ (λ _. Returns-ok _)
      λ long.
        Returns-bind (u16_at msg 10) _ (u16_at-Returns msg 10 (omega (arith, ltb→ge _ _ long)))
          λ arcount _. Returns-ok _

pub with_opt-Returns :
    (edns : EdnsInfo) (do_bit : Bool) (ext_rcode : ℕ) (resp : Bytes)
    → Returns (with_opt edns do_bit ext_rcode resp)
with_opt-Returns edns do_bit ext_rcode resp =
    Returns-if edns.present _ _ (λ _. append_opt-Returns resp do_bit ext_rcode) λ _. Returns-ok _

-- A request's message has a whole header.
pub header_room : (msg : Bytes) (req : Request) → IsRequest msg req → 12 ≤ length req.raw
header_room msg req r = rw r.raw (omega (arith, r.starts, r.ends))

-- The records that go into the three sections.
pub record AllSections (s : Sections) : Type 0 where
  pub answers : AllKnown s.answers
  pub additional : AllKnown s.additional
  pub authority : AllKnown s.authority

module _ ⦃u : Unicode⦄ where
  pub build_response-Returns :
      (txid query_flags : ℕ) (question : Option Bytes) (answers additional authority : List Rr)
      (rcode : ℕ)
      → AllKnown answers
      → AllKnown additional
      → AllKnown authority
      → Returns (build_response txid query_flags question answers additional authority rcode)
  build_response-Returns txid query_flags question answers additional authority rcode ha hd hu =
      rw
        (build_response-wire_section txid query_flags question answers additional authority rcode ha
          hd hu)
        (Returns-ok _)

  pub refused_response-Returns :
      (txid query_flags : ℕ) → Returns (refused_response txid query_flags)
  unfolding refused_response
  refused_response-Returns txid query_flags =
      build_response-Returns txid query_flags none [] [] [] rcode_refused tt tt tt

  pub answer_sections-AllSections :
      (db : Db) (chain : Option Chain) (name : Domain) (t : RRtype) (qtype : ℕ) (do_bit : Bool)
      → Holds Known Known-rename db
      → ChainHolds Known chain
      → AllSections (answer_sections db chain name t qtype do_bit)
  unfolding answer_sections
  answer_sections-AllSections db chain name t qtype do_bit h k =
      let found = lookup_rrset db name t in
      let both = lookup_rrset-Both Known Known-rename db h name t in
      let signed =
        append_dnssec-Holds Known Known-rename db h chain name found.effective_owner qtype
          found.rcode found.answers [] do_bit k both.0 tt in
      record {
        answers = signed.0;
        additional = both.1;
        authority =
            append_negative_authority-All Known Known-rename db h found.rcode _ _ do_bit signed.1;
      }

  pub refused-AllSections : AllSections refused_sections
  refused-AllSections = record { answers = tt; additional = tt; authority = tt }
