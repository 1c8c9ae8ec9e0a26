-- ===== src/Dns/Query/Question.antt =====
-- `New` reads back a question that was written label by label.
use xfx1_dns.Prelude.{
  ℕ, zero, suc, ◌+◌, ◌/◌, ◌%◌, ◌≤◌, ◌<◌, ◌≡◌, refl, ap, ◌∙◌, List, [], ◌∷◌, ◌++◌, length, drop, All,
  arith, length-append, drop-behind, drop-cons-lt, ◌-◌, length-drop, ge→ltb,
}
use xfx1_dns.Prelude.Bytes.{Bytes, IsU16, u16_at, at-drop, slice-drop, be16, u16_at-be16}
use xfx1_dns.Prelude.Result.{ok}
use xfx1_dns.Rec.Domain.{Domain, dot, domain_labels, put_labels, write}
use xfx1_dns.Rec.Domain.Glue.{parted, glue, glue-labels, domain_labels-ne, length-le-put_labels}
use xfx1_dns.Rec.Domain.Labels.{render-domain_labels, length-write, length-put_labels}
use xfx1_dns.Rec.Domain.Valid.{IsLabel, IsFqdn}
use xfx1_dns.Rec.Parse.Names.{bit_and-small}
use xfx1_dns.Dns.Query.{QueryError, parted, scan, new_request}
use native.Mathlib.Nat.{add-zero}
use mathlib.Core.List.{append_assoc}

module _ (msg : Bytes) where
  scan-root :
      (fuel pos wire_len : ℕ) (name r : Bytes)
      → wire_len + 1 ≤ 255
      → drop pos msg ≡ 0 ∷ r
      → scan (suc fuel) msg pos wire_len name ≡ ok (name, pos + 1)
  unfolding scan
  scan-root fuel pos wire_len name r w h =
      let room = drop-cons-lt msg pos h in rw (at-drop msg pos 0 r h) (ground (arith, room))

  scan-label :
      (fuel pos wire_len : ℕ) (name l r : Bytes)
      → IsLabel l
      → wire_len + (1 + length l) ≤ 255
      → drop pos msg ≡ length l ∷ (l ++ r)
      → scan (suc fuel) msg pos wire_len name
        ≡ scan fuel msg (pos + 1 + length l) (wire_len + (1 + length l)) (parted name ++ l)
  unfolding scan
  scan-label fuel pos wire_len name l r hl w h =
      let room : length msg ≡ pos + suc (length l + length r) =
        omega (arith, drop-cons-lt msg pos h, length-append l r) in
      let behind = drop-behind msg (length l ∷ []) (l ++ r) pos (pos + 1) h refl in
      rw
        (
          at-drop msg pos (length l) (l ++ r) h,
          bit_and-small (length l) (omega (arith, hl)),
          slice-drop msg l r (pos + 1) (pos + 1 + length l) (omega (arith, room)) behind refl,
        )
        (ground (arith, room, hl))

scan-put_labels :
    (msg : Bytes) (ls : List Bytes) (fuel pos wire_len : ℕ) (name r : Bytes)
    → All IsLabel ls
    → length ls < fuel
    → wire_len + length (put_labels ls) + 1 ≤ 255
    → drop pos msg ≡ put_labels ls ++ (0 ∷ r)
    → scan fuel msg pos wire_len name ≡ ok (glue name ls, pos + length (put_labels ls) + 1)
unfolding glue
scan-put_labels msg ls zero pos wire_len name r hl hf w h = absurd (omega arith)
scan-put_labels msg [] (suc fuel) pos wire_len name r hl hf w h =
    scan-root msg fuel pos wire_len name r (omega arith) h ∙ rw (add-zero pos)
scan-put_labels msg (l ∷ ls) (suc fuel) pos wire_len name r (hl, hls) hf w h =
    let size : length l % 256 ≡ length l = omega (arith, hl) in
    let tail : Bytes = put_labels ls ++ (0 ∷ r) in
    let whole : length (l ++ put_labels ls) ≡ length l + length (put_labels ls) =
      length-append l (put_labels ls) in
    let here : drop pos msg ≡ (length l ∷ []) ++ (l ++ tail) =
      h
      ∙ ap (λ (n : ℕ). n ∷ ((l ++ put_labels ls) ++ (0 ∷ r))) size
      ∙ ap (λ (t : Bytes). length l ∷ t) (append_assoc l (put_labels ls) (0 ∷ r)) in
    let behind = drop-behind msg (length l ∷ []) (l ++ tail) pos (pos + 1) here refl in
    scan-label msg fuel pos wire_len name l tail hl (omega (arith, whole)) here
    ∙ scan-put_labels msg ls fuel (pos + 1 + length l) (wire_len + (1 + length l))
        (parted name ++ l) r hls (omega arith) (omega (arith, whole))
        (drop-behind msg l tail (pos + 1) _ behind refl)
    ∙ ground (arith, whole)

-- The bytes of a query: a header with one question, the question, and what follows it.
abbrev pub query_message : ℕ → ℕ → ℕ → ℕ → ℕ → Domain → ℕ → ℕ → Bytes → Bytes
query_message id flags ancount nscount arcount name qtype qclass rest =
    be16 id
    ++ (be16 flags
        ++ (be16 1
            ++ (be16 ancount
                ++ (be16 nscount
                    ++ (be16 arcount ++ (write name ++ (be16 qtype ++ (be16 qclass ++ rest))))))))

-- The loop on a question that stands at byte 12.
scan_question :
    (msg : Bytes) (name : Domain) (rest : Bytes)
    → IsFqdn name
    → length name ≤ 254
    → drop 12 msg ≡ write name ++ rest
    → scan (suc (length msg)) msg 12 0 [] ≡ ok (glue [] (domain_labels name), 13 + length name)
scan_question msg name rest valid short h =
    let ls = domain_labels name in
    let here : drop 12 msg ≡ put_labels ls ++ (0 ∷ rest) =
      h ∙ unfold write in append_assoc (put_labels ls) (0 ∷ []) rest in
    let size : length (put_labels ls) ≡ length name =
      length-put_labels ls ∙ ap (length {A = ℕ}) (render-domain_labels name valid.ends) in
    let room : length (put_labels ls ++ (0 ∷ rest)) ≡ length msg - 12 =
      omega (arith, ap (length {A = ℕ}) here, length-drop 12 msg) in
    let fuel : length ls < suc (length msg) =
      omega (arith, room, length-append (put_labels ls) (0 ∷ rest), length-le-put_labels ls) in
    scan-put_labels msg ls (suc (length msg)) 12 0 [] rest valid.labels fuel (omega (arith, size))
      here
    ∙ ground (arith, size)

-- The run of `New` with one question, from what it reads.
new_request_lem :
    (msg name : Bytes) (word pos qtype : ℕ)
    → 12 ≤ length msg
    → u16_at {E = QueryError} msg 2 ≡ ok word
    → u16_at {E = QueryError} msg 4 ≡ ok 1
    → scan (suc (length msg)) msg 12 0 [] ≡ ok (name, pos)
    → pos + 4 ≤ length msg
    → u16_at {E = QueryError} msg pos ≡ ok qtype
    → new_request msg
      ≡ ok (record {
        raw = msg;
        question_end = pos + 4;
        opcode = word / 2048 % 16;
        qname = name ++ (dot ∷ []);
        qtype = qtype;
      })
unfolding new_request
new_request_lem msg name word pos qtype long h2 h4 loop whole hq =
    rw (ge→ltb (length msg) 12 long, h2, h4, loop, ge→ltb (length msg) (pos + 4) whole, hq)

-- `New` on a query for a well-formed name of at most 254 bytes returns that name, its type and
-- its opcode, and the end of the question, whatever else the header says and follows.
pub new_request-query_message :
    (id flags ancount nscount arcount : ℕ) (name : Domain) (qtype qclass : ℕ) (rest : Bytes)
    → IsU16 flags
    → IsU16 qtype
    → IsFqdn name
    → length name ≤ 254
    → new_request (query_message id flags ancount nscount arcount name qtype qclass rest)
      ≡ ok (record {
        raw = query_message id flags ancount nscount arcount name qtype qclass rest;
        question_end = 17 + length name;
        opcode = flags / 2048 % 16;
        qname = name;
        qtype = qtype;
      })
new_request-query_message id flags ancount nscount arcount name qtype qclass rest hf hq valid
      short =
    let msg = query_message id flags ancount nscount arcount name qtype qclass rest in
    let tail : Bytes = be16 qtype ++ (be16 qclass ++ rest) in
    let wire = length-write name valid.ends in
    let behind : drop (13 + length name) msg ≡ tail =
      drop-behind msg (write name) tail 12 _ refl (omega (arith, wire)) in
    let whole : length msg ≡ 17 + length name + length rest =
      omega (arith, length-append (write name) tail, wire) in
    let named : glue [] (domain_labels name) ++ (dot ∷ []) ≡ name =
      glue-labels (domain_labels name) (domain_labels-ne name valid.ends) valid.labels
      ∙ render-domain_labels name valid.ends in
    let end : 13 + length name + 4 ≡ 17 + length name = omega arith in
    new_request_lem msg (glue [] (domain_labels name)) flags (13 + length name) qtype
      (omega (arith, whole)) (u16_at-be16 msg 2 flags _ hf refl)
      (u16_at-be16 msg 4 1 _ (omega arith) refl) (scan_question msg name tail valid short refl)
      (omega (arith, whole))
      (u16_at-be16 msg (13 + length name) qtype (be16 qclass ++ rest) hq behind)
    ∙ rw (named, end)
