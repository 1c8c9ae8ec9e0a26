-- ===== src/Dns/Query/Safe.antt =====
-- `New` returns on every message, and what it returns lies within the message.
use xfx1_dns.Prelude.{
  ℕ, zero, suc, ◌+◌, ◌≤◌, ◌<◌, ◌≡◌, refl, false, bit_and, [], ◌∷◌, ◌++◌, length, ltb, ◌==◌, arith,
  ltb→lt, ltb→ge, length-append, ◌⊎◌, inl, inr,
}
use xfx1_dns.Prelude.Bytes.{
  Bytes, at, slice, u16_at, at-Returns, slice-Returns, u16_at-Returns, length-slice,
}
use xfx1_dns.Prelude.Result.{
  ok, Returns, Returns-if, Returns-bind, Returns-ok, Returns-err, Ensures, Ensures-fault,
  Ensures-if, Ensures-bind, Ensures-err, Ensures-ok, Ensures-weaken,
}
use xfx1_dns.Rec.Domain.Glue.{parted}
use xfx1_dns.Dns.Query.{Request, parted, scan, new_request}

scan-Returns :
    (fuel : ℕ) (msg : Bytes) (pos wire_len : ℕ) (name : Bytes)
    → length msg < fuel + pos
    → 0 < fuel
    → Returns (scan fuel msg pos wire_len name)
unfolding scan
scan-Returns zero msg pos wire_len name h p = absurd (omega arith)
scan-Returns (suc fuel) msg pos wire_len name h p =
    Returns-if (ltb pos (length msg)) _ _
      (λ inside. Returns-bind (at msg pos) _ (at-Returns msg pos (ltb→lt _ _ inside)) λ n _.
        Returns-if (n == 0) _ _
          (λ _. Returns-if (ltb 255 (wire_len + 1)) _ _ (λ _. Returns-err _) λ _. Returns-ok _)
          λ _.
            Returns-if (bit_and n 0xc0 == 0xc0) _ _ (λ _. Returns-err _)
              λ _.
                Returns-if (ltb 63 n) _ _ (λ _. Returns-err _)
                  λ _.
                    Returns-if (ltb 255 (wire_len + (1 + n))) _ _ (λ _. Returns-err _)
                      λ _.
                        Returns-if (ltb (length msg) (pos + 1 + n)) _ _ (λ _. Returns-err _)
                          λ outside.
                            let fits : pos + 1 + n ≤ length msg = ltb→ge _ _ outside in
                            Returns-bind (slice msg (pos + 1) (pos + 1 + n)) _
                              (slice-Returns msg (pos + 1) (pos + 1 + n) (omega arith) fits)
                              λ label _.
                                scan-Returns fuel msg (pos + 1 + n) (wire_len + (1 + n))
                                  (parted name ++ label) (omega arith) (omega arith))
      λ _. Returns-ok _

-- `New` neither panics nor loops for ever, whatever bytes arrive.
pub new_request-Returns : (msg : Bytes) → Returns (new_request msg)
unfolding new_request
new_request-Returns msg =
    Returns-if (ltb (length msg) 12) _ _ (λ _. Returns-err _)
      λ long.
        let room : 12 ≤ length msg = ltb→ge _ _ long in
        Returns-bind (u16_at msg 2) _ (u16_at-Returns msg 2 (omega arith)) λ word _.
          Returns-bind (u16_at msg 4) _ (u16_at-Returns msg 4 (omega arith)) λ qdcount _.
            Returns-if (qdcount == 0) _ _ (λ _. Returns-err _)
              λ _.
                Returns-if (ltb 1 qdcount) _ _ (λ _. Returns-err _)
                  λ _.
                    Returns-bind (scan (suc (length msg)) msg 12 0 []) _
                      (scan-Returns (suc (length msg)) msg 12 0 [] (omega arith) (omega arith))
                      λ (name, pos) _.
                        Returns-if (ltb (length msg) (pos + 4)) _ _ (λ _. Returns-err _)
                          λ whole.
                            Returns-bind (u16_at msg pos) _
                              (u16_at-Returns msg pos (omega (arith, ltb→ge _ _ whole)))
                              λ qtype _. Returns-ok _

-- What the loop has read: the name with a dot behind it takes `wire_len` bytes.
abbrev Fits : Bytes → ℕ → Type 0
Fits [] wire_len = wire_len ≡ 0
Fits (c ∷ s) wire_len = suc (suc (length s)) ≡ wire_len

Fits-step :
    (name label : Bytes) (wire_len n : ℕ)
    → Fits name wire_len
    → length label ≡ n
    → 0 < n
    → Fits (parted name ++ label) (wire_len + (1 + n))
Fits-step [] [] wire_len n h e p = absurd (omega arith)
Fits-step [] (b ∷ l) wire_len n h e p = omega arith
Fits-step (c ∷ s) label wire_len n h e p =
    omega (arith, length-append (s ++ (46 ∷ [])) label, length-append s (46 ∷ []))

-- Where the loop stops: at the end of the message, or behind a root label.
abbrev Stops : Bytes → ℕ → Bytes × ℕ → Type 0
Stops msg pos (name', pos') = (length msg ≤ pos') ⊎ ((pos < pos') × (length name' ≤ 253))

Fits-short : (name : Bytes) (wire_len : ℕ) → Fits name wire_len → wire_len ≤ 254 → length name ≤ 253
Fits-short [] wire_len f h = omega arith
Fits-short (c ∷ s) wire_len f h = omega arith

Stops-later :
    (msg : Bytes) (pos later : ℕ) (r : Bytes × ℕ)
    → pos ≤ later
    → Stops msg later r
    → Stops msg pos r
Stops-later msg pos later (name', pos') h (inl e) = inl e
Stops-later msg pos later (name', pos') h (inr e) = inr (omega arith, e.1)

pos_of : (n : ℕ) → (n == 0) ≡ false → 0 < n
pos_of n h = ground arith

scan-Stops :
    (fuel : ℕ) (msg : Bytes) (pos wire_len : ℕ) (name : Bytes)
    → Fits name wire_len
    → Ensures (Stops msg pos) (scan fuel msg pos wire_len name)
unfolding scan
scan-Stops zero msg pos wire_len name f = Ensures-fault _
scan-Stops (suc fuel) msg pos wire_len name f =
    Ensures-if (ltb pos (length msg)) _ _
      (λ inside. Ensures-bind (at msg pos) _ λ n _.
        Ensures-if (n == 0) _ _
          (λ _.
            Ensures-if (ltb 255 (wire_len + 1)) _ _ (λ _. Ensures-err _)
              λ short.
                Ensures-ok _
                  (inr (omega arith, Fits-short name wire_len f (omega (arith, ltb→ge _ _ short)))))
          λ nonzero.
            Ensures-if (bit_and n 0xc0 == 0xc0) _ _ (λ _. Ensures-err _)
              λ _.
                Ensures-if (ltb 63 n) _ _ (λ _. Ensures-err _)
                  λ _.
                    Ensures-if (ltb 255 (wire_len + (1 + n))) _ _ (λ _. Ensures-err _)
                      λ _.
                        Ensures-if (ltb (length msg) (pos + 1 + n)) _ _ (λ _. Ensures-err _)
                          λ _. Ensures-bind (slice msg (pos + 1) (pos + 1 + n)) _ λ label e.
                            Ensures-weaken _
                              (λ r. Stops-later msg pos (pos + 1 + n) r (omega arith))
                              (scan-Stops fuel msg (pos + 1 + n) (wire_len + (1 + n))
                                (parted name ++ label)
                                (Fits-step name label wire_len n f
                                  (omega (arith, length-slice _ _ _ _ e)) (pos_of n nonzero))))
      λ outside. Ensures-ok _ (inl (ltb→ge _ _ outside))

-- What `New` answers for `msg`: a question that ends in the message and a name of at most 254 bytes.
pub record IsRequest (msg : Bytes) (r : Request) : Type 0 where
  pub raw : r.raw ≡ msg
  pub starts : 17 ≤ r.question_end
  pub ends : r.question_end ≤ length msg
  pub short : length r.qname ≤ 254

question_bounds :
    (msg name : Bytes) (pos : ℕ)
    → pos + 4 ≤ length msg
    → Stops msg 12 (name, pos)
    → (17 ≤ pos + 4) × (length (name ++ (46 ∷ [])) ≤ 254)
question_bounds msg name pos h (inl e) = absurd (omega arith)
question_bounds msg name pos h (inr e) = omega (arith, length-append name (46 ∷ []))

pub new_request-Ensures : (msg : Bytes) → Ensures (IsRequest msg) (new_request msg)
unfolding new_request
new_request-Ensures msg =
    Ensures-if (ltb (length msg) 12) _ _ (λ _. Ensures-err _)
      λ long. Ensures-bind (u16_at msg 2) _ λ word _. Ensures-bind (u16_at msg 4) _ λ qdcount _.
        Ensures-if (qdcount == 0) _ _ (λ _. Ensures-err _)
          λ _.
            Ensures-if (ltb 1 qdcount) _ _ (λ _. Ensures-err _)
              λ _. Ensures-bind (scan (suc (length msg)) msg 12 0 []) _ λ (name, pos) e.
                Ensures-if (ltb (length msg) (pos + 4)) _ _ (λ _. Ensures-err _)
                  λ whole. Ensures-bind (u16_at msg pos) _ λ qtype _.
                    let stops =
                      (scan-Stops (suc (length msg)) msg 12 0 [] refl).on_ok (name, pos) e in
                    let (lo, hi) = question_bounds msg name pos (ltb→ge _ _ whole) stops in
                    Ensures-ok _
                      (record { raw = refl; starts = lo; ends = ltb→ge _ _ whole; short = hi })

-- Every request that `New` returns keeps the message, lies within it and has a name of at most 254
-- bytes.
pub new_request-IsRequest : (msg : Bytes) (r : Request) → new_request msg ≡ ok r → IsRequest msg r
new_request-IsRequest msg r h = (new_request-Ensures msg).on_ok r h
