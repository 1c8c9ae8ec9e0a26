-- ===== src/Rfc2136/Naming/Legal.antt =====
-- `CRName` gives names that the API server takes; and which names it does not tell apart.
use xfx1_dns.Prelude.{
  ℕ, zero, suc, ◌/◌, ◌%◌, ◌≤◌, ◌<◌, ◌≡◌, refl, ap, ◌⊎◌, inl, inr, false, [], ◌∷◌, ◌++◌, map, arith,
  ◌==◌, length, take, any, All, All-append, All-if, leb, Bool-cases, ltb, ltb→ge,
}
use xfx1_dns.Rfc2136.Wire.{strip_dot}
use xfx1_dns.Rfc2136.Naming.{
  dash, underscore, max_cr_name_len, replace_all, trim_left, sanitize_fqdn, hex_digit, hex, Sha256,
  rdata_hash, cr_name, limited,
}
use xfx1_dns.Rec.Domain.{Unicode, dot, lower_byte, to_lower}
use xfx1_dns.Prelude.Bytes.{Bytes}
use xfx1_dns.Prelude.Result.{ok}
use mathlib.Core.Path.{subst}

-- The letters, digits and dashes of an object's name, and no dot.
abbrev pub IsNameByte : ℕ → Type 0
IsNameByte c = ((97 ≤ c) × (c ≤ 122)) ⊎ ((48 ≤ c) × (c ≤ 57)) ⊎ (c ≡ 45)

-- What a text of letters, digits, dashes, dots and underscores may hold.
abbrev pub IsHostByte : ℕ → Type 0
IsHostByte c =
    ((97 ≤ c) × (c ≤ 122))
    ⊎ ((65 ≤ c) × (c ≤ 90))
    ⊎ ((48 ≤ c) × (c ≤ 57))
    ⊎ (c ≡ 45)
    ⊎ (c ≡ 46)
    ⊎ (c ≡ 95)

All-map :
    (P Q : ℕ → Type 0) (g : ℕ → ℕ) (s : Bytes)
    → ((c : ℕ) → P c → Q (g c))
    → All P s
    → All Q (map g s)
All-map P Q g [] h k = tt
All-map P Q g (c ∷ s) h k = (h c k.0, All-map P Q g s h k.1)

All-trim_left : (P : ℕ → Type 0) (byte : ℕ) (s : Bytes) → All P s → All P (trim_left byte s)
unfolding trim_left
All-trim_left P byte [] h = tt
All-trim_left P byte (c ∷ s) h =
    All-if P (c == byte) (trim_left byte s) (c ∷ s) (All-trim_left P byte s h.1) h

All-strip_dot : (P : ℕ → Type 0) (s : Bytes) → All P s → All P (strip_dot s)
unfolding strip_dot
All-strip_dot P [] h = tt
All-strip_dot P (c ∷ []) h = All-if P (c == dot) [] (c ∷ []) tt h
All-strip_dot P (c ∷ d ∷ s) h = (h.0, All-strip_dot P (d ∷ s) h.1)

pub IsHostByte-ascii : (c : ℕ) → IsHostByte c → leb 128 c ≡ false
IsHostByte-ascii c h = ground arith

pub host_ascii : (s : Bytes) → All IsHostByte s → any (λ c. leb 128 c) s ≡ false
host_ascii [] h = refl
host_ascii (c ∷ s) h = rw (IsHostByte-ascii c h.0) (host_ascii s h.1)

-- A host name in lower case.
abbrev IsLowerByte : ℕ → Type 0
IsLowerByte c = ((97 ≤ c) × (c ≤ 122)) ⊎ ((48 ≤ c) × (c ≤ 57)) ⊎ (c ≡ 45) ⊎ (c ≡ 46) ⊎ (c ≡ 95)

lower_byte-IsLowerByte : (c : ℕ) → IsHostByte c → IsLowerByte (lower_byte c)
unfolding lower_byte
lower_byte-IsLowerByte c h = ground arith

to_lower-IsLowerByte : ⦃u : Unicode⦄ (s : Bytes) → All IsHostByte s → All IsLowerByte (to_lower s)
unfolding to_lower
to_lower-IsLowerByte s h =
    rw (host_ascii s h) (All-map IsHostByte IsLowerByte lower_byte s lower_byte-IsLowerByte h)

replaced-IsNameByte :
    (s : Bytes)
    → All IsLowerByte s
    → All IsNameByte (replace_all underscore dash (replace_all dot dash s))
unfolding replace_all
replaced-IsNameByte [] h = tt
replaced-IsNameByte (c ∷ s) h = (ground (arith, h.0), replaced-IsNameByte s h.1)

sanitize_fqdn-IsNameByte :
    ⦃u : Unicode⦄ (fqdn : Bytes) → All IsHostByte fqdn → All IsNameByte (sanitize_fqdn fqdn)
unfolding sanitize_fqdn
sanitize_fqdn-IsNameByte fqdn h =
    let text = strip_dot (to_lower fqdn) in
    All-trim_left IsNameByte dash (replace_all underscore dash (replace_all dot dash text)) (
      replaced-IsNameByte text
        (All-strip_dot IsLowerByte (to_lower fqdn) (to_lower-IsLowerByte fqdn h)))

-- A letter or a digit.
abbrev pub IsAlnum : ℕ → Type 0
IsAlnum c = ((97 ≤ c) × (c ≤ 122)) ⊎ ((48 ≤ c) × (c ≤ 57))

abbrev pub StartsAlnum : Bytes → Type 0
StartsAlnum [] = ⊥
StartsAlnum (c ∷ s) = IsAlnum c

abbrev pub EndsAlnum : Bytes → Type 0
EndsAlnum [] = ⊥
EndsAlnum (c ∷ []) = IsAlnum c
EndsAlnum (c ∷ d ∷ s) = EndsAlnum (d ∷ s)

StartsAlnum-append : (s r : Bytes) → StartsAlnum s → StartsAlnum (s ++ r)
StartsAlnum-append [] r h = absurd h
StartsAlnum-append (c ∷ s) r h = h

EndsAlnum-cons : (c : ℕ) (s : Bytes) → EndsAlnum s → EndsAlnum (c ∷ s)
EndsAlnum-cons c [] h = absurd h
EndsAlnum-cons c (d ∷ s) h = h

EndsAlnum-append : (front s : Bytes) → EndsAlnum s → EndsAlnum (front ++ s)
EndsAlnum-append [] s h = h
EndsAlnum-append (c ∷ front) s h = EndsAlnum-cons c (front ++ s) (EndsAlnum-append front s h)

EndsAlnum-All : (s : Bytes) → 1 ≤ length s → All IsAlnum s → EndsAlnum s
EndsAlnum-All [] h k = absurd (omega arith)
EndsAlnum-All (c ∷ []) h k = k.0
EndsAlnum-All (c ∷ d ∷ s) h k = EndsAlnum-All (d ∷ s) (omega arith) k.1

hex_digit-IsAlnum : (n : ℕ) → n < 16 → IsAlnum (hex_digit n)
hex_digit-IsAlnum n h = ground arith

hex-IsAlnum : (s : Bytes) → All IsAlnum (hex s)
unfolding hex
hex-IsAlnum [] = tt
hex-IsAlnum (b ∷ s) = (
  hex_digit-IsAlnum (b / 16 % 16) (omega arith),
  (hex_digit-IsAlnum (b % 16) (omega arith), hex-IsAlnum s),
)

hex_digit-IsNameByte : (n : ℕ) → n < 16 → IsNameByte (hex_digit n)
hex_digit-IsNameByte n h = ground arith

hex-IsNameByte : (s : Bytes) → All IsNameByte (hex s)
unfolding hex
hex-IsNameByte [] = tt
hex-IsNameByte (b ∷ s) = (
  hex_digit-IsNameByte (b / 16 % 16) (omega arith),
  (hex_digit-IsNameByte (b % 16) (omega arith), hex-IsNameByte s),
)

All-take : (P : ℕ → Type 0) (n : ℕ) (s : Bytes) → All P s → All P (take n s)
All-take P zero s h = tt
All-take P (suc n) [] h = tt
All-take P (suc n) (c ∷ s) h = (h.0, All-take P n s h.1)

rdata_hash-IsNameByte : (sha : Sha256) (rdata : Bytes) → All IsNameByte (rdata_hash sha rdata)
unfolding rdata_hash
rdata_hash-IsNameByte sha rdata =
    All-take IsNameByte 8 (hex (sha rdata)) (hex-IsNameByte (sha rdata))

-- A type is named by letters and digits.
abbrev pub IsTypeByte : ℕ → Type 0
IsTypeByte c = ((97 ≤ c) × (c ≤ 122)) ⊎ ((65 ≤ c) × (c ≤ 90)) ⊎ ((48 ≤ c) × (c ≤ 57))

lower_type : ⦃u : Unicode⦄ (s : Bytes) → All IsTypeByte s → All IsNameByte (to_lower s)
unfolding to_lower
lower_type s h =
    rw (ascii s h)
      (All-map IsTypeByte IsNameByte lower_byte s (λ c k. unfold lower_byte in ground (arith, k)) h)
  where
    ascii : (s : Bytes) → All IsTypeByte s → any (λ c. leb 128 c) s ≡ false
    ascii [] h = refl
    ascii (c ∷ s) h = let small : leb 128 c ≡ false = ground (arith, h.0) in rw small (ascii s h.1)

limited-ok :
    (name result : Bytes) → limited name ≡ ok result → (name ≡ result) × (length result ≤ 253)
limited-ok name result h = elim (Bool-cases (ltb max_cr_name_len (length name))) [
  | inl e ↦ cc (rw e at h)
  | inr e ↦
      let same : name ≡ result = cc (rw e at h) in
      (same, omega (arith, ltb→ge max_cr_name_len (length name) e, ap (length {A = ℕ}) same))
]

-- The hash ends in a letter or digit, since a digest is not empty.
rdata_hash-EndsAlnum :
    (sha : Sha256) (rdata : Bytes) → 1 ≤ length (sha rdata) → EndsAlnum (rdata_hash sha rdata)
unfolding rdata_hash
rdata_hash-EndsAlnum sha rdata long = some_digit (sha rdata) long
  where
    some_digit : (s : Bytes) → 1 ≤ length s → EndsAlnum (take 8 (hex s))
    some_digit [] h = absurd (omega arith)
    some_digit (b ∷ s) h =
        EndsAlnum-All (take 8 (hex (b ∷ s))) (unfold hex in omega arith)
          (All-take IsAlnum 8 (hex (b ∷ s)) (hex-IsAlnum (b ∷ s)))

-- For a name of letters, digits, dashes, dots and underscores, a type of letters and digits, and a
-- source of lower-case letters, digits and dashes that starts with a letter or digit, what `CRName`
-- returns is a legal name of an object, where a digest has 32 bytes: at most 253 bytes, lower-case
-- letters, digits and dashes alone, with a letter or digit at either end.
pub cr_name-IsNameByte :
    ⦃u : Unicode⦄ (sha : Sha256) (source rrtype fqdn rdata name : Bytes)
    → ((s : Bytes) → length (sha s) ≡ 32)
    → StartsAlnum source
    → All IsNameByte source
    → All IsTypeByte rrtype
    → All IsHostByte fqdn
    → cr_name sha source rrtype fqdn rdata ≡ ok name
    → All IsNameByte name × (length name ≤ 253) × StartsAlnum name × EndsAlnum name
unfolding cr_name
cr_name-IsNameByte sha source rrtype fqdn rdata name size start hs ht hf run =
    let sanitized = sanitize_fqdn fqdn in
    let hash = dash ∷ rdata_hash sha rdata in
    let a_dash : IsNameByte dash = inr (inr refl) in
    let end : All IsNameByte hash = (a_dash, rdata_hash-IsNameByte sha rdata) in
    let middle = All-append IsNameByte sanitized hash (sanitize_fqdn-IsNameByte fqdn hf) end in
    let typed =
      All-append IsNameByte (to_lower rrtype) (dash ∷ (sanitized ++ hash)) (lower_type rrtype ht)
        (a_dash, middle) in
    let whole =
      All-append IsNameByte source (dash ∷ (to_lower rrtype ++ (dash ∷ (sanitized ++ hash)))) hs
        (a_dash, typed) in
    let (same, short) =
      limited-ok (source ++ (dash ∷ (to_lower rrtype ++ (dash ∷ (sanitized ++ hash))))) name run in
    let typed_name = to_lower rrtype ++ (dash ∷ (sanitized ++ hash)) in
    let digest = rdata_hash-EndsAlnum sha rdata (omega (arith, size rdata)) in
    let last = EndsAlnum-append source (dash ∷ typed_name) (
      EndsAlnum-cons dash typed_name (
        EndsAlnum-append (to_lower rrtype) (dash ∷ (sanitized ++ hash)) (
          EndsAlnum-cons dash (sanitized ++ hash) (
            EndsAlnum-append sanitized hash
              (EndsAlnum-cons dash (rdata_hash sha rdata) digest))))) in
    (
      subst (All IsNameByte) same whole,
      short,
      subst StartsAlnum same (StartsAlnum-append source (dash ∷ typed_name) start),
      subst EndsAlnum same last,
    )
