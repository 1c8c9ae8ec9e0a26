-- ===== src/Rfc2136/Naming/Clash.antt =====
-- Names that `CRName` does not tell apart.
use xfx1_dns.Prelude.{
  ℕ, ◌≡◌, refl, ap, ◌∙◌, ◌≢◌, ◌⊎◌, inl, inr, [], ◌∷◌, ◌++◌, map, arith, ◌==◌, if◌then◌else◌, All,
  All-append,
}
use xfx1_dns.Rfc2136.Wire.{strip_dot}
use xfx1_dns.Rfc2136.Naming.{dash, underscore, replace_all, sanitize_fqdn, Sha256, cr_name}
use xfx1_dns.Rfc2136.Wire.Encode.{strip_dot-cons, strip_dot-append}
use xfx1_dns.Rfc2136.Naming.Legal.{IsHostByte, host_ascii}
use xfx1_dns.Rec.Domain.{Unicode, dot, lower_byte, to_lower}
use xfx1_dns.Prelude.Bytes.{Bytes}

map_append : (g : ℕ → ℕ) (l r : Bytes) → map g (l ++ r) ≡ map g l ++ map g r
map_append g [] r = refl
map_append g (c ∷ l) r = ap (λ t. g c ∷ t) (map_append g l r)

map-ne : (g : ℕ → ℕ) (s : Bytes) → s ≢ [] → map g s ≢ []
map-ne g [] h e = h e
map-ne g (c ∷ s) h e = cc

to_lower-ascii : ⦃u : Unicode⦄ (s : Bytes) → All IsHostByte s → to_lower s ≡ map lower_byte s
unfolding to_lower
to_lower-ascii s h = rw (host_ascii s h)

-- What a separator in the middle of a name becomes.
separated : Bytes → Bytes → Bytes
separated l r =
    replace_all underscore dash (replace_all dot dash l)
    ++ (dash ∷ replace_all underscore dash (replace_all dot dash (strip_dot r)))

sanitized-separated :
    (l r : Bytes) (c : ℕ)
    → (c ≡ dot) ⊎ (c ≡ dash)
    → r ≢ []
    → replace_all underscore dash (replace_all dot dash (strip_dot (l ++ (c ∷ r)))) ≡ separated l r
unfolding separated replace_all
sanitized-separated l r c h ne =
    let cut : strip_dot (l ++ (c ∷ r)) ≡ l ++ (c ∷ strip_dot r) =
      strip_dot-append l (c ∷ r) (λ e. cc) ∙ ap (λ t. l ++ t) (strip_dot-cons c r ne) in
    let g = λ (x : ℕ). if x == dot then dash else x in
    let k = λ (x : ℕ). if x == underscore then dash else x in
    let becomes : k (g c) ≡ dash = ground arith in
    rw (cut, map_append g l (c ∷ strip_dot r), map_append k (map g l) (map g (c ∷ strip_dot r)))
      (ap (λ x. map k (map g l) ++ (x ∷ map k (map g (strip_dot r)))) becomes)

lower-separated :
    ⦃u : Unicode⦄ (l r : Bytes) (c : ℕ)
    → All IsHostByte l
    → All IsHostByte r
    → (c ≡ dot) ⊎ (c ≡ dash)
    → to_lower (l ++ (c ∷ r)) ≡ map lower_byte l ++ (c ∷ map lower_byte r)
lower-separated l r c hl hr h =
    let host : IsHostByte c = ground arith in
    let fixed : lower_byte c ≡ c = unfold lower_byte in ground arith in
    to_lower-ascii (l ++ (c ∷ r)) (All-append IsHostByte l (c ∷ r) hl (host, hr))
    ∙ map_append lower_byte l (c ∷ r)
    ∙ ap (λ x. map lower_byte l ++ (x ∷ map lower_byte r)) fixed

-- A dot and a dash in the middle of a host name make no difference to `CRName`: records of the
-- same type and data at "a.b." and at "a-b." share one object.
pub cr_name-dash :
    ⦃u : Unicode⦄ (sha : Sha256) (source rrtype l r rdata : Bytes)
    → All IsHostByte l
    → All IsHostByte r
    → r ≢ []
    → cr_name sha source rrtype (l ++ (dot ∷ r)) rdata
      ≡ cr_name sha source rrtype (l ++ (dash ∷ r)) rdata
unfolding cr_name sanitize_fqdn
cr_name-dash sha source rrtype l r rdata hl hr ne =
    let some_text = map-ne lower_byte r ne in
    rw
      (
        lower-separated l r dot hl hr (inl refl),
        lower-separated l r dash hl hr (inr refl),
        sanitized-separated (map lower_byte l) (map lower_byte r) dot (inl refl) some_text,
        sanitized-separated (map lower_byte l) (map lower_byte r) dash (inr refl) some_text,
      )
      refl
