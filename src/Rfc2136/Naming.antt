-- ===== src/Rfc2136/Naming.antt =====
-- internal/rfc2136/naming.go: names of the objects that hold records.
pub mod Legal
pub mod Clash
use xfx1_dns.Prelude.{
  ℕ, zero, suc, ◌+◌, ◌-◌, ◌*◌, ◌/◌, ◌%◌, ◌^◌, ◌≤◌, ◌<◌, bit_and, bit_or, ◌≡◌, refl, sym, ap, ◌∙◌,
  ◌≢◌, ◌↔◌, ◌⊎◌, inl, inr, Bool, true, false, ◌&&◌, ◌||◌, not, Option, none, some, List, [], ◌∷◌,
  ◌++◌, map, reverse, arith, ◌==◌, if◌then◌else◌, length, take,
}
use xfx1_dns.Rfc2136.Wire.{strip_dot}
use xfx1_dns.Rec.Domain.{Unicode, dot, to_lower}
use xfx1_dns.Prelude.Result.{Result, ok, err, ◌>>=◌}
use xfx1_dns.Prelude.Bytes.{Bytes}
use xfx1_dns.Prelude.{ltb}

abbrev pub dash : ℕ
dash = 45

abbrev pub underscore : ℕ
underscore = 95

-- maxCRNameLen
abbrev pub max_cr_name_len : ℕ
max_cr_name_len = 253

-- strings.ReplaceAll of one byte by one byte.
unfoldable pub replace_all : ℕ → ℕ → Bytes → Bytes
replace_all old new s = map (λ c. if c == old then new else c) s

-- strings.TrimLeft
unfoldable pub trim_left : ℕ → Bytes → Bytes
trim_left byte [] = []
trim_left byte (c ∷ s) = let rest = trim_left byte s in if c == byte then rest else c ∷ s

unfoldable pub sanitize_fqdn : ⦃u : Unicode⦄ → Bytes → Bytes
unfolding trim_left replace_all
sanitize_fqdn fqdn =
    trim_left dash (replace_all underscore dash (replace_all dot dash (strip_dot (to_lower fqdn))))

-- hex.EncodeToString
abbrev pub hex_digit : ℕ → ℕ
hex_digit n = if ltb n 10 then 48 + n else 87 + n

unfoldable pub hex : Bytes → Bytes
hex [] = []
hex (b ∷ s) = hex_digit (b / 16 % 16) ∷ hex_digit (b % 16) ∷ hex s

-- sha256.Sum256
abbrev pub Sha256 : Type 0
Sha256 = Bytes → Bytes

unfoldable pub rdata_hash : Sha256 → Bytes → Bytes
rdata_hash sha rdata = take 8 (hex (sha rdata))

pub data CrNameError : Type 0 where
  overflow : CrNameError

-- The limit on the length of a name.
abbrev pub limited : Bytes → Result CrNameError Bytes
limited name = if ltb max_cr_name_len (length name) then err overflow else ok name

-- `CRName`: source, type, name and hash with dashes between them.
unfoldable pub cr_name :
    ⦃u : Unicode⦄ → Sha256 → Bytes → Bytes → Bytes → Bytes → Result CrNameError Bytes
cr_name sha source rrtype fqdn rdata = limited (
    source
    ++ (dash ∷ (to_lower rrtype ++ (dash ∷ (sanitize_fqdn fqdn ++ (dash ∷ rdata_hash sha rdata))))))
