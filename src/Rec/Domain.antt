-- ===== src/Rec/Domain.antt =====
-- internal/rec/domain.go: names, their validation, wire form and canonical order.
use xfx1_dns.Prelude.{ℕ, zero, suc, ◌+◌, ◌-◌, ◌%◌, ◌≤◌, ◌<◌, ◌≡◌, Bool, true, false, ◌&&◌, not}
use xfx1_dns.Prelude.{List, [], ◌∷◌, ◌++◌, map, reverse, Option, none, some, length, get_elem?, any}
use xfx1_dns.Prelude.{ltb, leb, ◌==◌, if◌then◌else◌}
use xfx1_dns.Prelude.Bytes.{Bytes, bytes_eq}
use xfx1_dns.Prelude.Result.{Result, ok, err, fault, panic, ◌>>=◌}
pub mod Labels
pub mod Glue
pub mod Valid
pub mod Order

-- `strings.ToLower` beyond ASCII goes by the tables of package unicode, which are not in the
-- repository.
pub record Unicode : Type 0 where
  pub lower : Bytes → Bytes

pub data NameError : Type 0 where
  name_too_long label_too_long illegal_label missing_trailing_dot : NameError

-- A domain is its text, with the trailing dot.
abbrev pub Domain : Type 0
Domain = Bytes

abbrev pub dot : ℕ
dot = 46

unfoldable pub lower_byte : ℕ → ℕ
lower_byte c = if leb 65 c && leb c 90 then c + 32 else c

-- strings.ToLower: byte by byte on ASCII text.
unfoldable pub to_lower : ⦃u : Unicode⦄ → Bytes → Bytes
unfolding lower_byte
to_lower ⦃u⦄ s = if any (λ c. leb 128 c) s then u.lower s else map lower_byte s

-- `s[len(s)-1] == '.'`, false on the empty text.
unfoldable pub ends_dot : Bytes → Bool
ends_dot [] = false
ends_dot (c ∷ []) = c == dot
ends_dot (c ∷ d ∷ r) = ends_dot (d ∷ r)

-- strings.Split(s, "."): what `c` is put in front of is never empty.
abbrev pub cons_head : ℕ → List Bytes → List Bytes
cons_head c [] = (c ∷ []) ∷ []
cons_head c (l ∷ ls) = (c ∷ l) ∷ ls

unfoldable pub split_dots : Bytes → List Bytes
split_dots [] = [] ∷ []
split_dots (c ∷ s) = let rest = split_dots s in if c == dot then [] ∷ rest else cons_head c rest

-- parts[:len(parts)-1]
abbrev pub but_last : List Bytes → List Bytes
but_last [] = []
but_last (l ∷ []) = []
but_last (l ∷ m ∷ r) = l ∷ but_last (m ∷ r)

unfoldable pub domain_labels : Domain → List Bytes
unfolding split_dots
domain_labels name = but_last (split_dots name)

-- The loop of `validateFqdn`: the part behind the last dot may be empty.
unfoldable pub validate_labels : List Bytes → Result NameError (Unit {0})
validate_labels [] = ok tt
validate_labels (l ∷ []) = if ltb 63 (length l) then err label_too_long else ok tt
validate_labels (l ∷ m ∷ r) =
    let rest = validate_labels (m ∷ r) in
    if ltb 63 (length l)
    then err label_too_long
    else if ltb (length l) 1
    then err illegal_label
    else rest

unfoldable pub validate_fqdn : Bytes → Result NameError (Unit {0})
unfolding validate_labels
validate_fqdn name =
    if bytes_eq name (dot ∷ [])
    then ok tt
    else if length name == 0
    then err missing_trailing_dot
    else if not (ends_dot name)
    then err missing_trailing_dot
    else if ltb 255 (length name)
    then err name_too_long
    else validate_labels (split_dots name)

abbrev with_dot : Bytes → Bytes
with_dot s = if ltb 0 (length s) && not (ends_dot s) then s ++ (dot ∷ []) else s

unfoldable pub new_domain : ⦃u : Unicode⦄ → Bytes → Result NameError Domain
unfolding validate_fqdn to_lower
new_domain s = let lowered = to_lower (with_dot s) in validate_fqdn lowered >>= λ _. ok lowered

abbrev pub put_labels : List Bytes → Bytes
put_labels [] = []
put_labels (l ∷ ls) = (length l % 256) ∷ (l ++ put_labels ls)

-- Domain.Write: what it appends to the buffer.
unfoldable pub write : Domain → Bytes
unfolding domain_labels
write d = put_labels (domain_labels d) ++ (0 ∷ [])

-- strings.Compare, as -1, 0, 1.
pub data Sign : Type 0 where
  less equal greater : Sign

unfoldable pub compare_bytes : Bytes → Bytes → Sign
compare_bytes [] [] = equal
compare_bytes [] (y ∷ ys) = less
compare_bytes (x ∷ xs) [] = greater
compare_bytes (x ∷ xs) (y ∷ ys) =
    let rest = compare_bytes xs ys in if ltb x y then less else if ltb y x then greater else rest

-- The loop that counts the labels in common: both lists are from the last label to the first.
unfoldable pub common_label_count : List Bytes → List Bytes → ℕ
common_label_count [] bs = 0
common_label_count (a ∷ as_) [] = 0
common_label_count (a ∷ as_) (b ∷ bs) =
    let rest = common_label_count as_ bs in if bytes_eq a b then suc rest else 0

-- aLabels[aCount-common-1], counted from the end; panics below index 0.
abbrev label_from_end : List Bytes → ℕ → Result NameError Bytes
label_from_end rev n = elim (get_elem? rev n) [ none ↦ fault panic | some l ↦ ok l ]

-- What follows the test for equal texts, on the labels from the last to the first.
unfoldable pub compare_labels : List Bytes → List Bytes → Result NameError Sign
unfolding common_label_count
compare_labels ra rb =
    let common = common_label_count ra rb in
    if length ra == common && ltb common (length rb)
    then ok less
    else if length rb == common && ltb common (length ra)
    then ok greater
    else do
      a_rest ← label_from_end ra common
      b_rest ← label_from_end rb common
      ok (compare_bytes a_rest b_rest)

unfoldable pub compare_domain : ⦃u : Unicode⦄ → Domain → Domain → Result NameError Sign
unfolding to_lower
compare_domain a b =
    let al = to_lower a in
    let bl = to_lower b in
    if bytes_eq al bl
    then ok equal
    else compare_labels (reverse (domain_labels al)) (reverse (domain_labels bl))

-- `CompareDomain(a, b) == 0` where `CompareDomain` returns. That it returns is another matter, for
-- `compare_owners` on the records of a database; a run that panics goes no further.
unfoldable pub same_domain : ⦃u : Unicode⦄ → Domain → Domain → Bool
unfolding compare_domain
same_domain a b = elim (compare_domain a b) [
  | ok equal ↦ true
  | ok _ ↦ false
  | err _ ↦ false
  | fault _ ↦ false
]
