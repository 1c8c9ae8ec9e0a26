-- ===== src/Dnssec/Path.antt =====
-- The candidates for an encloser: the ancestors of a name, each one label longer than the next.
use xfx1_dns.Prelude.{
  ℕ, ◌-◌, ◌≡◌, refl, ap, ◌∙◌, ◌≢◌, ◌⊎◌, inl, inr, true, false, ◌||◌, List, [], ◌∷◌, ◌++◌, arith,
  ◌==◌, length, length-append, take-append, Bool-cases,
}
use xfx1_dns.Db.{has_suffix}
use xfx1_dns.Dnssec.{trim_suffix, candidates_of, build_candidates}
use xfx1_dns.Rec.Domain.{Domain, dot, cons_head, split_dots}
use xfx1_dns.Rec.Parse.{join_dots}
use xfx1_dns.Rec.Domain.Labels.{DotFree}
use xfx1_dns.Prelude.Bytes.{Bytes, bytes_eq, bytes_eq_iff}
use mathlib.Core.List.{append_assoc}

-- `closer` is one label below `encloser`, and the queried name is `closer` or ends in it.
pub record OnPath (queried closer encloser : Domain) : Type 0 where
  pub label : Bytes
  pub dot_free : DotFree label
  pub child : closer ≡ label ++ (dot ∷ encloser)
  pub front : Bytes
  pub below : queried ≡ front ++ closer

-- The first candidate, or the apex behind the last one.
abbrev pub head_name : Domain → List Bytes → Domain
head_name zone [] = zone
head_name zone (l ∷ ls) = join_dots (l ∷ ls) ++ (dot ∷ zone)

pub head_name-cons :
    (zone : Domain) (l : Bytes) (ls : List Bytes)
    → head_name zone (l ∷ ls) ≡ l ++ (dot ∷ head_name zone ls)
unfolding join_dots
head_name-cons zone l [] = refl
head_name-cons zone l (m ∷ r) = append_assoc l (dot ∷ join_dots (m ∷ r)) (dot ∷ zone)

join_dots-cons_head : (k : ℕ) (ls : List Bytes) → join_dots (cons_head k ls) ≡ k ∷ join_dots ls
unfolding join_dots
join_dots-cons_head k [] = refl
join_dots-cons_head k (l ∷ []) = refl
join_dots-cons_head k (l ∷ m ∷ r) = refl

join_dots-nil : (ls : List Bytes) → ls ≢ [] → join_dots ([] ∷ ls) ≡ dot ∷ join_dots ls
unfolding join_dots
join_dots-nil [] h = absurd (h refl)
join_dots-nil (l ∷ ls) h = refl

split_dots-nonempty : (s : Bytes) → split_dots s ≢ []
unfolding split_dots
split_dots-nonempty [] h = cc
split_dots-nonempty (k ∷ s) h = elim (Bool-cases (k == dot)) [
  | inl e ↦ cc (rw e at h)
  | inr e ↦ some_head (split_dots s) (rw e at h)
]
  where
    some_head : (ls : List Bytes) → ¬ (cons_head k ls ≡ [])
    some_head [] h = cc
    some_head (l ∷ ls) h = cc

join_dots-split_dots : (s : Bytes) → join_dots (split_dots s) ≡ s
unfolding split_dots
join_dots-split_dots [] = unfold join_dots in refl
join_dots-split_dots (k ∷ s) = elim (Bool-cases (k == dot)) [
  | inl e ↦
      let same : dot ≡ k = ground (arith, e) in
      rw e (
        join_dots-nil (split_dots s) (split_dots-nonempty s)
        ∙ ap (λ r. dot ∷ r) (join_dots-split_dots s)
        ∙ ap (λ d. d ∷ s) same)
  | inr e ↦ rw e (join_dots-cons_head k (split_dots s) ∙ ap (λ r. k ∷ r) (join_dots-split_dots s))
]

pub head_name-split_dots :
    (zone : Domain) (rel : Bytes) → head_name zone (split_dots rel) ≡ rel ++ (dot ∷ zone)
head_name-split_dots zone rel =
    whole (split_dots rel) (split_dots-nonempty rel) (join_dots-split_dots rel)
  where
    whole :
        (ls : List Bytes) → ls ≢ [] → join_dots ls ≡ rel → head_name zone ls ≡ rel ++ (dot ∷ zone)
    whole [] some_label e = absurd (some_label refl)
    whole (l ∷ ls) some_label e = ap (λ r. r ++ (dot ∷ zone)) e

has_suffix_self : (s : Bytes) → has_suffix s s ≡ true
unfolding has_suffix
has_suffix_self [] = (bytes_eq_iff [] []).1 refl
has_suffix_self (c ∷ s) = rw ((bytes_eq_iff (c ∷ s) (c ∷ s)).1 refl) refl

has_suffix-append : (front s : Bytes) → has_suffix (front ++ s) s ≡ true
unfolding has_suffix
has_suffix-append [] s = has_suffix_self s
has_suffix-append (c ∷ front) s = elim (Bool-cases (bytes_eq (c ∷ (front ++ s)) s)) [
  | inl e ↦ rw e refl
  | inr e ↦ rw e (has_suffix-append front s)
]

trim_suffix-append : (front s : Bytes) → trim_suffix (front ++ s) s ≡ front
unfolding trim_suffix
trim_suffix-append front s =
    let size : length (front ++ s) - length s ≡ length front =
      omega (arith, length-append front s) in
    rw (has_suffix-append front s, size) (take-append front s)

pub build_candidates-cases :
    (rel : Bytes) (zone : Domain)
    → has_suffix rel (dot ∷ []) ≡ false
    → (build_candidates (rel ++ (dot ∷ zone)) zone ≡ [])
      ⊎ (build_candidates (rel ++ (dot ∷ zone)) zone ≡ candidates_of zone (split_dots rel))
unfolding build_candidates
build_candidates-cases rel zone no_dot =
    let kept : trim_suffix rel (dot ∷ []) ≡ rel = unfold trim_suffix in rw no_dot refl in
    rw (trim_suffix-append rel (dot ∷ zone), kept)
      (elim (Bool-cases (bytes_eq rel [] || bytes_eq rel zone)) [
        | inl e ↦ inl (rw e refl)
        | inr e ↦ inr (rw e refl)
      ])
