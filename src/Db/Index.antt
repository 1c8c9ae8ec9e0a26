-- ===== src/Db/Index.antt =====
-- The two indexes of a database: Go maps from a key to a slice, as association lists.
use xfx1_dns.Prelude.{
  ◌≡◌, ◌↔◌, sym, ◌∙◌, Bool, true, false, List, [], ◌∷◌, ◌++◌, All, All-if, All-append, filter, any,
  if◌then◌else◌, Bool-cases, inl, inr, arith,
}
use mathlib.Core.List.{append-nil, append_assoc}

-- What holds of every value of an index.
abbrev pub AllValues {κ} : {K V : Type 0} → (V → Type κ) → List (K × List V) → Type κ
AllValues P m = All (λ entry. All P entry.1) m

AllValues-if {κ} :
    {K V : Type 0} (P : V → Type κ) (b : Bool) (m n : List (K × List V))
    → AllValues P m
    → AllValues P n
    → AllValues P (if b then m else n)
AllValues-if P true m n h k = h
AllValues-if P false m n h k = k

module _ {K V : Type 0} (eq : K → K → Bool) where
  -- m[k], nil where the key is missing.
  unfoldable pub lookup_all : K → List (K × List V) → List V
  lookup_all k [] = []
  lookup_all k ((j, vs) ∷ m) = if eq j k then vs else lookup_all k m

  -- _, ok := m[k]
  unfoldable pub has_key : K → List (K × List V) → Bool
  has_key k [] = false
  has_key k ((j, vs) ∷ m) = if eq j k then true else has_key k m

  -- m[k] = append(m[k], v)
  unfoldable pub append_at : K → V → List (K × List V) → List (K × List V)
  append_at k v [] = (k, v ∷ []) ∷ []
  append_at k v ((j, vs) ∷ m) =
      if eq j k then (j, vs ++ (v ∷ [])) ∷ m else (j, vs) ∷ append_at k v m

  -- The loop of `NewDB` over one index.
  unfoldable pub index_onto : (V → K) → List V → List (K × List V) → List (K × List V)
  index_onto key [] m = m
  index_onto key (v ∷ vs) m = index_onto key vs (append_at (key v) v m)

  pub All-lookup_all {κ} :
      (P : V → Type κ) (k : K) (m : List (K × List V)) → AllValues P m → All P (lookup_all k m)
  unfolding lookup_all
  All-lookup_all P k [] h = tt
  All-lookup_all P k ((j, vs) ∷ m) (hv, h) =
      All-if P (eq j k) vs (lookup_all k m) hv (All-lookup_all P k m h)

  AllValues-append_at {κ} :
      (P : V → Type κ) (k : K) (v : V) (m : List (K × List V))
      → P v
      → AllValues P m
      → AllValues P (append_at k v m)
  unfolding append_at
  AllValues-append_at P k v [] hv h = ((hv, tt), tt)
  AllValues-append_at P k v ((j, vs) ∷ m) hv (hs, h) =
      AllValues-if P (eq j k) ((j, vs ++ (v ∷ [])) ∷ m) ((j, vs) ∷ append_at k v m)
        (All-append P vs (v ∷ []) hs (hv, tt), h) (hs, AllValues-append_at P k v m hv h)

  pub AllValues-index_onto {κ} :
      (P : V → Type κ) (key : V → K) (vs : List V) (m : List (K × List V))
      → All P vs
      → AllValues P m
      → AllValues P (index_onto key vs m)
  unfolding index_onto
  AllValues-index_onto P key [] m hv h = h
  AllValues-index_onto P key (v ∷ vs) m hv h =
      AllValues-index_onto P key vs (append_at (key v) v m) hv.1
        (AllValues-append_at P (key v) v m hv.0 h)

  module _ (eq_iff : (a b : K) → (eq a b ≡ true) ↔ (a ≡ b)) where
    lookup_all-append_at :
        (k j : K) (v : V) (m : List (K × List V))
        → lookup_all k (append_at j v m)
          ≡ (if eq j k then lookup_all k m ++ (v ∷ []) else lookup_all k m)
    unfolding lookup_all append_at
    lookup_all-append_at k j v [] = ground arith
    lookup_all-append_at k j v ((i, vs) ∷ m) =
        ground (arith, eq_iff i j, eq_iff i k, eq_iff j k, lookup_all-append_at k j v m)

    pub has_key-append_at :
        (k j : K) (v : V) (m : List (K × List V))
        → has_key k (append_at j v m) ≡ (if eq j k then true else has_key k m)
    unfolding has_key append_at
    has_key-append_at k j v [] = ground arith
    has_key-append_at k j v ((i, vs) ∷ m) =
        ground (arith, eq_iff i j, eq_iff i k, eq_iff j k, has_key-append_at k j v m)

    pub lookup_all-index_onto :
        (key : V → K) (k : K) (vs : List V) (m : List (K × List V))
        → lookup_all k (index_onto key vs m) ≡ lookup_all k m ++ filter (λ v. eq (key v) k) vs
    unfolding index_onto
    lookup_all-index_onto key k [] m = sym (append-nil (lookup_all k m))
    lookup_all-index_onto key k (v ∷ vs) m = elim (Bool-cases (eq (key v) k)) [
      | inl e ↦
          lookup_all-index_onto key k vs (append_at (key v) v m)
          ∙ rw (lookup_all-append_at k (key v) v m, e)
              (append_assoc (lookup_all k m) (v ∷ []) (filter (λ v. eq (key v) k) vs))
      | inr e ↦
          lookup_all-index_onto key k vs (append_at (key v) v m)
          ∙ rw (lookup_all-append_at k (key v) v m, e)
    ]

    pub has_key-index_onto :
        (key : V → K) (k : K) (vs : List V) (m : List (K × List V))
        → has_key k (index_onto key vs m)
          ≡ (if has_key k m then true else any (λ v. eq (key v) k) vs)
    unfolding index_onto
    has_key-index_onto key k [] m = ground arith
    has_key-index_onto key k (v ∷ vs) m =
        has_key-index_onto key k vs (append_at (key v) v m)
        ∙ rw (has_key-append_at k (key v) v m) (ground arith)
