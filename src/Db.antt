-- ===== src/Db.antt =====
-- internal/db/db.go: the in-memory database of one zone.
pub mod Index
pub mod Lookup
pub mod Wildcard
pub mod Sanity
pub mod Dots
use xfx1_dns.Prelude.{
  ℕ, ◌+◌, Bool, true, false, ◌||◌, ◌&&◌, List, [], ◌∷◌, ◌++◌, Option, none, some,
}
use xfx1_dns.Prelude.{length, filter, any, ◌==◌, if◌then◌else◌}
use xfx1_dns.Prelude.Bytes.{Bytes, bytes_eq}
use xfx1_dns.Rec.Domain.{Domain, Unicode, NameError, dot, compare_domain, same_domain}
use xfx1_dns.Prelude.Result.{Result, ok, ◌>>=◌}
use xfx1_dns.Rec.Types.{RRtype, type_eq}
use xfx1_dns.Rec.Opts.{RRopts}
use xfx1_dns.Rec.Rr.{Rr}
use Index.{lookup_all, has_key, index_onto}

-- Both indexes list their keys in the order in which they were first met; Go visits them in any
-- order, and no result below depends on it.
pub record Db : Type 0 where
  pub zone : Domain
  pub by_type : List (RRtype × List Rr)
  pub by_name : List (Domain × List Rr)
  pub dnssec_enabled : Bool
  pub count : ℕ

unfoldable pub new_db : Domain → List Rr → Db
new_db zone records = record {
  zone = zone;
  by_type = index_onto type_eq (λ rr. rr.rrtype) records [];
  by_name = index_onto bytes_eq (λ rr. rr.name) records [];
  dnssec_enabled = false;
  count = length records;
}

unfoldable pub lookup_by_type : ⦃u : Unicode⦄ → Db → Domain → RRtype → List Rr
lookup_by_type db name rrtype =
    filter (λ rr. same_domain rr.name name) (lookup_all type_eq rrtype db.by_type)

-- The arguments of a call of `LookupByType`.
abbrev pub Call : Type 0
Call = Domain × RRtype

-- The comparisons of `LookupByType` with the records of a type: the panic of one ends the call.
unfoldable pub compare_owners : ⦃u : Unicode⦄ → List Rr → Domain → Result NameError (Unit {0})
compare_owners [] name = ok tt
compare_owners (rr ∷ rrs) name = compare_domain rr.name name >>= λ _. compare_owners rrs name

unfoldable pub lookup_by_name : Db → Domain → RRtype → List Rr
lookup_by_name db name rrtype =
    filter (λ rr. type_eq rr.rrtype rrtype) (lookup_all bytes_eq name db.by_name)

-- _, exists := db.ByName[name]
unfoldable pub name_exists : Db → Domain → Bool
name_exists db name = has_key bytes_eq name db.by_name

-- strings.HasSuffix
unfoldable pub has_suffix : Bytes → Bytes → Bool
has_suffix [] suffix = bytes_eq [] suffix
has_suffix (c ∷ s) suffix = if bytes_eq (c ∷ s) suffix then true else has_suffix s suffix

-- A key of the name index ends in `"." + name`.
unfoldable pub has_below : Db → Domain → Bool
has_below db name = any (λ entry. has_suffix entry.0 (dot ∷ name)) db.by_name

-- The loop over the names between the queried name and the parent of the wildcard: it cuts the
-- text at each dot, from the left, until the parent is reached.
unfoldable pub blocked : Db → Domain → Bytes → Bool
blocked db parent [] = false
blocked db parent (c ∷ s) =
    let rest = blocked db parent s in
    if c == dot
    then (if bytes_eq s parent
        then false
        else if name_exists db s
        then true
        else if has_below db s
        then true
        else rest)
    else rest

abbrev pub wildcard_of : Domain → Domain
wildcard_of parent = 42 ∷ dot ∷ parent

-- The outer loop of `WildcardLookup`, at each dot of what is left of the name.
unfoldable pub wildcard_walk : Db → Domain → Domain → RRtype → Bytes → Option (Domain × List Rr)
wildcard_walk db name zone rrtype [] = none
wildcard_walk db name zone rrtype (c ∷ parent) =
    let rest = wildcard_walk db name zone rrtype parent in
    if c == dot
    then (if name_exists db (wildcard_of parent)
        then (if blocked db parent name
            then none
            else some (wildcard_of parent, lookup_by_name db (wildcard_of parent) rrtype))
        else if bytes_eq parent zone
        then none
        else rest)
    else rest

-- `none` is the empty wildcard: no wildcard applies.
unfoldable pub wildcard_lookup : Db → Domain → Domain → RRtype → Option (Domain × List Rr)
wildcard_lookup db name zone rrtype =
    if bytes_eq name zone then none else wildcard_walk db name zone rrtype name

-- The name that a record refers to, where it has one that gets additional addresses.
unfoldable pub additional_target : RRopts → Option Domain
additional_target (RRopts.cname d) = some d
additional_target (RRopts.mx preference d) = some d
additional_target (RRopts.ns d) = some d
additional_target (RRopts.srv o) = some (o.target)
additional_target _ = none

abbrev pub addresses : ⦃u : Unicode⦄ → Db → Domain → List Rr
addresses db target = lookup_by_type db target RRtype.a ++ lookup_by_type db target RRtype.aaaa

-- The target of a record, unless it was met before.
unfoldable pub fresh_target : List Domain → Rr → Option Domain
unfolding additional_target
fresh_target seen rr = elim (additional_target rr.opts) [
  | none ↦ none
  | some target ↦ if any (bytes_eq target) seen then none else some target
]

-- The loop of `LookupAdditional`; `seen` are the targets met so far.
unfoldable pub additional_loop : ⦃u : Unicode⦄ → Db → List Rr → List Domain → List Rr
additional_loop db [] seen = []
additional_loop db (rr ∷ rrs) seen = elim (fresh_target seen rr) [
  | none ↦ additional_loop db rrs seen
  | some target ↦ addresses db target ++ additional_loop db rrs (target ∷ seen)
]

unfoldable pub lookup_additional : ⦃u : Unicode⦄ → Db → List Rr → RRtype → List Rr
lookup_additional db answers qtype = additional_loop db answers []

-- The slices of the type index one after the other. The code's `seen` set goes by pointers; a
-- record stands for an object of its own here, and `NewDB` puts each into one slice, once.
unfoldable pub concat_slices : List (RRtype × List Rr) → List Rr
concat_slices [] = []
concat_slices ((t, rrs) ∷ m) = rrs ++ concat_slices m

unfoldable pub all_records : Db → List Rr
unfolding concat_slices
all_records db = concat_slices db.by_type
