-- ===== src/Lazyfication/Counters.antt =====
-- The counters and the cache of passes/Lazyfication.cpp, whatever is written into the module.
use wyvern.Base.{
  ℕ, suc, ◌<◌, ◌≤◌, ◌≡◌, refl, Bool, List, [], ◌∷◌, none, arith, All, All-map, length,
  if◌then◌else◌, Option-cases, inl, inr,
}
use wyvern.Base.Map
use wyvern.Base.Map.{Set, contains, add, pair_order}
use wyvern.Ir.{Module}
use wyvern.Lazyfication.{
  Site, Lazified, Llvm, CloneKey, Driver, find_clone, check, count_slice, count_site, thunk_type,
  types_after, lazify, lazify_callsite,
}

-- The types of the clones are among those that were made.
abbrev pub HasOldTypes : ℕ → List (CloneKey × ℕ) → Type 0
HasOldTypes n cloned = All (λ (x : CloneKey × ℕ). x.0.thunk_type < n) cloned

-- Each counted pair is in the set once, there are at most as many pairs as call sites, each call site
-- has a clone of its own, and the sizes are in order once there is one.
pub record IsConsistent (d : Driver) : Type 0 where
  pub pairs : d.num_functions ≡ length d.lazified
  pub fewer : d.num_functions ≤ d.num_callsites
  pub own_clones : length d.cloned ≡ d.num_callsites
  pub old_types : HasOldTypes d.next_type d.cloned
  pub ordered : d.num_callsites ≡ 0 → d.total ≡ 0
  pub bounded : d.largest ≤ d.total
  pub least : 0 < d.num_callsites → d.smallest ≤ d.largest

-- A new type is the key of no clone.
find_clone_new :
    (k : CloneKey) (cloned : List (CloneKey × ℕ))
    → HasOldTypes k.thunk_type cloned
    → find_clone k cloned ≡ none
unfolding find_clone
find_clone_new k [] h = refl
find_clone_new k ((j, g) ∷ rest) (p, h) = ground (arith, find_clone_new k rest h)

HasOldTypes-mono :
    (m n : ℕ) (cloned : List (CloneKey × ℕ)) → m ≤ n → HasOldTypes m cloned → HasOldTypes n cloned
HasOldTypes-mono m n cloned le h = All-map (λ x p. omega (arith, p, le)) cloned h

length-place : (k : ℕ × ℕ) (S : Set (ℕ × ℕ)) → length (Map.place k tt S) ≡ suc (length S)
unfolding Map.place
length-place k [] = refl
length-place k ((j, u) ∷ S) = ground (arith, length-place k S)

length-add :
    (k : ℕ × ℕ) (S : Set (ℕ × ℕ))
    → length (add k S) ≡ (if contains k S then length S else suc (length S))
unfolding add contains Map.insert
length-add k S = ground (arith, length-place k S)

recent_type : (memo : Bool) (d : Driver) → d.next_type ≤ thunk_type memo d
recent_type memo d = ground arith

old_type : (memo : Bool) (d : Driver) → thunk_type memo d < suc (suc d.next_type)
old_type memo d = ground arith

count_slice-IsConsistent :
    (size : ℕ) (d : Driver)
    → (d.num_functions ≡ length d.lazified)
    → d.num_functions ≤ d.num_callsites
    → length d.cloned ≡ d.num_callsites
    → HasOldTypes d.next_type d.cloned
    → 0 < d.num_callsites
    → d.largest ≤ d.total
    → IsConsistent (count_slice size d)
unfolding count_slice
count_slice-IsConsistent size d h1 h2 h3 h4 h5 h6 = record {
  pairs = h1;
  fewer = h2;
  own_clones = h3;
  old_types = h4;
  ordered = λ e. absurd (omega (arith, e, h5));
  bounded = ground arith;
  least = λ _. ground arith;
}

pub lazify-IsConsistent :
    (L : Llvm) (memo : Bool) (s : Site) (index : ℕ) (l : Lazified) (d : Driver)
    → IsConsistent d
    → IsConsistent (lazify L memo s index l d)
unfolding lazify count_site
lazify-IsConsistent L memo s index l d c =
    let key : CloneKey = record {
      callee = l.callee;
      index = index;
      thunk_type = thunk_type memo d;
    } in
    let recent : d.next_type ≤ thunk_type memo d = recent_type memo d in
    let is_new : find_clone key d.cloned ≡ none =
      find_clone_new key d.cloned
        (HasOldTypes-mono d.next_type (thunk_type memo d) d.cloned recent c.old_types) in
    rw is_new (
      count_slice-IsConsistent _ _
        (ground (arith, c.pairs, length-add (s.caller, l.arg) d.lazified)) (ground (arith, c.fewer))
        (omega (arith, c.own_clones))
        (
          old_type memo d,
          HasOldTypes-mono d.next_type (suc (suc d.next_type)) d.cloned (omega arith) c.old_types,
        )
        (omega arith) c.bounded)

types_after-ge : (M : Module) (s : Site) (index n : ℕ) → n ≤ types_after M s index n
unfolding types_after
types_after-ge M s index n = ground arith

pub lazify_callsite-IsConsistent :
    (L : Llvm) (memo : Bool) (s : Site) (index : ℕ) (d : Driver)
    → IsConsistent d
    → IsConsistent (lazify_callsite L memo s index d).1
unfolding lazify_callsite
lazify_callsite-IsConsistent L memo s index d c = elim (Option-cases (check L d.program s index)) [
  | inl refused ↦
      rw (refused, lazify_callsite)
        (record {
          pairs = c.pairs;
          fewer = c.fewer;
          own_clones = c.own_clones;
          ordered = c.ordered;
          bounded = c.bounded;
          least = c.least;
          old_types =
              HasOldTypes-mono d.next_type (types_after d.program s index d.next_type) d.cloned
                (types_after-ge d.program s index d.next_type) c.old_types;
        })
  | inr (l, found) ↦ rw (found, lazify_callsite) (lazify-IsConsistent L memo s index l d c)
]
