-- ===== src/Base/Map.antt =====
-- `std::map` and `std::set`: a list of entries that ascends by key. `insert` leaves a present key
-- alone, `assign` overwrites it, and a pointer to a value is followed by `modify`.
use mathlib.Core.Path.{◌≡◌, refl, sym, ap, subst, ◌∙◌}
use mathlib.Core.List.Memᴰ
use mathlib.Core.Logic.{◌↔◌, inl, inr, ⊎_elim}
use mathlib.Core.Bool.{Bool, true, false, ◌&&◌, ◌||◌}
use mathlib.Core.Option.{Option, none, some}
use mathlib.Core.Option
use mathlib.Core.List.{List, [], ◌∷◌, Memᴰ}
use Prim.Native.Nat.{ℕ}
use native.Mathlib.Omega.{arith}
use wyvern.Base.Lists.{All}
use wyvern.Base.Tests.{if◌then◌else◌, Option-cases, Bool-cases, ltb, ◌==◌, ==_iff}

-- What `std::less` of the key type provides.
pub record KeyOrder {ℓ} (K : Type ℓ) : Type ℓ where
  pub same : K → K → Bool
  pub before : K → K → Bool
  pub same_iff : (a b : K) → (same a b ≡ true) ↔ (a ≡ b)

module _ {ℓ κ} {K : Type ℓ} {V : Type κ} ⦃o : KeyOrder K⦄ where
  unfoldable pub find : K → List (K × V) → Option V
  find k [] = none
  find k ((j, v) ∷ m) = if o.same j k then some v else find k m

  unfoldable pub place : K → V → List (K × V) → List (K × V)
  place k v [] = (k, v) ∷ []
  place k v ((j, w) ∷ m) = if o.before j k then (j, w) ∷ place k v m else (k, v) ∷ (j, w) ∷ m

  unfoldable pub insert : K → V → List (K × V) → List (K × V)
  unfolding place
  insert k v m = elim (find k m) [ some _ ↦ m | none ↦ place k v m ]

  unfoldable pub modify : K → (V → V) → List (K × V) → List (K × V)
  modify k f [] = []
  modify k f ((j, v) ∷ m) = if o.same j k then (j, f v) ∷ m else (j, v) ∷ modify k f m

  unfoldable pub assign : K → V → List (K × V) → List (K × V)
  unfolding place modify
  assign k v m = elim (find k m) [ some _ ↦ modify k (λ _. v) m | none ↦ place k v m ]

  pub find-place :
      (k j : K) (v : V) (m : List (K × V))
      → find k m ≡ none
      → find j (place k v m) ≡ (if o.same k j then some v else find j m)
  unfolding find place
  find-place k j v [] h = refl
  find-place k j v ((i, w) ∷ m) h =
      ground (arith, find-place k j v m, o.same_iff k j, o.same_iff i j, o.same_iff i k)

  pub find-insert :
      (k j : K) (v : V) (m : List (K × V))
      → find j (insert k v m) ≡ (if o.same k j then some (Option.get_or (find k m) v) else find j m)
  unfolding insert
  find-insert k j v m = elim (Option-cases (find k m)) [
    | inl e ↦ rw (e, insert) (find-place k j v m e)
    | inr (w, e) ↦ ground (arith, o.same_iff k j)
  ]

  pub find-modify :
      (k j : K) (f : V → V) (m : List (K × V))
      → find j (modify k f m) ≡ (if o.same k j then Option.map f (find j m) else find j m)
  unfolding find modify
  find-modify k j f [] = ground arith
  find-modify k j f ((i, w) ∷ m) =
      ground (arith, find-modify k j f m, o.same_iff k j, o.same_iff i j, o.same_iff i k)

  pub find-assign :
      (k j : K) (v : V) (m : List (K × V))
      → find j (assign k v m) ≡ (if o.same k j then some v else find j m)
  unfolding assign
  find-assign k j v m = elim (Option-cases (find k m)) [
    | inl e ↦ rw (e, assign) (find-place k j v m e)
    | inr (w, e) ↦ ground (arith, find-modify k j (λ _. v) m, o.same_iff k j)
  ]

-- `std::set`: the keys of a map.
abbrev pub Set {ℓ} : Type ℓ → Type ℓ
Set K = List (K × Unit {0})

module _ {ℓ} {K : Type ℓ} ⦃o : KeyOrder K⦄ where
  -- `count` as a test.
  unfoldable pub contains : K → Set K → Bool
  unfolding find
  contains k s = elim (find k s) [ none ↦ false | some _ ↦ true ]

  unfoldable pub add : K → Set K → Set K
  unfolding insert
  add k s = insert k tt s

  pub contains-add :
      (k j : K) (s : Set K) → contains j (add k s) ≡ (if o.same k j then true else contains j s)
  unfolding contains add
  contains-add k j s = ground (arith, find-insert k j tt s)

  pub contains-empty : (k : K) → contains k [] ≡ false
  unfolding contains find
  contains-empty k = refl

  pub contains_self : (k : K) (s : Set K) → contains k (add k s) ≡ true
  contains_self k s = ground (arith, contains-add k k s, o.same_iff k k)

  pub contains_kept : (k j : K) (s : Set K) → contains j s ≡ true → contains j (add k s) ≡ true
  contains_kept k j s h = ground (arith, contains-add k j s)

-- The keys that a set contains are its elements.
module _ {ℓ} {K : Type ℓ} ⦃o : KeyOrder K⦄ where
  pub contains_iff : (k : K) (s : Set K) → (contains k s ≡ true) ↔ Memᴰ (k, tt) s
  unfolding contains find
  contains_iff k [] = (λ e. cc, λ m. absurd (Memᴰ.not-nil m))
  contains_iff k ((j, u) ∷ s) = (
    λ e. elim (Bool-cases (o.same j k)) [
      | inl same ↦ Memᴰ.head (sym (ap (λ (x : K). (x, tt)) ((o.same_iff j k).0 same)))
      | inr new ↦ Memᴰ.tail ((contains_iff k s).0 (ground arith))
    ],
    λ m.
        ⊎_elim (λ e. ground (arith, (o.same_iff j k).1 (ap (λ (x : K × Unit {0}). x.0) (sym e))))
          (λ q. ground (arith, (contains_iff k s).1 q)) (Memᴰ.cases_cons m),
  )

-- Addresses and other numbers, and pairs of them, as keys.
instance abbrev pub nat_order : KeyOrder ℕ
nat_order = record { same = ◌==◌; before = ltb; same_iff = ==_iff }

pub same_pair_iff : (a b : ℕ × ℕ) → ((a.0 == b.0 && a.1 == b.1) ≡ true) ↔ (a ≡ b)
same_pair_iff a b = ground arith

instance abbrev pub pair_order : KeyOrder (ℕ × ℕ)
pair_order = record {
  same = λ a b. a.0 == b.0 && a.1 == b.1;
  before = λ a b. ltb a.0 b.0 || (a.0 == b.0 && ltb a.1 b.1);
  same_iff = same_pair_iff;
}

map-none {ℓ} : {V : Type ℓ} (b : Bool) (f : V → V) → (if b then Option.map f none else none) ≡ none
map-none true f = refl
map-none false f = refl

-- A key stands in a map once.
module _ {ℓ κ} {K : Type ℓ} {V : Type κ} ⦃o : KeyOrder K⦄ where
  abbrev pub IsMap : List (K × V) → Type κ
  IsMap [] = Unit
  IsMap ((k, v) ∷ m) = (find k m ≡ none) × IsMap m

  -- A key that is not in a map is not its first, and not in the rest.
  find-cons_none :
      (k j : K) (w : V) (m : List (K × V))
      → find k ((j, w) ∷ m) ≡ none
      → (o.same k j ≡ false) × (find k m ≡ none)
  unfolding find
  find-cons_none k j w m e = ground (arith, o.same_iff k j, o.same_iff j k)

  place-IsMap : (k : K) (v : V) (m : List (K × V)) → find k m ≡ none → IsMap m → IsMap (place k v m)
  unfolding place find
  place-IsMap k v [] fresh h = (refl, tt)
  place-IsMap k v ((j, w) ∷ m) fresh (q, h) = elim (Bool-cases (o.before j k)) [
    | inl below ↦
        let (differ, later) = find-cons_none k j w m fresh in
        rw (below, place) (find-place k j v m later ∙ rw differ q, place-IsMap k v m later h)
    | inr above ↦ rw (above, place) (fresh, (q, h))
  ]

  pub insert-IsMap : (k : K) (v : V) (m : List (K × V)) → IsMap m → IsMap (insert k v m)
  unfolding insert
  insert-IsMap k v m h = elim (Option-cases (find k m)) [
    | inl fresh ↦ rw (fresh, insert) (place-IsMap k v m fresh h)
    | inr (w, there) ↦ rw (there, insert) h
  ]

  pub modify-IsMap : (k : K) (f : V → V) (m : List (K × V)) → IsMap m → IsMap (modify k f m)
  unfolding modify
  modify-IsMap k f [] h = tt
  modify-IsMap k f ((j, w) ∷ m) (q, h) = elim (Bool-cases (o.same j k)) [
    | inl here ↦ rw (here, modify) (q, h)
    | inr there ↦
        rw (there, modify)
          (find-modify k j f m ∙ rw q (map-none (o.same k j) f), modify-IsMap k f m h)
  ]

  -- What every lookup finds is what every entry is.
  pub find-All {ρ} :
      (P : K × V → Type ρ) (m : List (K × V))
      → IsMap m
      → ((k : K) (v : V) → find k m ≡ some v → P (k, v))
      → All P m
  unfolding find
  find-All P [] h each = tt
  find-All P ((j, w) ∷ m) (fresh, h) each = (
    each j w (rw ((o.same_iff j j).1 refl) refl),
    find-All P m h (λ k v e. each k v (elim (Bool-cases (o.same j k)) [
      | inl same ↦
          let absent : find k m ≡ none =
            subst (λ i. find i m ≡ none) ((o.same_iff j k).0 same) fresh in
          cc (absent, e)
      | inr differ ↦ rw differ e
    ])),
  )
