-- ===== src/ProgramSlice/Delegate/Reroute/Targets.antt =====
-- Where the branches of a delegate go: the targets that `rerouteBranches`, passes/ProgramSlice.cpp,
-- gives to the successors of a block.
use wyvern.Base.{
  ℕ, ◌≡◌, refl, inl, inr, true, List, [], ◌∷◌, Option, none, some, map, ◌==◌, ==_iff, All, All-map,
  Bool-cases, Option-cases, get_or,
}
use wyvern.Base.Map.{contains, nat_order}
use wyvern.Ir.{Function}
use wyvern.ProgramSlice.Control.{DomTree}
use wyvern.ProgramSlice.Outline.{Slice}
use wyvern.ProgramSlice.Delegate.{
  Label, original, copy, unreachable_block, Kind, phi, branch, switch, ret, plain,
}
use wyvern.ProgramSlice.Delegate.Reroute.{labels, set_labels, cut_label, cut_kind, new_target}

module _ (F : Function) (S : Slice) (DT : DomTree) (attractors : List (Option ℕ)) where
  -- A block of the delegate.
  abbrev pub IsInside : Label → Type 0
  IsInside (original s) = ⊥
  IsInside (copy t) = contains t S.bbs ≡ true
  IsInside unreachable_block = Unit

  -- A block of the sliced function or of the delegate.
  abbrev pub IsValid : Label → Type 0
  IsValid (original s) = Unit
  IsValid (copy t) = contains t S.bbs ≡ true
  IsValid unreachable_block = Unit

  -- The copy of a successor's attractor, and the unreachable block for a successor that has none in
  -- the slice.
  unfoldable pub target : Label → Label
  target (original s) = elim (new_target F S DT attractors s) [
    | none ↦ unreachable_block
    | some t ↦ copy t
  ]
  target l = l

  pub new_target-in_slice :
      (s t : ℕ) → new_target F S DT attractors s ≡ some t → contains t S.bbs ≡ true
  unfolding new_target
  new_target-in_slice s t e = elim (Option-cases (get_or attractors s none)) [
    | inl n ↦ cc (e, n)
    | inr (u, a) ↦ elim (Bool-cases (contains u S.bbs)) [
      | inl m ↦ let same : u ≡ t = cc (rw (a, new_target, m) at e) in rw (← same) m
      | inr m ↦ cc (rw (a, new_target, m) at e)
    ]
  ]

  target-IsInside : (l : Label) → IsValid l → IsInside (target l)
  unfolding target
  target-IsInside (original s) v = elim (Option-cases (new_target F S DT attractors s)) [
    | inl n ↦ rw (n, target) tt
    | inr (t, e) ↦ rw (e, target) (new_target-in_slice s t e)
  ]
  target-IsInside (copy t) v = v
  target-IsInside unreachable_block v = tt

  pub map-target-IsInside : (ls : List Label) → All IsValid ls → All IsInside (map target ls)
  map-target-IsInside [] v = tt
  map-target-IsInside (l ∷ ls) v = (target-IsInside l v.0, map-target-IsInside ls v.1)

  target_self : (l : Label) → IsInside l → target l ≡ l
  unfolding target
  target_self (original s) i = absurd i
  target_self (copy t) i = refl
  target_self unreachable_block i = refl

  pub map-target_self : (ls : List Label) → All IsInside ls → map target ls ≡ ls
  map-target_self [] i = refl
  map-target_self (l ∷ ls) i = rw (target_self l i.0, map-target_self ls i.1) refl

  -- Cutting the uses of a block that has no attractor.
  module _ (s : ℕ) (lost : new_target F S DT attractors s ≡ none) where
    target-cut_label : (l : Label) → target (cut_label s l) ≡ target l
    unfolding target cut_label
    target-cut_label (original b) = elim (Bool-cases (b == s)) [
      | inl hit ↦
          let same : b ≡ s = (==_iff b s).0 hit in rw (hit, cut_label, same, target, lost) refl
      | inr miss ↦ rw (miss, cut_label) refl
    ]
    target-cut_label (copy t) = refl
    target-cut_label unreachable_block = refl

    pub map-target-cut_label : (ls : List Label) → map target (map (cut_label s) ls) ≡ map target ls
    map-target-cut_label [] = refl
    map-target-cut_label (l ∷ ls) = rw (target-cut_label l, map-target-cut_label ls) refl

  cut_label-IsInside : (s : ℕ) (l : Label) → IsInside l → IsInside (cut_label s l)
  unfolding cut_label
  cut_label-IsInside s (original b) i = absurd i
  cut_label-IsInside s (copy t) i = i
  cut_label-IsInside s unreachable_block i = i

  cut_label-IsValid : (s : ℕ) (l : Label) → IsValid l → IsValid (cut_label s l)
  unfolding cut_label
  cut_label-IsValid s (original b) i = elim (Bool-cases (b == s)) [
    | inl hit ↦ rw (hit, cut_label) tt
    | inr miss ↦ rw (miss, cut_label) tt
  ]
  cut_label-IsValid s (copy t) i = i
  cut_label-IsValid s unreachable_block i = i

  pub map-cut_label-IsInside :
      (s : ℕ) (ls : List Label) → All IsInside ls → All IsInside (map (cut_label s) ls)
  map-cut_label-IsInside s [] i = tt
  map-cut_label-IsInside s (l ∷ ls) i =
      (cut_label-IsInside s l i.0, map-cut_label-IsInside s ls i.1)

  pub map-cut_label-IsValid :
      (s : ℕ) (ls : List Label) → All IsValid ls → All IsValid (map (cut_label s) ls)
  map-cut_label-IsValid s [] i = tt
  map-cut_label-IsValid s (l ∷ ls) i = (cut_label-IsValid s l i.0, map-cut_label-IsValid s ls i.1)

  IsInside-IsValid : (l : Label) → IsInside l → IsValid l
  IsInside-IsValid (original s) i = tt
  IsInside-IsValid (copy t) i = i
  IsInside-IsValid unreachable_block i = tt

  pub All-IsValid : (ls : List Label) → All IsInside ls → All IsValid ls
  All-IsValid = All-map IsInside-IsValid

  pub labels-cut_kind :
      (s : ℕ) (k : Kind) → labels (some (cut_kind s k)) ≡ map (cut_label s) (labels (some k))
  unfolding cut_kind
  labels-cut_kind s (phi ls) = refl
  labels-cut_kind s (branch ls) = refl
  labels-cut_kind s (switch ls) = refl
  labels-cut_kind s ret = refl
  labels-cut_kind s (plain o) = refl

  -- What setting the successors leaves as successors, when these are the old ones' targets.
  pub labels-set_labels :
      (ls : List Label) (k : Kind)
      → map target (labels (some k)) ≡ ls
      → labels (some (set_labels ls k)) ≡ ls
  labels-set_labels ls (phi ms) e = e
  labels-set_labels ls (branch ms) e = refl
  labels-set_labels ls (switch ms) e = refl
  labels-set_labels ls ret e = e
  labels-set_labels ls (plain o) e = e
