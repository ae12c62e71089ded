-- ===== src/ProgramSlice/Delegate/Finish/Entry.antt =====
-- The entry block that `reorderBlocks` puts first, and the return of `addReturnValue`,
-- passes/ProgramSlice.cpp.
use mathlib.Core.List.Memᴰ
use wyvern.Base.{
  ℕ, ◌≡◌, refl, sym, ◌⊎◌, inl, inr, ⊎_elim, Bool, true, false, not, ◌&&◌, List, [], ◌∷◌, Memᴰ,
  Option, none, some, arith, ◌==◌, ==_iff, Bool-cases, Option-cases,
}
use wyvern.Base.Map
use wyvern.Base.Map.{nat_order, find-modify}
use wyvern.ProgramSlice.Delegate.{Label, original, copy, unreachable_block, ret, Clone, Blocks}
use wyvern.ProgramSlice.Delegate.Reroute.{terminator, keys}
use wyvern.ProgramSlice.Delegate.Reroute.Edits.{terminator_snoc}
use wyvern.ProgramSlice.Delegate.Finish.{
  Result, ok, fault, has_pred, last_without_preds, real_entry, without, move_first, reorder_blocks,
  drop_last, return_of, add_return, add_return_value,
}

found_later :
    (b e : ℕ) (cs ds : List Clone) (B : Blocks)
    → Map.find e B ≡ some ds
    → (es : List Clone) × (Map.find e ((b, cs) ∷ B) ≡ some es)
unfolding Map.find
found_later b e cs ds B h = elim (Bool-cases (b == e)) [
  | inl hit ↦ (cs, ground arith)
  | inr miss ↦ (ds, ground (arith, h))
]

found_here :
    (b e : ℕ) (cs : List Clone) (B : Blocks)
    → b ≡ e
    → (es : List Clone) × (Map.find e ((b, cs) ∷ B) ≡ some es)
unfolding Map.find
found_here b e cs B same = (cs, ground (arith, (==_iff b e).1 same))

shift :
    (b e : ℕ) (cs : List Clone) (B all : Blocks) (entry : Option ℕ)
    → (has_pred (copy e) all ≡ false) × (ds : List Clone) × (Map.find e B ≡ some ds)
    → (entry ≡ some e)
      ⊎ ((has_pred (copy e) all ≡ false) × (es : List Clone) × (Map.find e ((b, cs) ∷ B) ≡ some es))
shift b e cs B all entry (q, ds, found) =
    let (es, there) = found_later b e cs ds B found in inr (q, es, there)

last_without_preds-some :
    (all : Blocks) (entry : Option ℕ) (B : Blocks) (e : ℕ)
    → last_without_preds all entry B ≡ some e
    → (entry ≡ some e)
      ⊎ ((has_pred (copy e) all ≡ false) × (cs : List Clone) × (Map.find e B ≡ some cs))
unfolding last_without_preds Map.find
last_without_preds-some all entry [] e h = inl h
last_without_preds-some all entry ((b, cs) ∷ rest) e h = elim (Bool-cases (has_pred (copy b) all)) [
  | inl p ↦
      ⊎_elim inl (shift b e cs rest all entry)
        (last_without_preds-some all entry rest e (rw p at h))
  | inr p ↦
      ⊎_elim
        (λ q.
          let same : b ≡ e = cc q in
          let (es, there) = found_here b e cs rest same in inr (rw (← same) p, es, there))
        (shift b e cs rest all entry) (last_without_preds-some all (some b) rest e (rw p at h))
]

last_without_preds-none :
    (all : Blocks) (entry : Option ℕ) (B : Blocks)
    → last_without_preds all entry B ≡ none
    → (entry ≡ none) × ((k : ℕ) → Memᴰ k (keys B) → has_pred (copy k) all ≡ true)
unfolding last_without_preds keys
last_without_preds-none all entry [] h = (h, λ k m. absurd (Memᴰ.not-nil m))
last_without_preds-none all entry ((b, cs) ∷ rest) h = elim (Bool-cases (has_pred (copy b) all)) [
  | inl p ↦
      let (start, rest_preds) = last_without_preds-none all entry rest (rw p at h) in
      (start, λ k m. ⊎_elim (λ e. rw e p) (rest_preds k) (Memᴰ.cases_cons m))
  | inr p ↦ let (start, _) = last_without_preds-none all (some b) rest (rw p at h) in cc start
]

find-without : (k e : ℕ) (B : Blocks) → (e == k) ≡ false → Map.find k (without e B) ≡ Map.find k B
unfolding without Map.find
find-without k e [] h = refl
find-without k e ((b, cs) ∷ rest) h = ground (arith, find-without k e rest h)

find-move_first : (k : ℕ) (l : Label) (B : Blocks) → Map.find k (move_first l B) ≡ Map.find k B
unfolding move_first Map.find
find-move_first k (copy e) B = elim (Option-cases (Map.find e B)) [
  | inl gone ↦ rw (gone, move_first) refl
  | inr (cs, at) ↦ elim (Bool-cases (e == k)) [
    | inl hit ↦
        let same : e ≡ k = (==_iff e k).0 hit in rw (at, move_first, hit) (sym (rw (← same) at))
    | inr miss ↦ rw (at, move_first, miss) (find-without k e B miss)
  ]
]
find-move_first k unreachable_block B = refl
find-move_first k l B = refl

move_first-found :
    (e : ℕ) (cs : List Clone) (B : Blocks)
    → Map.find e B ≡ some cs
    → move_first (copy e) B ≡ (e, cs) ∷ without e B
unfolding move_first
move_first-found e cs B at = rw (at, move_first) refl

-- What `reorderBlocks` answers.
abbrev pub Reorders : Bool → Blocks → Result (Label × Blocks) → Type 0
Reorders has_unreachable B (fault _) = (k : ℕ) → Memᴰ k (keys B) → has_pred (copy k) B ≡ true
Reorders has_unreachable B (ok (copy e, B')) =
    (has_pred (copy e) B ≡ false)
    × ((cs : List Clone) × (rest : Blocks) × (Map.find e B ≡ some cs) × (B' ≡ (e, cs) ∷ rest))
    × ((k : ℕ) → Map.find k B' ≡ Map.find k B)
Reorders has_unreachable B (ok (unreachable_block, B')) =
    (has_unreachable ≡ true) × (has_pred unreachable_block B ≡ false) × (B' ≡ B)
Reorders has_unreachable B (ok (original b, B')) = false ≡ true

-- The entry that `reorderBlocks` finds has no predecessor. It is the block for the unreachable targets,
-- where the delegate has one, or a copied block of the delegate, which is then the first; no copied
-- block is changed. It finds none, and reads a null pointer, only where every copied block has a
-- predecessor.
pub reorder_blocks_lem :
    (has_unreachable : Bool) (B : Blocks)
    → Reorders has_unreachable B (reorder_blocks has_unreachable B)
unfolding reorder_blocks real_entry
reorder_blocks_lem has_unreachable B =
    elim (Bool-cases (has_unreachable && not (has_pred unreachable_block B))) [
      | inl alone ↦
          rw (alone, reorder_blocks, real_entry)
            (ground arith, ground arith, unfold move_first in refl)
      | inr joined ↦ elim (Option-cases (last_without_preds B none B)) [
        | inl full ↦
            rw (joined, reorder_blocks, real_entry, full) (last_without_preds-none B none B full).1
        | inr (e, found) ↦
            rw (joined, reorder_blocks, real_entry, found)
              (let (free, cs, at) =
                  ⊎_elim (λ q. cc q) (λ p. p) (last_without_preds-some B none B e found) in
                (
                  free,
                  (cs, without e B, at, move_first-found e cs B at),
                  λ k. find-move_first k (copy e) B,
                ))
      ]
    ]

-- After `addReturnValue` the block of the criterion returns, and every other block is as it was.
pub add_return_value_lem :
    (initial exit k : ℕ) (B : Blocks) (cs : List Clone)
    → Map.find k (add_return_value initial exit B) ≡ some cs
    → ((exit ≡ k) × (terminator cs ≡ some ret)) ⊎ (Map.find k B ≡ some cs)
unfolding add_return_value
add_return_value_lem initial exit k B cs e = elim (Bool-cases (exit == k)) [
  | inl hit ↦ elim (Option-cases (Map.find k B)) [
    | inl gone ↦ ground (arith, find-modify exit k (add_return initial) B)
    | inr (ds, at) ↦
        let after : add_return initial ds ≡ cs =
          ground (arith, find-modify exit k (add_return initial) B) in
        inl ((==_iff exit k).0 hit, rw (← after) (ends ds))
  ]
  | inr miss ↦ inr (ground (arith, find-modify exit k (add_return initial) B))
]
  where
    ends : (ds : List Clone) → terminator (add_return initial ds) ≡ some ret
    ends ds = elim (Option-cases (terminator ds)) [
      | inl open_end ↦
          unfold add_return return_of in
          rw (open_end, add_return) (terminator_snoc (return_of initial) ds)
      | inr (t, e) ↦
          unfold add_return return_of in
          rw (e, add_return) (terminator_snoc (return_of initial) (drop_last ds))
    ]
