-- ===== src/ProgramSlice/Delegate/Finish/Uses.antt =====
-- What the instructions of a delegate use, passes/ProgramSlice.cpp: after `reorganizeUses` and
-- `insertLoadForThunkParams` nothing of the sliced function is left.
use mathlib.Core.List.Memᴰ
use wyvern.Base.{
  ℕ, ◌≡◌, refl, ap, ◌∙◌, subst, ◌↔◌, ⊎_elim, inl, inr, true, not, ◌||◌, List, [], ◌∷◌, Memᴰ, some,
  map, any_some, any-mem, arith, ◌==◌, ==_iff, All, All-mem, Bool-cases,
}
use wyvern.Base.Map.{nat_order}
use wyvern.Ir.{Value, inst, argument, constant, Instruction, Block, Function, block_at}
use wyvern.ProgramSlice.Dependences.{as_instruction, is_local, values, Gates}
use wyvern.ProgramSlice.Dependences.Closure.{Depends, via, operand}
use wyvern.ProgramSlice.Dependences.Work.{is_listed, IsScoped, find_from-All}
use wyvern.ProgramSlice.Dependences.Lookup.{
  IsUnique, last-mem, as_instruction-id, as_instruction-listed,
}
use wyvern.ProgramSlice.Control.{DomTree, compute_gates}
use wyvern.ProgramSlice.Control.Terminators.{IsAddressed}
use wyvern.ProgramSlice.Outline.{Slice, new_slice}
use wyvern.ProgramSlice.Outline.Contents.{new_slice_lem}
use wyvern.ProgramSlice.Delegate.{
  Operand, outer, clone, loaded, Clone, in_slice, clone_of, clones, reorganize_operand,
  reorganize_clone,
}
use wyvern.ProgramSlice.Delegate.Reroute.Result.{copied}
use wyvern.ProgramSlice.Delegate.Finish.{load_operand, load_clone}

-- An operand that the delegate has: a clone of an instruction of the slice, a loaded argument of the
-- slice, or a constant.
abbrev pub IsOwn : Function → Slice → Operand → Type 0
IsOwn F S (outer (inst a)) = ⊥
IsOwn F S (outer (argument i)) = ⊥
IsOwn F S (outer (constant c)) = Unit
IsOwn F S (clone a) = in_slice F S a ≡ true
IsOwn F S (loaded i) = Memᴰ i S.dep_args

-- The slice holds what its instructions use.
abbrev pub Supplies : Function → Slice → Value → Type 0
Supplies F S (inst a) = in_slice F S a ≡ true
Supplies F S (argument i) = Memᴰ i S.dep_args
Supplies F S (constant c) = Unit

module _ (F : Function) (S : Slice) where
  IsOwn-operand :
      (u : Value)
      → Supplies F S u
      → IsOwn F S (load_operand S.dep_args (reorganize_operand F S (outer u)))
  unfolding load_operand reorganize_operand
  IsOwn-operand (inst a) s = rw (s, reorganize_operand) s
  IsOwn-operand (argument i) s = rw (any-mem (λ j. j == i) S.dep_args i s (ground arith)) s
  IsOwn-operand (constant c) s = tt

  IsOwn-operands :
      (us : List Value)
      → ((u : Value) → Memᴰ u us → Supplies F S u)
      → All
          (IsOwn F S)
          (map (load_operand S.dep_args) (map (reorganize_operand F S) (map outer us)))
  IsOwn-operands [] h = tt
  IsOwn-operands (u ∷ us) h =
      (IsOwn-operand u (h u (Memᴰ.head refl)), IsOwn-operands us (λ v m. h v (Memᴰ.tail m)))

  -- The instruction that was copied.
  copied_from :
      (BB : Block) (c : Clone)
      → Memᴰ c (map (reorganize_clone F S) (clones F S BB))
      → (I : Instruction) × Memᴰ I BB
        × (in_slice F S I.id ≡ true)
        × (c ≡ reorganize_clone F S (clone_of I))
  unfolding clones
  copied_from [] c m = absurd (Memᴰ.not-nil m)
  copied_from (I ∷ rest) c m = elim (Bool-cases (in_slice F S I.id)) [
    | inl kept ↦
        ⊎_elim (λ e. (I, Memᴰ.head refl, kept, e))
          (λ q. let (J, at, k, e) = copied_from rest c q in (J, Memᴰ.tail at, k, e))
          (Memᴰ.cases_cons (rw (kept, clones) at m))
    | inr left ↦
        let (J, at, k, e) = copied_from rest c (rw (left, clones) at m) in (J, Memᴰ.tail at, k, e)
  ]

  IsOwn-copies :
      (k : ℕ) (c : Clone)
      → ((I : Instruction)
          → Memᴰ I (block_at F k)
          → in_slice F S I.id ≡ true
          → (u : Value) → Memᴰ u I.operands
          → Supplies F S u)
      → Memᴰ c (copied F S k)
      → All (IsOwn F S) (load_clone S.dep_args c).operands
  unfolding load_clone reorganize_clone clone_of
  IsOwn-copies k c h m =
      let (I, at, kept, e) = copied_from (block_at F k) c m in
      rw e (IsOwn-operands I.operands (h I at kept))

scoped_operand :
    (F : Function) (gates : Gates) (b : ℕ) (I : Instruction) (u : Value)
    → IsScoped F gates
    → as_instruction F (inst I.id) ≡ some (b, I)
    → Memᴰ u I.operands
    → (not (is_local u) || is_listed F gates u (values F)) ≡ true
unfolding as_instruction
scoped_operand F gates b I u scoped at m =
    let P = λ (v : Value). (not (is_local v) || is_listed F gates v (values F)) ≡ true in
    All-mem P u I.operands
      (find_from-All F gates (λ (K : Instruction). All P K.operands) 0 I.id F.blocks b I scoped at)
      m

IsUnique-IsAddressed : (F : Function) → IsUnique F → IsAddressed F
IsUnique-IsAddressed F unique b I e = (b, unique b I (last-mem (block_at F b) I e))

-- A slice that holds what the criterion depends on supplies its own instructions.
module _ (F : Function) (gates : Gates) (I : Value) (S : Slice) (scoped : IsScoped F gates)
    (unique : IsUnique F)
    (insts : (J : Instruction)
      → Memᴰ J S.insts
        ↔ ((v : Value) × Depends F gates I v × ((b : ℕ) × (as_instruction F v ≡ some (b, J)))))
    (args : (i : ℕ) → Memᴰ i S.dep_args ↔ Depends F gates I (argument i)) where
  in_slice-Depends : (J : Instruction) → in_slice F S J.id ≡ true → Depends F gates I (inst J.id)
  in_slice-Depends J kept =
      let (K, at, hit) = any_some (λ (L : Instruction). L.id == J.id) S.insts kept in
      let (v, d, (b, found)) = (insts K).0 at in
      let address : v ≡ inst J.id =
        as_instruction-id F v b K found ∙ ap inst ((==_iff K.id J.id).0 hit) in
      subst (Depends F gates I) address d

  supplies :
      (k : ℕ) (J : Instruction)
      → Memᴰ J (block_at F k)
      → in_slice F S J.id ≡ true
      → (u : Value) → Memᴰ u J.operands
      → Supplies F S u
  supplies k J at kept (inst a) m =
      let here = unique k J at in
      let d = via (in_slice-Depends J kept) (operand here m refl) in
      let ((b, K), found) =
        as_instruction-listed F gates a (scoped_operand F gates k J (inst a) scoped here m) in
      let address = as_instruction-id F (inst a) b K found in
      any-mem (λ (L : Instruction). L.id == a) S.insts K ((insts K).1 (inst a, d, (b, found)))
        (ground arith)
  supplies k J at kept (argument i) m =
      (args i).1 (via (in_slice-Depends J kept) (operand (unique k J at) m refl))
  supplies k J at kept (constant c) m = tt

-- In a function whose operands are its own and whose instructions are at addresses of their own, the
-- constructor makes a slice, and the copies of its instructions use only clones of instructions of
-- the slice, arguments of the slice that the thunk supplies, and constants.
pub own_uses_lem :
    (F : Function) (DT PDT : DomTree) (preds : ℕ → List ℕ) (I : Value)
    → IsScoped F (compute_gates F DT PDT preds)
    → IsUnique F
    → (S : Slice) × (new_slice F DT PDT preds I ≡ some S)
      × ((k : ℕ) (c : Clone)
          → Memᴰ c (copied F S k)
          → All (IsOwn F S) (load_clone S.dep_args c).operands)
own_uses_lem F DT PDT preds I scoped unique =
    let gates = compute_gates F DT PDT preds in
    let (S, made, insts, args, blocks) =
      new_slice_lem F DT PDT preds I scoped (IsUnique-IsAddressed F unique) in
    (S, made, λ k c. IsOwn-copies F S k c (supplies F gates I S scoped unique insts args k))
