-- ===== src/Lazyfication/Uses/Replaced.antt =====
-- What updateThunkArgUses, passes/Lazyfication.cpp, leaves of the uses of the value.
use wyvern.Base.{
  ℕ, zero, suc, ◌≤◌, ◌<◌, ◌≡◌, refl, Bool, true, false, List, [], ◌∷◌, ◌++◌, arith, any, All,
  All-append, Bool-cases, inl, inr,
}
use wyvern.Ir.{
  Value, inst, argument, constant, Callee, Opcode, phi, ret, branch, switch, call, store, load,
  alloca, other, Instruction, Block, Function, same_value,
}
use wyvern.Lazyfication.Uses.{
  thunk_code, Edges, before_last, insert_edge, insert_edges, replace_operands, replace_edges,
  update_inst, update_block, update_blocks, update_thunk_arg_uses,
}

-- An instruction that was there, at an address below n, does not use the value.
abbrev pub IsFree : ℕ → Value → Instruction → Type 0
IsFree n v I = I.id < n → any (same_value v) I.operands ≡ false

module _ (k : ℕ) (v : Value) where
  abbrev AllFree : Block → Type 0
  AllFree B = All (IsFree k v) B

  before_last-free :
      (code : List Instruction) (B : Block)
      → AllFree code
      → AllFree B
      → AllFree (before_last code B)
  unfolding before_last
  before_last-free code [] h g = h
  before_last-free code (I ∷ []) h g = All-append (IsFree k v) code (I ∷ []) h g
  before_last-free code (I ∷ J ∷ rest) h (p, g) = (p, before_last-free code (J ∷ rest) h g)

  insert_edge-free :
      (b : ℕ) (code : List Instruction) (Bs : List Block)
      → AllFree code
      → All AllFree Bs
      → All AllFree (insert_edge b code Bs)
  unfolding insert_edge
  insert_edge-free b code [] h g = tt
  insert_edge-free zero code (B ∷ Bs) h (p, g) = (before_last-free code B h p, g)
  insert_edge-free (suc b) code (B ∷ Bs) h (p, g) = (p, insert_edge-free b code Bs h g)

  abbrev EdgesFree : Edges → Type 0
  EdgesFree es = All (λ (x : ℕ × List Instruction). AllFree x.1) es

  insert_edges-free :
      (es : Edges) (Bs : List Block)
      → EdgesFree es
      → All AllFree Bs
      → All AllFree (insert_edges es Bs)
  unfolding insert_edges
  insert_edges-free [] Bs h g = g
  insert_edges-free ((b, code) ∷ es) Bs (p, h) g =
      insert_edges-free es (insert_edge b code Bs) h (insert_edge-free b code Bs p g)

code_free_of :
    (is_callee : Bool) (thunk : Value) (delegate : Callee) (k : ℕ) (v : Value) (n : ℕ)
    → k ≤ n
    → AllFree k v (thunk_code is_callee thunk delegate n).0
      × (k ≤ (thunk_code is_callee thunk delegate n).1.1)
      × (k ≤ (thunk_code is_callee thunk delegate n).1.0)
unfolding thunk_code
code_free_of false thunk delegate k v n h =
    (((λ e. absurd (omega (arith, e, h))), tt), omega (arith, h), h)
code_free_of true thunk delegate k v n h = (
  (
    (λ e. absurd (omega (arith, e, h))),
    ((λ e. absurd (omega (arith, e, h))), ((λ e. absurd (omega (arith, e, h))), tt)),
  ),
  omega (arith, h),
  omega (arith, h),
)

-- The value is no instruction at a new address.
abbrev pub IsOld : ℕ → Value → Type 0
IsOld k (inst a) = a < k
IsOld k (argument i) = Unit
IsOld k (constant c) = Unit

new_value : (k : ℕ) (v : Value) → IsOld k v → (m : ℕ) → k ≤ m → same_value v (inst m) ≡ false
new_value k (inst a) old m h = ground arith
new_value k (argument i) old m h = refl
new_value k (constant c) old m h = refl

module _ (is_callee : Bool) (thunk : Value) (delegate : Callee) (k : ℕ) (v : Value)
    (old : IsOld k v) where
  code_free :
      (n : ℕ)
      → k ≤ n
      → AllFree k v (thunk_code is_callee thunk delegate n).0
        × (k ≤ (thunk_code is_callee thunk delegate n).1.1)
        × (k ≤ (thunk_code is_callee thunk delegate n).1.0)
  code_free n h = code_free_of is_callee thunk delegate k v n h

  operands_free :
      (n : ℕ) (us : List Value)
      → k ≤ n
      → (any (same_value v) (replace_operands is_callee thunk delegate v n us).0 ≡ false)
        × AllFree k v (replace_operands is_callee thunk delegate v n us).1.0
        × (k ≤ (replace_operands is_callee thunk delegate v n us).1.1)
  unfolding replace_operands
  operands_free n [] h = (refl, tt, h)
  operands_free n (u ∷ us) h = elim (Bool-cases (same_value v u)) [
    | inl same ↦
        let (c1, c2, c3) = code_free n h in
        let t = thunk_code is_callee thunk delegate n in
        let (r1, r2, r3) = operands_free t.1.1 us c2 in
        rw (same, replace_operands)
          (
            rw (new_value k v old t.1.0 c3) r1,
            All-append (IsFree k v) t.0 (replace_operands is_callee thunk delegate v t.1.1 us).1.0
                c1 r2,
            r3,
          )
    | inr new ↦
        let (r1, r2, r3) = operands_free n us h in rw (new, replace_operands) (rw new r1, r2, r3)
  ]

  edges_free :
      (n : ℕ) (us : List Value) (bs : List ℕ)
      → k ≤ n
      → (any (same_value v) (replace_edges is_callee thunk delegate v n us bs).0 ≡ false)
        × EdgesFree k v (replace_edges is_callee thunk delegate v n us bs).1.0
        × (k ≤ (replace_edges is_callee thunk delegate v n us bs).1.1)
  unfolding replace_edges
  edges_free n [] bs h = (refl, tt, h)
  edges_free n (u ∷ us) [] h = (refl, tt, h)
  edges_free n (u ∷ us) (b ∷ bs) h = elim (Bool-cases (same_value v u)) [
    | inl same ↦
        let (c1, c2, c3) = code_free n h in
        let t = thunk_code is_callee thunk delegate n in
        let (r1, r2, r3) = edges_free t.1.1 us bs c2 in
        rw (same, replace_edges) (rw (new_value k v old t.1.0 c3) r1, (c1, r2), r3)
    | inr new ↦
        let (r1, r2, r3) = edges_free n us bs h in rw (new, replace_edges) (rw new r1, r2, r3)
  ]

  abbrev inst_at : Opcode → Instruction → ℕ → Block × (Edges × ℕ)
  inst_at o I n = update_inst is_callee thunk delegate v o I n

  abbrev Updated : Block × (Edges × ℕ) → Type 0
  Updated r = AllFree k v r.0 × EdgesFree k v r.1.0 × (k ≤ r.1.1)

  plain_free :
      (I : Instruction) (n : ℕ)
      → k ≤ n
      → (let r = replace_operands is_callee thunk delegate v n I.operands in
          Updated (r.1.0 ++ record I { operands = r.0 } ∷ [], ([], r.1.1)))
  plain_free I n h =
      let r = replace_operands is_callee thunk delegate v n I.operands in
      let (r1, r2, r3) = operands_free n I.operands h in
      (All-append (IsFree k v) r.1.0 (record I { operands = r.0 } ∷ []) r2 ((λ _. r1), tt), tt, r3)

  inst_free : (o : Opcode) (I : Instruction) (n : ℕ) → k ≤ n → Updated (inst_at o I n)
  unfolding update_inst
  inst_free (phi bs) I n h =
      let (r1, r2, r3) = edges_free n I.operands bs h in (((λ _. r1), tt), r2, r3)
  inst_free ret I n h = plain_free I n h
  inst_free (branch bs) I n h = plain_free I n h
  inst_free (switch bs) I n h = plain_free I n h
  inst_free (call c) I n h = plain_free I n h
  inst_free store I n h = plain_free I n h
  inst_free load I n h = plain_free I n h
  inst_free alloca I n h = plain_free I n h
  inst_free other I n h = plain_free I n h

  block_free : (n : ℕ) (B : Block) → k ≤ n → Updated (update_block is_callee thunk delegate v n B)
  unfolding update_block
  block_free n [] h = (tt, tt, h)
  block_free n (I ∷ B) h =
      let (h1, h2, h3) = inst_free I.opcode I n h in
      let r = inst_at I.opcode I n in
      let (g1, g2, g3) = block_free r.1.1 B h3 in
      let t = update_block is_callee thunk delegate v r.1.1 B in
      (
        All-append (IsFree k v) r.0 t.0 h1 g1,
        All-append (λ (x : ℕ × List Instruction). AllFree k v x.1) r.1.0 t.1.0 h2 g2,
        g3,
      )

  blocks_free :
      (n : ℕ) (Bs : List Block)
      → k ≤ n
      → All (AllFree k v) (update_blocks is_callee thunk delegate v n Bs).0
        × EdgesFree k v (update_blocks is_callee thunk delegate v n Bs).1.0
  unfolding update_blocks
  blocks_free n [] h = (tt, tt)
  blocks_free n (B ∷ Bs) h =
      let (h1, h2, h3) = block_free n B h in
      let r = update_block is_callee thunk delegate v n B in
      let (g1, g2) = blocks_free r.1.1 Bs h3 in
      let t = update_blocks is_callee thunk delegate v r.1.1 Bs in
      ((h1, g1), All-append (λ (x : ℕ × List Instruction). AllFree k v x.1) r.1.0 t.1.0 h2 g2)

-- With new addresses from n on, for a value that is no instruction at one of them: in the updated
-- function no instruction at an address below n uses the value.
pub update_thunk_arg_uses_lem :
    (is_callee : Bool) (thunk : Value) (delegate : Callee) (v : Value) (n : ℕ) (F : Function)
    → IsOld n v
    → All (All (IsFree n v)) (update_thunk_arg_uses is_callee thunk delegate v n F).blocks
unfolding update_thunk_arg_uses
update_thunk_arg_uses_lem is_callee thunk delegate v n F old =
    let r = update_blocks is_callee thunk delegate v n F.blocks in
    let (h1, h2) = blocks_free is_callee thunk delegate n v old n F.blocks (omega arith) in
    insert_edges-free n v r.1.0 r.0 h2 h1
