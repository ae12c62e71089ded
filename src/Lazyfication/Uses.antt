-- ===== src/Lazyfication/Uses.antt =====
-- updateThunkArgUses of passes/Lazyfication.cpp, as an edit of a function's blocks: a call of the
-- thunk for each use of a value. `n` is the first address that no instruction has.
pub mod Replaced
pub mod Kept
pub mod Examples
use wyvern.Base.{
  ℕ, zero, suc, ◌+◌, ◌≡◌, Bool, true, false, List, [], ◌∷◌, ◌++◌, Option, none, some, if◌then◌else◌,
}
use wyvern.Ir.{
  Value, inst, Callee, Opcode, phi, call, load, other, Instruction, Block, Function, same_value,
}

-- The code for one use: in the caller a call of the delegate, and in the callee the load of the
-- function's pointer from the thunk and a call through it. The last instruction is the value.
unfoldable pub thunk_code : Bool → Value → Callee → ℕ → List Instruction × (ℕ × ℕ)
thunk_code false thunk delegate n =
    (record { id = n; opcode = call (some delegate); operands = thunk ∷ [] } ∷ [], (n, n + 1))
thunk_code true thunk delegate n = (
  record { id = n; opcode = other; operands = thunk ∷ [] }
      ∷ record { id = n + 1; opcode = load; operands = inst n ∷ [] }
      ∷ record { id = n + 2; opcode = call none; operands = thunk ∷ inst (n + 1) ∷ [] }
      ∷ [],
  (n + 2, n + 3),
)

-- Code that goes to the end of a block, in front of its terminator.
abbrev pub Edges : Type 0
Edges = List (ℕ × List Instruction)

unfoldable pub before_last : List Instruction → Block → Block
before_last code [] = code
before_last code (I ∷ []) = code ++ I ∷ []
before_last code (I ∷ J ∷ rest) = I ∷ before_last code (J ∷ rest)

unfoldable pub insert_edge : ℕ → List Instruction → List Block → List Block
insert_edge b code [] = []
insert_edge zero code (BB ∷ rest) = before_last code BB ∷ rest
insert_edge (suc b) code (BB ∷ rest) = BB ∷ insert_edge b code rest

unfoldable pub insert_edges : Edges → List Block → List Block
insert_edges [] blocks = blocks
insert_edges ((b, code) ∷ rest) blocks = insert_edges rest (insert_edge b code blocks)

module _ (is_callee : Bool) (thunk : Value) (delegate : Callee) (to_replace : Value) where
  -- The uses of one instruction: the operands that it gets, the code for each, and the next address.
  unfoldable pub replace_operands : ℕ → List Value → List Value × (List Instruction × ℕ)
  replace_operands n [] = ([], ([], n))
  replace_operands n (u ∷ us) = elim (same_value to_replace u) [
    | true ↦
        let (code, (result, next)) = thunk_code is_callee thunk delegate n in
        let (us', (rest, last)) = replace_operands next us in
        (inst result ∷ us', (code ++ rest, last))
    | false ↦ let (us', rest) = replace_operands n us in (u ∷ us', rest)
  ]

  -- The uses of a phi node happen at its edges.
  unfoldable pub replace_edges : ℕ → List Value → List ℕ → List Value × (Edges × ℕ)
  replace_edges n (u ∷ us) (b ∷ bs) = elim (same_value to_replace u) [
    | true ↦
        let (code, (result, next)) = thunk_code is_callee thunk delegate n in
        let (us', (rest, last)) = replace_edges next us bs in
        (inst result ∷ us', ((b, code) ∷ rest, last))
    | false ↦ let (us', rest) = replace_edges n us bs in (u ∷ us', rest)
  ]
  replace_edges n us bs = ([], ([], n))

  -- One instruction, behind the code for its uses, and the code for the edges.
  unfoldable pub update_inst : Opcode → Instruction → ℕ → Block × (Edges × ℕ)
  update_inst (phi bs) I n =
      let (vs, rest) = replace_edges n I.operands bs in (record I { operands = vs } ∷ [], rest)
  update_inst _ I n =
      let (vs, (code, next)) = replace_operands n I.operands in
      (code ++ record I { operands = vs } ∷ [], ([], next))

  unfoldable pub update_block : ℕ → Block → Block × (Edges × ℕ)
  update_block n [] = ([], ([], n))
  update_block n (I ∷ B) =
      let (here, (edges, next)) = update_inst I.opcode I n in
      let (B', (rest, last)) = update_block next B in (here ++ B', (edges ++ rest, last))

  unfoldable pub update_blocks : ℕ → List Block → List Block × (Edges × ℕ)
  update_blocks n [] = ([], ([], n))
  update_blocks n (BB ∷ rest) =
      let (BB', (edges, next)) = update_block n BB in
      let (rest', (more, last)) = update_blocks next rest in (BB' ∷ rest', (edges ++ more, last))

  -- `updateThunkArgUses`
  unfoldable pub update_thunk_arg_uses : ℕ → Function → Function
  update_thunk_arg_uses n F =
      let (blocks, (edges, last)) = update_blocks n F.blocks in
      record F { blocks = insert_edges edges blocks }
