-- ===== src/ProgramSlice/Delegate.antt =====
-- The delegate function that `outline` of passes/ProgramSlice.cpp builds: its blocks and
-- instructions, and the steps that copy them from the sliced function.
pub mod Reroute
pub mod Finish
pub mod Header
pub mod Missing
pub mod Examples
use wyvern.Base.{
  ℕ, ◌≡◌, Bool, true, false, List, [], ◌∷◌, Option, none, some, map, any, ◌==◌, if◌then◌else◌,
  length,
}
use wyvern.Base.Map
use wyvern.Base.Map.{Set, contains, nat_order}
use wyvern.Ir.{Value, inst, argument, constant, Opcode, Instruction, Block, Function, block_at}
use wyvern.ProgramSlice.Outline.{Slice}

-- A block that a delegate's instruction names: one of the sliced function, the copy of one, or the
-- block `_wyvern_unreachable`.
pub data Label : Type 0 where
  original : ℕ → Label
  copy : ℕ → Label
  unreachable_block : Label

-- An operand: a value of the sliced function, the clone of one of its instructions, or a value that
-- is loaded from the thunk.
pub data Operand : Type 0 where
  outer : Value → Operand
  clone : ℕ → Operand
  loaded : ℕ → Operand

-- The instructions of a delegate that name blocks, and all others.
pub data Kind : Type 0 where
  phi : List Label → Kind
  branch : List Label → Kind
  switch : List Label → Kind
  ret : Kind
  plain : Opcode → Kind

-- `source` is the instruction that was cloned; a branch or return that was created has none.
pub record Clone : Type 0 where
  pub source : Option ℕ
  pub kind : Kind
  pub operands : List Operand

-- The blocks by the block that each is a copy of, in the order of the slice's set.
abbrev pub Blocks : Type 0
Blocks = List (ℕ × List Clone)

abbrev pub clone_kind : Opcode → Kind
clone_kind (Opcode.phi bs) = phi (map original bs)
clone_kind (Opcode.branch bs) = branch (map original bs)
clone_kind (Opcode.switch bs) = switch (map original bs)
clone_kind Opcode.ret = ret
clone_kind o = plain o

-- `origInst.clone()`
pub clone_of : Instruction → Clone
clone_of I = record {
  source = some I.id;
  kind = clone_kind I.opcode;
  operands = map outer I.operands;
}

module _ (F : Function) (S : Slice) where
  -- `_instsInSlice.count(&origInst)`
  abbrev pub in_slice : ℕ → Bool
  in_slice a = any (λ I. I.id == a) S.insts

  -- `populateBBsWithInsts` on one block
  pub clones : Block → List Clone
  clones [] = []
  clones (I ∷ rest) = if in_slice I.id then clone_of I ∷ clones rest else clones rest

  -- `populateFunctionWithBBs` and `populateBBsWithInsts`
  pub populate : Set ℕ → Blocks
  populate [] = []
  populate ((b, _) ∷ rest) = (b, clones (block_at F b)) ∷ populate rest

  -- The loop of `reorganizeUses` over the incoming blocks of a phi node.
  pub copy_label : Label → Label
  copy_label (original b) = if contains b S.bbs then copy b else original b
  copy_label l = l

  pub reorganize_kind : Kind → Kind
  reorganize_kind (phi ls) = phi (map copy_label ls)
  reorganize_kind k = k

  -- `originalInst->replaceUsesWithIf(newInst, …)`
  pub reorganize_operand : Operand → Operand
  reorganize_operand (outer (inst a)) = if in_slice a then clone a else outer (inst a)
  reorganize_operand o = o

  pub reorganize_clone : Clone → Clone
  reorganize_clone c = record c {
    kind = reorganize_kind c.kind;
    operands = map reorganize_operand c.operands;
  }

  -- `reorganizeUses`
  pub reorganize_uses : Blocks → Blocks
  reorganize_uses [] = []
  reorganize_uses ((b, cs) ∷ rest) = (b, map reorganize_clone cs) ∷ reorganize_uses rest
