-- ===== src/Lazyfication/Caller.antt =====
-- The caller of a lazified call: what lazifyCallsite of passes/Lazyfication.cpp does to the caller's
-- blocks once the delegate and the callee's clone are there. `n` is the first address that no
-- instruction has.
pub mod Laws
pub mod Examples
use wyvern.Base.{
  ℕ, zero, suc, ◌+◌, Bool, true, false, List, [], ◌∷◌, ◌++◌, map, set, any, ◌==◌, if◌then◌else◌,
  length, some, ◌&&◌,
}
use wyvern.Ir.{
  Value, inst, argument, constant, Callee, call, store, load, alloca, other, Instruction, Block,
  Function, is_phi,
}
use wyvern.Thunk.Code.{
  Stored, function, constant_bit, variable, returned, Emitted, struct_gep, store_field, load_field,
  generate_thunk_initialization_code,
}
use wyvern.Lazyfication.Uses.{update_thunk_arg_uses}

-- An emitted instruction in the caller: the arguments of the slice are the caller's. The index of a
-- field is no operand here.
abbrev pub stored_value : Value → Stored → Value
stored_value result (function f) = constant f
stored_value result (constant_bit b) = constant (if b then 1 else 0)
stored_value result (variable a) = argument a
stored_value result returned = result

-- Emitted code as instructions; the stores are at the addresses from m on.
module _ (thunk result : Value) where
  unfoldable pub lower : ℕ → List Emitted → List Instruction
  lower m [] = []
  lower m (struct_gep a i ∷ es) =
      record { id = a; opcode = other; operands = thunk ∷ [] } ∷ lower m es
  lower m (store_field v a ∷ es) =
      record { id = m; opcode = store; operands = stored_value result v ∷ inst a ∷ [] }
      ∷ lower (suc m) es
  lower m (load_field r a ∷ es) =
      record { id = r; opcode = load; operands = inst a ∷ [] } ∷ lower m es

-- In front of `getFirstInsertionPt()`.
unfoldable pub insert_first : List Instruction → Block → Block
insert_first code [] = code
insert_first code (I ∷ B) = if is_phi I then I ∷ insert_first code B else code ++ I ∷ B

unfoldable pub insert_entry : List Instruction → List Block → List Block
insert_entry code [] = []
insert_entry code (BB ∷ rest) = insert_first code BB ∷ rest

-- In front of the instruction at address a.
unfoldable pub insert_before : ℕ → List Instruction → Block → Block
insert_before a code [] = []
insert_before a code (I ∷ B) = if I.id == a then code ++ I ∷ B else I ∷ insert_before a code B

-- Where the thunk is initialized: at the first insertion point of the block of a phi node, and in
-- front of any other instruction.
unfoldable pub place_code : ℕ → List Instruction → Block → Block
place_code a code B =
    if any (λ (I : Instruction). I.id == a && is_phi I) B
    then insert_first code B
    else insert_before a code B

-- `setCalledFunction` and `setArgOperand`
unfoldable pub set_call : ℕ → ℕ → Callee → Value → Instruction → Instruction
set_call address index new_callee thunk I =
    if I.id == address
    then record I { opcode = call (some new_callee); operands = set I.operands index thunk }
    else I

-- The addresses: the alloca's, those of the initialization, and the first of the calls of the thunk.
-- There are no more instructions of the initialization than 4 and two for each argument.
abbrev pub first_store : ℕ → List ℕ → ℕ
first_store n args = suc n + (2 + length args)

abbrev pub first_call : ℕ → List ℕ → ℕ
first_call n args = first_store n args + (2 + length args)

-- The alloca at the entry, and the initialization.
unfoldable pub prepare_caller : Bool → ℕ → ℕ → List ℕ → ℕ → Function → Function
prepare_caller memo lazyfiable_arg delegate_function args n F =
    let init =
      lower (inst n) (inst n) (first_store n args)
        (generate_thunk_initialization_code memo delegate_function args (suc n)) in
    let with_alloca =
      insert_entry (record { id = n; opcode = alloca; operands = [] } ∷ []) F.blocks in
    record F { blocks = map (place_code lazyfiable_arg init) with_alloca }

-- The call of the clone, and the calls of the thunk.
unfoldable pub finish_caller : ℕ → ℕ → ℕ → ℕ → ℕ → List ℕ → ℕ → Function → Function
finish_caller address index lazyfiable_arg delegate_function new_callee args n F =
    update_thunk_arg_uses false (inst n) (Callee.function delegate_function) (inst lazyfiable_arg)
      (first_call n args)
      (record F {
        blocks = map (map (set_call address index (Callee.function new_callee) (inst n))) F.blocks;
      })

-- All the edits of the caller.
unfoldable pub lazify_caller : Bool → ℕ → ℕ → ℕ → ℕ → ℕ → List ℕ → ℕ → Function → Function
lazify_caller memo address index lazyfiable_arg delegate_function new_callee args n F =
    finish_caller address index lazyfiable_arg delegate_function new_callee args n
      (prepare_caller memo lazyfiable_arg delegate_function args n F)
