-- ===== src/FindLazyfiable.antt =====
-- The analysis of passes/FindLazyfiable.cpp: which functions may return without the use of an
-- argument, and which calls pass a computed value. The `std::set`s of the analysis are `Set`s.
pub mod Dfs
pub mod Promising
pub mod MissingUses
pub mod Pass
pub mod Examples
use wyvern.Base.{
  ℕ, zero, suc, ◌≡◌, if◌then◌else◌, Bool, true, false, not, ◌&&◌, ◌||◌, List, [], ◌∷◌, Option, none,
  some, ◌==◌, length,
}
use wyvern.Base.Map.{Set, contains, add, nat_order, pair_order}
use wyvern.Ir.{
  Value, inst, argument, constant, Callee, function, dummy_fun, Opcode, call, Instruction, Block,
  Function, Module, block_at, successors, same_value, is_phi, is_return, is_declaration,
}

-- The member variables. A function is its position in the module, and a call its address.
pub record Analysis : Type 0 where
  pub promising_functions : Set ℕ
  pub promising_args : Set (ℕ × ℕ)
  pub callsites : Set (ℕ × ℕ)
  pub callsite_stats : Set (ℕ × ℕ)

pub has_operand : Value → List Value → Bool
has_operand v [] = false
has_operand v (u ∷ us) = same_value u v || has_operand v us

-- The inner loops of `DFS`: a use of `arg` by an instruction that is no phi node.
pub has_use : Value → Block → Bool
has_use arg [] = false
has_use arg (I ∷ rest) = (not (is_phi I) && has_operand arg I.operands) || has_use arg rest

-- The loop over the successors: those not yet visited are marked and pushed.
pub push_all : List ℕ → Set ℕ → List ℕ → Set ℕ × List ℕ
push_all [] visited st = (visited, st)
push_all (s ∷ ss) visited st = elim (contains s visited) [
  | true ↦ push_all ss visited st
  | false ↦ push_all ss (add s visited) (s ∷ st)
]

pub data Outcome : Type 0 where
  found exhausted out_of_fuel : Outcome

-- `while (!st.empty())`; the head of the list is the top of the stack.
module _ (F : Function) (exit : ℕ) (arg : Value) where
  pub search_loop : ℕ → Set ℕ → List ℕ → Outcome
  search_loop fuel visited [] = exhausted
  search_loop zero visited (cur ∷ st) = out_of_fuel
  search_loop (suc fuel) visited (cur ∷ st) = elim (has_use arg (block_at F cur)) [
    | true ↦ search_loop fuel visited st
    | false ↦ elim (cur == exit) [
      | true ↦ found
      | false ↦
          let (visited', st') = push_all (successors F cur) visited st in
          search_loop fuel visited' st'
    ]
  ]

  -- Each block is pushed once, so as many rounds as blocks are enough.
  pub dfs_outcome : ℕ → Outcome
  dfs_outcome first = search_loop (length F.blocks) (add first []) (first ∷ [])

-- `DFS`, with what it records.
pub dfs : ℕ → Function → ℕ → ℕ → ℕ → Analysis → Analysis
dfs f F first exit index A = elim (dfs_outcome F exit (argument index) first) [
  | found ↦ record A {
    promising_functions = add f A.promising_functions;
    promising_args = add (f, index) A.promising_args;
  }
  | _ ↦ A
]

pub has_return : Block → Bool
has_return [] = false
has_return (I ∷ rest) = is_return I || has_return rest

-- The last block with a return instruction; `b` is the position of the first block of the list.
pub exit_from : ℕ → Option ℕ → List Block → Option ℕ
exit_from b exit [] = exit
exit_from b exit (BB ∷ rest) = exit_from (suc b) (if has_return BB then some b else exit) rest

-- The loop over the arguments, from `index` on.
pub search_args : ℕ → Function → ℕ → ℕ → List ℕ → Analysis → Analysis
search_args f F exit index [] A = A
search_args f F exit index (_ ∷ rest) A =
    search_args f F exit (suc index) rest (dfs f F 0 exit index A)

-- `findLazyfiablePaths`. The entry block is the first.
pub find_lazyfiable_paths : ℕ → Function → Analysis → Analysis
find_lazyfiable_paths f F A = elim (exit_from 0 none F.blocks) [
  | none ↦ A
  | some exit ↦ search_args f F exit 0 F.arg_types A
]
