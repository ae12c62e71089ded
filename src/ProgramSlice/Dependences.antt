-- ===== src/ProgramSlice/Dependences.antt =====
-- `get_data_dependences_for` of passes/ProgramSlice.cpp: a worklist over the operands of
-- instructions and the gates of phi nodes.
pub mod Pushes
pub mod Closure
pub mod Rounds
pub mod Work
pub mod Blocks
pub mod Criterion
pub mod Lookup
use wyvern.Base.{
  ℕ, zero, suc, ◌+◌, ◌≡◌, ◌↔◌, refl, Bool, true, false, not, ◌&&◌, ◌||◌, List, [], ◌∷◌, ◌++◌,
  Option, none, some, arith, ltb, ◌==◌, if◌then◌else◌, length, map, get_or,
}
use wyvern.Base.Map.{Set, KeyOrder, contains, add, nat_order}
use wyvern.Ir.{
  Value, inst, argument, constant, Opcode, phi, Instruction, Block, Function, same_value, is_phi,
}

abbrev kind : Value → ℕ
kind (inst a) = 0
kind (argument a) = 1
kind (constant a) = 2

abbrev address : Value → ℕ
address (inst a) = a
address (argument a) = a
address (constant a) = a

pub same_value_iff : (u v : Value) → (same_value u v ≡ true) ↔ (u ≡ v)
same_value_iff (inst a) v = ground arith
same_value_iff (argument a) v = ground arith
same_value_iff (constant a) v = ground arith

instance abbrev pub value_order : KeyOrder Value
value_order = record {
  same = same_value;
  before = λ u v. ltb (kind u) (kind v) || (kind u == kind v && ltb (address u) (address v));
  same_iff = same_value_iff;
}

-- The instruction at an address, with `getParent()`: its block.
unfoldable pub find_in : ℕ → ℕ → Block → Option (ℕ × Instruction)
find_in b a [] = none
find_in b a (I ∷ rest) = if I.id == a then some (b, I) else find_in b a rest

unfoldable pub find_from : ℕ → ℕ → List Block → Option (ℕ × Instruction)
find_from b a [] = none
find_from b a (BB ∷ rest) = elim (find_in b a BB) [
  | some r ↦ some r
  | none ↦ find_from (suc b) a rest
]

-- `dyn_cast<Instruction>(cur)`
unfoldable pub as_instruction : Function → Value → Option (ℕ × Instruction)
as_instruction F (inst a) = find_from 0 a F.blocks
as_instruction F _ = none

-- `isa<Instruction>(U) || isa<Argument>(U)`
abbrev pub is_local : Value → Bool
is_local (inst a) = true
is_local (argument a) = true
is_local (constant a) = false

-- The loop over the operands.
pub push_operands : List Value → Set Value → List Value → Set Value × List Value
push_operands [] visited queue = (visited, queue)
push_operands (u ∷ us) visited queue = elim (not (is_local u) || contains u visited) [
  | true ↦ push_operands us visited queue
  | false ↦ push_operands us (add u visited) (queue ++ u ∷ [])
]

-- The loop over the gates, which does not mark what it pushes.
pub push_gates : List (Option Value) → Set Value → List Value → List Value
push_gates [] visited queue = queue
push_gates (none ∷ gs) visited queue = push_gates gs visited queue
push_gates (some g ∷ gs) visited queue =
    push_gates gs visited (if contains g visited then queue else queue ++ g ∷ [])

pub add_blocks : List ℕ → Set ℕ → Set ℕ
add_blocks [] bbs = bbs
add_blocks (b ∷ bs) bbs = add_blocks bs (add b bbs)

-- The variables of the loop.
pub record Search : Type 0 where
  pub deps : Set Value
  pub bbs : Set ℕ
  pub visited : Set Value
  pub to_visit : List Value

-- The gates of each block, by its position: a pointer for each gate.
abbrev pub Gates : Type 0
Gates = List (List (Option Value))

abbrev pub incoming : Opcode → List ℕ
incoming (phi bs) = bs
incoming _ = []

-- `gates[PN->getParent()]` where the instruction is a phi node.
abbrev pub gates_for : Gates → ℕ → Opcode → List (Option Value)
gates_for gates b (phi _) = get_or gates b []
gates_for gates b _ = []

module _ (F : Function) (gates : Gates) where
  -- One round, after `cur` left the queue.
  pub visit : Value → List Value → Search → Search
  visit cur rest s = elim (as_instruction F cur) [
    | none ↦ record s { deps = add cur s.deps; to_visit = rest }
    | some (b, I) ↦
        let (visited, queue) = push_operands I.operands s.visited rest in
        record s {
          deps = add cur s.deps;
          bbs = add_blocks (incoming I.opcode) (add b s.bbs);
          visited = visited;
          to_visit = push_gates (gates_for gates b I.opcode) visited queue;
        }
  ]

  -- `while (!to_visit.empty())` on the queue of `s`; `none` means that the rounds ran out.
  pub rounds : ℕ → List Value → Search → Option Search
  rounds fuel [] s = some s
  rounds zero (cur ∷ rest) s = none
  rounds (suc fuel) (cur ∷ rest) s = let next = visit cur rest s in rounds fuel next.to_visit next

  pub first_search : Value → Search
  first_search I = record { deps = add I []; bbs = []; visited = []; to_visit = I ∷ [] }

-- The arguments of a function, from position i on, and its instructions.
unfoldable pub arguments_from : ℕ → List ℕ → List Value
arguments_from i [] = []
arguments_from i (_ ∷ types) = argument i ∷ arguments_from (suc i) types

unfoldable pub values_of : List Block → List Value
values_of [] = []
values_of (BB ∷ rest) = map (λ I. inst I.id) BB ++ values_of rest

unfoldable pub values : Function → List Value
values F = arguments_from 0 F.arg_types ++ values_of F.blocks
