-- ===== src/ProgramSlice/Delegate/Finish.antt =====
-- The last steps of a delegate, passes/ProgramSlice.cpp: the end of `rerouteBranches`,
-- `updatePHINodes`, `addReturnValue`, `reorderBlocks`, the parameters of `insertLoadForThunkParams`,
-- and `outline`, which runs them all.
pub mod Phis
pub mod Uses
pub mod Entry
use wyvern.Base.{
  ℕ, zero, suc, ◌≡◌, Bool, true, false, not, ◌&&◌, ◌||◌, List, [], ◌∷◌, ◌++◌, Option, none, some,
  map, any, ◌==◌, if◌then◌else◌, get_elem?, length,
}
use wyvern.Base.Map
use wyvern.Base.Map.{nat_order}
use wyvern.Ir.{Value, argument, Function}
use wyvern.ProgramSlice.Control.{DomTree}
use wyvern.ProgramSlice.Outline.{Slice}
use wyvern.ProgramSlice.Delegate.{
  Label, original, copy, unreachable_block, Operand, outer, clone, loaded, Kind, phi, ret, Clone,
  Blocks, populate, reorganize_uses,
}
use wyvern.ProgramSlice.Delegate.Reroute.{terminator, labels, DomNode, reroute}

-- A read past the end of a phi node's incoming blocks, or of a null `realEntry`.
pub data Fault : Type 0 where
  stale_phi no_entry : Fault

pub data Result {ℓ} (A : Type ℓ) : Type ℓ where
  ok : A → Result A
  fault : Fault → Result A

infixl 5 ◌>>=◌
abbrev pub ◌>>=◌ {ℓ κ} : {A : Type ℓ} {B : Type κ} → Result A → (A → Result B) → Result B
ok a >>= f = f a
fault e >>= f = fault e

abbrev pub same_label : Label → Label → Bool
same_label (original a) (original b) = a == b
same_label (copy a) (copy b) = a == b
same_label unreachable_block unreachable_block = true
same_label _ _ = false

-- Whether a block ends in a jump to `l`.
unfoldable pub goes_to : Label → List Clone → Bool
goes_to l cs = any (same_label l) (labels (terminator cs))

-- `!BB.hasNPredecessors(0)`
unfoldable pub has_pred : Label → Blocks → Bool
has_pred l [] = false
has_pred l ((b, cs) ∷ rest) = goes_to l cs || has_pred l rest

-- `preds.count(incBB)`, for the predecessors of block `b`.
unfoldable pub is_pred : Blocks → ℕ → Label → Bool
is_pred blocks b (copy p) = elim (Map.find p blocks) [
  | none ↦ false
  | some cs ↦ goes_to (copy b) cs
]
is_pred blocks b _ = false

-- The incoming edges of a phi node.
abbrev pub Edges : Type 0
Edges = List (Label × Operand)

-- `PN->removeIncomingValue(incBB)`: the first edge from that block.
unfoldable pub remove_edge : Label → Edges → Edges
remove_edge l [] = []
remove_edge l ((m, v) ∷ rest) = if same_label l m then rest else (m, v) ∷ remove_edge l rest

-- The loop over the edges: `left` rounds with index `PI`. The bound is read once, before edges are
-- removed.
module _ (preds : Label → Bool) where
  unfoldable pub prune_edges : ℕ → ℕ → Edges → Result Edges
  prune_edges zero PI es = ok es
  prune_edges (suc left) PI es = elim (get_elem? es PI) [
    | none ↦ fault stale_phi
    | some (incBB, v) ↦ elim (preds incBB) [
      | true ↦ prune_edges left (suc PI) es
      | false ↦ prune_edges left (suc PI) (remove_edge incBB es)
    ]
  ]

unfoldable pub zip_edges : List Label → List Operand → Edges
zip_edges (l ∷ ls) (v ∷ vs) = (l, v) ∷ zip_edges ls vs
zip_edges _ _ = []

-- The phi nodes at the start of a block. A phi node without edges is erased.
unfoldable pub prune_phis : (Label → Bool) → List Clone → Result (List Clone)
prune_phis preds [] = ok []
prune_phis preds (c ∷ rest) = elim c.kind [
  | phi ls ↦ do
    edges ← prune_edges preds (length ls) 0 (zip_edges ls c.operands)
    rest' ← prune_phis preds rest
    ok (elim edges [
      | [] ↦ rest'
      | e ∷ es ↦
          record c {
            kind = phi (map (λ (x : Label × Operand). x.0) (e ∷ es));
            operands = map (λ (x : Label × Operand). x.1) (e ∷ es);
          }
          ∷ rest'
    ])
  | _ ↦ ok (c ∷ rest)
]

-- `updatePHINodes`; the first argument is the whole delegate, whose terminators stay as they are.
unfoldable pub update_phi_nodes : Blocks → Blocks → Result Blocks
update_phi_nodes all [] = ok []
update_phi_nodes all ((b, cs) ∷ rest) = do
  cs' ← prune_phis (is_pred all b) cs
  rest' ← update_phi_nodes all rest
  ok ((b, cs') ∷ rest')

-- `exit->getTerminator()->eraseFromParent()`, where there is one, and the new return.
unfoldable pub drop_last : List Clone → List Clone
drop_last [] = []
drop_last (c ∷ []) = []
drop_last (c ∷ d ∷ rest) = c ∷ drop_last (d ∷ rest)

unfoldable pub return_of : ℕ → Clone
return_of initial = record { source = none; kind = ret; operands = clone initial ∷ [] }

unfoldable pub add_return : ℕ → List Clone → List Clone
add_return initial cs = elim (terminator cs) [
  | none ↦ cs ++ return_of initial ∷ []
  | some _ ↦ drop_last cs ++ return_of initial ∷ []
]

-- `addReturnValue`; `exit` is the block of the criterion.
unfoldable pub add_return_value : ℕ → ℕ → Blocks → Blocks
add_return_value initial exit blocks = Map.modify exit (add_return initial) blocks

-- The loop of `reorderBlocks` over the copies: the last block that has no predecessors.
unfoldable pub last_without_preds : Blocks → Option ℕ → Blocks → Option ℕ
last_without_preds all entry [] = entry
last_without_preds all entry ((b, cs) ∷ rest) =
    last_without_preds all (if has_pred (copy b) all then entry else some b) rest

-- The unreachable block comes after the copies, so it is taken where it has no predecessors.
unfoldable pub real_entry : Bool → Blocks → Option Label
real_entry has_unreachable blocks =
    if has_unreachable && not (has_pred unreachable_block blocks)
    then some unreachable_block
    else elim (last_without_preds blocks none blocks) [ none ↦ none | some e ↦ some (copy e) ]

unfoldable pub without : ℕ → Blocks → Blocks
without k [] = []
without k ((b, cs) ∷ rest) = if b == k then rest else (b, cs) ∷ without k rest

unfoldable pub move_first : Label → Blocks → Blocks
move_first (copy e) blocks = elim (Map.find e blocks) [
  | none ↦ blocks
  | some cs ↦ (e, cs) ∷ without e blocks
]
move_first l blocks = blocks

-- `reorderBlocks`: the entry, and the blocks.
unfoldable pub reorder_blocks : Bool → Blocks → Result (Label × Blocks)
reorder_blocks has_unreachable blocks = elim (real_entry has_unreachable blocks) [
  | none ↦ fault no_entry
  | some e ↦ ok (e, move_first e blocks)
]

-- The uses of arguments that `insertLoadForThunkParams` replaces.
unfoldable pub load_operand : List ℕ → Operand → Operand
load_operand dep_args (outer (argument i)) =
    if any (λ j. j == i) dep_args then loaded i else outer (argument i)
load_operand dep_args o = o

unfoldable pub load_clone : List ℕ → Clone → Clone
load_clone dep_args c = record c { operands = map (load_operand dep_args) c.operands }

unfoldable pub insert_loads : List ℕ → Blocks → Blocks
insert_loads dep_args [] = []
insert_loads dep_args ((b, cs) ∷ rest) =
    (b, map (load_clone dep_args) cs) ∷ insert_loads dep_args rest

-- The delegate: its entry block, its blocks, and whether it has the block `_wyvern_unreachable`.
pub record Delegate : Type 0 where
  pub entry : Label
  pub blocks : Blocks
  pub has_unreachable : Bool

-- `outline`; `exit` is the block of the criterion `initial`.
unfoldable pub outline :
    Function → Slice → DomTree → DomNode → List (Option ℕ) → ℕ → ℕ → Result Delegate
outline F S DT root attractors initial exit = do
  let routed = reroute F S DT attractors root (reorganize_uses F S (populate F S S.bbs))
  let has_unreachable = has_pred unreachable_block routed
  updated ← update_phi_nodes routed routed
  (entry, ordered) ← reorder_blocks has_unreachable (add_return_value initial exit updated)
  ok (record {
    entry = entry;
    blocks = insert_loads S.dep_args ordered;
    has_unreachable = has_unreachable;
  })
