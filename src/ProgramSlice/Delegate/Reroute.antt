-- ===== src/ProgramSlice/Delegate/Reroute.antt =====
-- `addDomBranches` and `rerouteBranches` of passes/ProgramSlice.cpp: the control flow of a delegate,
-- up to `updatePHINodes`.
pub mod Edits
pub mod Targets
pub mod Routed
pub mod Steps
pub mod Closed
pub mod Result
use wyvern.Base.{
  ℕ, ◌≡◌, Bool, true, false, List, [], ◌∷◌, ◌++◌, Option, none, some, map, ◌==◌, if◌then◌else◌,
  get_or, not,
}
use wyvern.Base.Map
use wyvern.Base.Map.{Set, contains, nat_order}
use wyvern.Ir.{Opcode, Instruction, Function, block_at, last}
use wyvern.ProgramSlice.Control.{DomTree, climb}
use wyvern.ProgramSlice.Outline.{Slice}
use wyvern.ProgramSlice.Delegate.{
  Label, original, copy, unreachable_block, Kind, phi, branch, switch, ret, plain, Clone, Blocks,
}

-- The dominator tree by its children, as `for (DomTreeNode *child : *cur)` reads it. Each node is
-- the child of one node, so the set of visited nodes never holds a child that is met.
mutual
  pub data DomNode : Type 0 where
    node : ℕ → Children → DomNode

  pub data Children : Type 0 where
    no_child : Children
    child : DomNode → Children → Children

abbrev pub block_of : DomNode → ℕ
block_of (node b cs) = b

-- Whether an instruction ends a block.
abbrev pub is_terminator : Kind → Bool
is_terminator (phi _) = false
is_terminator (plain _) = false
is_terminator _ = true

abbrev pub as_terminator : Kind → Option Kind
as_terminator k = if is_terminator k then some k else none

-- `BB.getTerminator()`
unfoldable pub terminator : List Clone → Option Kind
terminator [] = none
terminator (c ∷ []) = as_terminator c.kind
terminator (c ∷ d ∷ rest) = terminator (d ∷ rest)

abbrev pub labels : Option Kind → List Label
labels (some (branch ls)) = ls
labels (some (switch ls)) = ls
labels _ = []

abbrev pub new_branch : Label → Clone
new_branch l = record { source = none; kind = branch (l ∷ []); operands = [] }

-- A branch at the end of a block that has no terminator.
unfoldable pub add_branch : Label → List Clone → List Clone
add_branch l cs = elim (terminator cs) [ none ↦ cs ++ new_branch l ∷ [] | some _ ↦ cs ]

abbrev pub set_labels : List Label → Kind → Kind
set_labels ls (branch _) = branch ls
set_labels ls (switch _) = switch ls
set_labels ls k = k

-- `setSuccessor` on each successor of the terminator.
unfoldable pub set_successors : List Label → List Clone → List Clone
set_successors ls [] = []
set_successors ls (c ∷ []) = record c { kind = set_labels ls c.kind } ∷ []
set_successors ls (c ∷ d ∷ rest) = c ∷ set_successors ls (d ∷ rest)

-- A change of the incoming blocks of the phi nodes of a block.
abbrev pub phi_kind : (Label → Label) → Kind → Kind
phi_kind f (phi ls) = phi (map f ls)
phi_kind f k = k

abbrev pub phi_labels : (Label → Label) → Clone → Clone
phi_labels f c = record c { kind = phi_kind f c.kind }

unfoldable pub update_phis : (Label → Label) → List Clone → List Clone
update_phis f cs = map (phi_labels f) cs

-- `replaceIncomingBlockWith(suc, &BB)`
unfoldable pub replace_incoming : ℕ → ℕ → Label → Label
replace_incoming succ BB (original b) = if b == succ then copy BB else original b
replace_incoming succ BB l = l

-- `suc->replaceUsesWithIf(unreachableBlock, …)`: a block is used by the terminators that name it.
unfoldable pub cut_label : ℕ → Label → Label
cut_label succ (original b) = if b == succ then unreachable_block else original b
cut_label succ l = l

unfoldable pub cut_kind : ℕ → Kind → Kind
cut_kind succ (branch ls) = branch (map (cut_label succ) ls)
cut_kind succ (switch ls) = switch (map (cut_label succ) ls)
cut_kind succ k = k

abbrev pub cut_clone : ℕ → Clone → Clone
cut_clone succ c = record c { kind = cut_kind succ c.kind }

unfoldable pub cut_uses : ℕ → Blocks → Blocks
cut_uses succ [] = []
cut_uses succ ((b, cs) ∷ rest) = (b, map (cut_clone succ) cs) ∷ cut_uses succ rest

abbrev pub branch_targets : Option Instruction → List ℕ
branch_targets none = []
branch_targets (some I) = elim I.opcode [ Opcode.branch bs ↦ bs | _ ↦ [] ]

unfoldable pub keys : Blocks → List ℕ
keys [] = []
keys ((b, _) ∷ rest) = b ∷ keys rest

module _ (F : Function) (S : Slice) (DT : DomTree) (attractors : List (Option ℕ)) where
  unfoldable mutual
    -- `addDomBranches`
    pub add_dom_branches : DomNode → Option ℕ → Blocks → Blocks
    add_dom_branches (node cur children) parent blocks =
        add_child_branches children (if contains cur S.bbs then some cur else parent) blocks

    pub add_child_branches : Children → Option ℕ → Blocks → Blocks
    add_child_branches no_child parent blocks = blocks
    add_child_branches (child c rest) parent blocks =
        let inner = add_dom_branches c parent blocks in
        add_child_branches rest parent (elim parent [
          | none ↦ inner
          | some p ↦
              if contains (block_of c) S.bbs
              then Map.modify p (add_branch (copy (block_of c))) inner
              else inner
        ])

  -- `_origToNewBBmap[_attractors[suc]]`
  unfoldable pub new_target : ℕ → Option ℕ
  new_target succ = elim (get_or attractors succ none) [
    | none ↦ none
    | some t ↦ if contains t S.bbs then some t else none
  ]

  -- Whether a climb from the block above `b` meets `parentBB`.
  unfoldable pub is_below : ℕ → ℕ → Bool
  is_below parentBB b = elim (climb DT (λ d. d == parentBB) (DT.level b) (DT.idom b)) [
    | none ↦ false
    | some _ ↦ true
  ]

  -- The incoming blocks of the sliced function that `BB` strictly dominates come from its copy.
  unfoldable pub adopt : ℕ → Label → Label
  adopt BB (original b) = if is_below BB b then copy BB else original b
  adopt BB l = l

  -- A block without a terminator: a branch to the first successor of the original branch that has a
  -- target.
  unfoldable pub route_open : ℕ → List ℕ → Blocks → Blocks
  route_open BB [] blocks = blocks
  route_open BB (succ ∷ rest) blocks = elim (new_target succ) [
    | none ↦ route_open BB rest blocks
    | some t ↦ Map.modify t (update_phis (adopt BB)) (Map.modify BB (add_branch (copy t)) blocks)
  ]

  -- The loop over the successors of a terminator: the new successors, and the blocks with the phi
  -- nodes of the targets updated.
  unfoldable pub route_successors : ℕ → List Label → Blocks → List Label × Blocks
  route_successors BB [] blocks = ([], blocks)
  route_successors BB (original succ ∷ rest) blocks = elim (new_target succ) [
    | none ↦
        let (ls, blocks') = route_successors BB rest (cut_uses succ blocks) in
        (unreachable_block ∷ ls, blocks')
    | some t ↦
        let (ls, blocks') =
          route_successors BB rest (Map.modify t (update_phis (replace_incoming succ BB)) blocks) in
        (copy t ∷ ls, blocks')
  ]
  route_successors BB (l ∷ rest) blocks =
      let (ls, blocks') = route_successors BB rest blocks in (l ∷ ls, blocks')

  -- One round of the loop over the blocks of the delegate.
  unfoldable pub route_block : ℕ → Blocks → Blocks
  route_block BB blocks = elim (Map.find BB blocks) [
    | none ↦ blocks
    | some cs ↦ elim (terminator cs) [
      | none ↦ route_open BB (branch_targets (last (block_at F BB))) blocks
      | some k ↦
          let (ls, blocks') = route_successors BB (labels (some k)) blocks in
          Map.modify BB (set_successors ls) blocks'
    ]
  ]

  unfoldable pub route_blocks : List ℕ → Blocks → Blocks
  route_blocks [] blocks = blocks
  route_blocks (BB ∷ rest) blocks = route_blocks rest (route_block BB blocks)

  -- `rerouteBranches`, before the unreachable block is dropped and the phi nodes are updated.
  unfoldable pub reroute : DomNode → Blocks → Blocks
  reroute root blocks =
      let linked = add_dom_branches root none blocks in route_blocks (keys linked) linked
