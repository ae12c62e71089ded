-- ===== src/ProgramSlice/Delegate/Examples.antt =====
-- The delegate of the phi node of a diamond, passes/ProgramSlice.cpp, and the theorems at it.
use mathlib.Core.List.Memᴰ
use wyvern.Base.{
  ℕ, ◌≡◌, refl, Bool, false, List, [], ◌∷◌, Memᴰ, Option, none, some, arith, All, All-mem, map,
  ◌==◌, if◌then◌else◌, zero, suc,
}
use wyvern.Base.Map
use wyvern.Base.Map.{nat_order}
use wyvern.Ir.{inst, argument, constant, Instruction, Opcode, other, block_at}
use wyvern.ProgramSlice.Dependences.{
  as_instruction, find_from, find_in, values, values_of, arguments_from,
}
use wyvern.ProgramSlice.Dependences.Work.{is_listed}
use wyvern.ProgramSlice.Dependences.Lookup.{IsUnique}
use wyvern.ProgramSlice.Control.Examples.{diamond, flat, diamond_preds}
use wyvern.ProgramSlice.Outline.{Slice, new_slice}
use wyvern.ProgramSlice.Delegate.{
  Label, original, copy, outer, clone, loaded, Kind, phi, branch, ret, plain, Clone, Blocks,
  populate, reorganize_uses, clones, clone_of, copy_label, reorganize_kind, reorganize_operand,
  reorganize_clone,
}
use wyvern.ProgramSlice.Delegate.Reroute.{
  terminator, labels, add_branch, set_successors, update_phis, DomNode, node, no_child, child,
  add_dom_branches, new_target, is_below, adopt, route_open, route_successors, route_block,
  route_blocks, keys, reroute,
}
use wyvern.ProgramSlice.Delegate.Reroute.Targets.{IsInside, target}
use wyvern.ProgramSlice.Delegate.Reroute.Result.{copied, reroute_lem}
use wyvern.ProgramSlice.Delegate.Finish.{
  ok, fault, stale_phi, Edges, goes_to, has_pred, is_pred, prune_edges, zip_edges, prune_phis,
  update_phi_nodes, return_of, add_return, add_return_value, last_without_preds, real_entry,
  without, move_first, reorder_blocks, load_operand, load_clone, insert_loads, Delegate, outline,
}
use wyvern.ProgramSlice.Delegate.Finish.Phis.{kept_edges, is_stale, prune_edges_lem}
use wyvern.ProgramSlice.Delegate.Finish.Uses.{IsOwn, own_uses_lem}
use wyvern.ProgramSlice.Delegate.Finish.Entry.{Reorders, reorder_blocks_lem}

abbrev pub root : DomNode
root = node 0 (child (node 1 no_child) (child (node 2 no_child) (child (node 3 no_child) no_child)))

abbrev pub slice : Slice
slice = record {
  insts =
      record { id = 1; opcode = other; operands = argument 0 ∷ constant 0 ∷ [] }
      ∷ record { id = 2; opcode = Opcode.branch (1 ∷ 2 ∷ []); operands = inst 1 ∷ [] }
      ∷ record { id = 3; opcode = other; operands = argument 1 ∷ [] }
      ∷ record { id = 6; opcode = Opcode.phi (1 ∷ 2 ∷ []); operands = inst 3 ∷ constant 7 ∷ [] }
      ∷ [];
  dep_args = 0 ∷ 1 ∷ [];
  bbs = (0, tt) ∷ (1, tt) ∷ (2, tt) ∷ (3, tt) ∷ [];
}

abbrev pub attractors : List (Option ℕ)
attractors = some 0 ∷ some 1 ∷ some 2 ∷ some 3 ∷ []

-- The blocks 1 and 2 lost their branches, which get back to block 3; block 3 returns the phi node.
abbrev pub delegate : Delegate
delegate = record {
  entry = copy 0;
  blocks =
      (
        0,
        record {
          source = some 1;
          kind = plain other;
          operands = loaded 0 ∷ outer (constant 0) ∷ [];
        }
            ∷ record {
              source = some 2;
              kind = branch (copy 1 ∷ copy 2 ∷ []);
              operands = clone 1 ∷ [];
            }
            ∷ [],
      )
      ∷ (
        1,
        record { source = some 3; kind = plain other; operands = loaded 1 ∷ [] }
            ∷ record { source = none; kind = branch (copy 3 ∷ []); operands = [] }
            ∷ [],
      )
      ∷ (2, record { source = none; kind = branch (copy 3 ∷ []); operands = [] } ∷ [])
      ∷ (
        3,
        record {
          source = some 6;
          kind = phi (copy 1 ∷ copy 2 ∷ []);
          operands = clone 3 ∷ outer (constant 7) ∷ [];
        }
            ∷ record { source = none; kind = ret; operands = clone 6 ∷ [] }
            ∷ [],
      )
      ∷ [];
  has_unreachable = false;
}

pub outline_run : outline diamond slice (flat 0) root attractors 6 3 ≡ ok delegate
unfolding outline populate clones clone_of reorganize_uses reorganize_clone reorganize_kind
    reorganize_operand copy_label reroute add_dom_branches route_blocks route_block route_open
    route_successors new_target add_branch set_successors terminator update_phis adopt is_below keys
    update_phi_nodes prune_phis prune_edges zip_edges is_pred goes_to has_pred add_return_value
    add_return return_of reorder_blocks real_entry last_without_preds move_first without
    insert_loads load_clone load_operand Map.modify Map.find Map.contains
outline_run = refl

abbrev rerouted : Blocks
rerouted =
    reroute diamond slice (flat 0) attractors root
      (reorganize_uses diamond slice (populate diamond slice slice.bbs))

abbrev block_zero : List Clone
block_zero =
    record {
      source = some 1;
      kind = plain other;
      operands = outer (argument 0) ∷ outer (constant 0) ∷ [];
    }
    ∷ record { source = some 2; kind = branch (copy 1 ∷ copy 2 ∷ []); operands = clone 1 ∷ [] }
    ∷ []

found_zero : Map.find 0 rerouted ≡ some block_zero
unfolding populate clones clone_of reorganize_uses reorganize_clone reorganize_kind
    reorganize_operand copy_label reroute add_dom_branches route_blocks route_block route_open
    route_successors new_target add_branch set_successors terminator update_phis adopt is_below keys
    Map.modify Map.find Map.contains
found_zero = refl

reroute_lem_example :
    All (IsInside diamond slice (flat 0) attractors) (labels (terminator block_zero))
    × ((t : Kind)
        → terminator (copied diamond slice 0) ≡ some t
        → (t' : Kind) × (terminator block_zero ≡ some t')
          × (labels (some t') ≡ map (target diamond slice (flat 0) attractors) (labels (some t))))
reroute_lem_example = reroute_lem diamond slice (flat 0) attractors root 0 block_zero found_zero

-- The first of two edges is from no predecessor.
abbrev from_one : Label → Bool
from_one (copy p) = p == 1
from_one l = false

abbrev edges : Edges
edges = (original 5, clone 3) ∷ (copy 1, clone 4) ∷ []

prune_edges_lem_example :
    prune_edges from_one 2 0 edges
    ≡ (if is_stale from_one edges then fault stale_phi else ok (kept_edges from_one edges))
prune_edges_lem_example = prune_edges_lem from_one edges

reorder_blocks_lem_example : Reorders false delegate.blocks (reorder_blocks false delegate.blocks)
reorder_blocks_lem_example = reorder_blocks_lem false delegate.blocks

abbrev At : ℕ → Instruction → Type 0
At b I = as_instruction diamond (inst I.id) ≡ some (b, I)

diamond-IsUnique : IsUnique diamond
unfolding as_instruction find_from find_in
diamond-IsUnique zero I m = All-mem (At 0) I (block_at diamond 0) (refl, (refl, tt)) m
diamond-IsUnique (suc zero) I m = All-mem (At 1) I (block_at diamond 1) (refl, (refl, tt)) m
diamond-IsUnique (suc (suc zero)) I m = All-mem (At 2) I (block_at diamond 2) (refl, tt) m
diamond-IsUnique (suc (suc (suc zero))) I m =
    All-mem (At 3) I (block_at diamond 3) (refl, (refl, tt)) m
diamond-IsUnique (suc (suc (suc (suc b)))) I m = absurd (Memᴰ.not-nil m)

own_uses_lem_example :
    (S : Slice) × (new_slice diamond (flat 0) (flat 3) diamond_preds (inst 6) ≡ some S)
    × ((k : ℕ) (c : Clone)
        → Memᴰ c (copied diamond S k)
        → All (IsOwn diamond S) (load_clone S.dep_args c).operands)
unfolding values values_of arguments_from is_listed
own_uses_lem_example =
    own_uses_lem diamond (flat 0) (flat 3) diamond_preds (inst 6) (ground arith) diamond-IsUnique
