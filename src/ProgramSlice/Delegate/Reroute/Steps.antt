-- ===== src/ProgramSlice/Delegate/Reroute/Steps.antt =====
-- The steps of `rerouteBranches`, passes/ProgramSlice.cpp, keep what `Refines` says.

use wyvern.Base.{
  ℕ, ◌≡◌, refl, ap, inl, inr, true, List, [], ◌∷◌, Option, none, some, map, if◌then◌else◌,
  Bool-cases, Option-cases,
}
use wyvern.Base.Map
use wyvern.Base.Map.{contains, nat_order, find-modify}
use wyvern.Ir.{Function}
use wyvern.ProgramSlice.Control.{DomTree}
use wyvern.ProgramSlice.Outline.{Slice}
use wyvern.ProgramSlice.Delegate.{Label, original, copy, unreachable_block, Blocks}
use wyvern.ProgramSlice.Delegate.Reroute.{
  add_branch, update_phis, cut_uses, new_target, DomNode, node, Children, no_child, child, block_of,
  add_dom_branches, add_child_branches, adopt, replace_incoming, route_open, route_successors,
}
use wyvern.ProgramSlice.Delegate.Reroute.Targets.{target, new_target-in_slice}
use wyvern.ProgramSlice.Delegate.Reroute.Routed.{
  Refines, Refines-refl, Refines-trans, modify-Refines, update_phis-Routed, add_branch-Routed,
  cut_uses-Refines,
}

module _ (F : Function) (S : Slice) (DT : DomTree) (attractors : List (Option ℕ)) where
  phis_at :
      (j : ℕ) (f : Label → Label) (B : Blocks)
      → Refines F S DT attractors B (Map.modify j (update_phis f) B)
  phis_at j f B =
      modify-Refines F S DT attractors j (update_phis f) B
        (λ cs _. update_phis-Routed F S DT attractors f cs)

  branch_at :
      (j t : ℕ) (B : Blocks)
      → contains t S.bbs ≡ true
      → Refines F S DT attractors B (Map.modify j (add_branch (copy t)) B)
  branch_at j t B m =
      modify-Refines F S DT attractors j (add_branch (copy t)) B
        (λ cs _. add_branch-Routed F S DT attractors t cs m)

  mutual
    unfolding add_dom_branches add_child_branches

    pub add_dom_branches-Refines :
        (n : DomNode) (parent : Option ℕ) (B : Blocks)
        → Refines F S DT attractors B (add_dom_branches F S DT attractors n parent B)
    add_dom_branches-Refines (node cur cs) parent B =
        add_child_branches-Refines cs (if contains cur S.bbs then some cur else parent) B

    add_child_branches-Refines :
        (cs : Children) (parent : Option ℕ) (B : Blocks)
        → Refines F S DT attractors B (add_child_branches F S DT attractors cs parent B)
    add_child_branches-Refines no_child parent B = Refines-refl F S DT attractors B
    add_child_branches-Refines (child c rest) none B =
        let inner = add_dom_branches F S DT attractors c none B in
        Refines-trans F S DT attractors B inner
          (add_child_branches F S DT attractors rest none inner) (add_dom_branches-Refines c none B)
          (add_child_branches-Refines rest none inner)
    add_child_branches-Refines (child c rest) (some p) B =
        let inner = add_dom_branches F S DT attractors c (some p) B in
        elim (Bool-cases (contains (block_of c) S.bbs)) [
          | inl m ↦
              let linked = Map.modify p (add_branch (copy (block_of c))) inner in
              rw (m, add_child_branches)
                (Refines-trans F S DT attractors B inner
                  (add_child_branches F S DT attractors rest (some p) linked)
                  (add_dom_branches-Refines c (some p) B)
                  (Refines-trans F S DT attractors inner linked
                    (add_child_branches F S DT attractors rest (some p) linked)
                    (branch_at p (block_of c) inner m)
                    (add_child_branches-Refines rest (some p) linked)))
          | inr m ↦
              rw (m, add_child_branches)
                (Refines-trans F S DT attractors B inner
                  (add_child_branches F S DT attractors rest (some p) inner)
                  (add_dom_branches-Refines c (some p) B)
                  (add_child_branches-Refines rest (some p) inner))
        ]

  pub route_open-Refines :
      (BB : ℕ) (ss : List ℕ) (B : Blocks)
      → Refines F S DT attractors B (route_open F S DT attractors BB ss B)
  unfolding route_open
  route_open-Refines BB [] B = Refines-refl F S DT attractors B
  route_open-Refines BB (s ∷ rest) B = elim (Option-cases (new_target F S DT attractors s)) [
    | inl lost ↦ rw (lost, route_open) (route_open-Refines BB rest B)
    | inr (t, e) ↦
        let linked = Map.modify BB (add_branch (copy t)) B in
        rw (e, route_open)
          (Refines-trans F S DT attractors B linked
            (Map.modify t (update_phis (adopt F S DT attractors BB)) linked)
            (branch_at BB t B (new_target-in_slice F S DT attractors s t e))
            (phis_at t (adopt F S DT attractors BB) linked))
  ]

  pub route_successors-Refines :
      (BB : ℕ) (ls : List Label) (B : Blocks)
      → ((route_successors F S DT attractors BB ls B).0 ≡ map (target F S DT attractors) ls)
        × Refines F S DT attractors B (route_successors F S DT attractors BB ls B).1
  unfolding route_successors target
  route_successors-Refines BB [] B = (refl, Refines-refl F S DT attractors B)
  route_successors-Refines BB (original s ∷ rest) B =
      elim (Option-cases (new_target F S DT attractors s)) [
        | inl lost ↦
            let cut = cut_uses s B in
            let (same, r) = route_successors-Refines BB rest cut in
            rw (lost, route_successors, target)
              (
                ap (λ ls. unreachable_block ∷ ls) same,
                Refines-trans F S DT attractors B cut
                    (route_successors F S DT attractors BB rest cut).1
                    (cut_uses-Refines F S DT attractors s B lost) r,
              )
        | inr (t, e) ↦
            let updated = Map.modify t (update_phis (replace_incoming s BB)) B in
            let (same, r) = route_successors-Refines BB rest updated in
            rw (e, route_successors, target)
              (
                ap (λ ls. copy t ∷ ls) same,
                Refines-trans F S DT attractors B updated
                    (route_successors F S DT attractors BB rest updated).1
                    (phis_at t (replace_incoming s BB) B) r,
              )
      ]
  route_successors-Refines BB (copy t ∷ rest) B =
      let (same, r) = route_successors-Refines BB rest B in (ap (λ ls. copy t ∷ ls) same, r)
  route_successors-Refines BB (unreachable_block ∷ rest) B =
      let (same, r) = route_successors-Refines BB rest B in
      (ap (λ ls. unreachable_block ∷ ls) same, r)
