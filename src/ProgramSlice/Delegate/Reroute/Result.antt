-- ===== src/ProgramSlice/Delegate/Reroute/Result.antt =====
-- The control flow of the delegate of a slice, passes/ProgramSlice.cpp, once `rerouteBranches` is done
-- with it.
use wyvern.Base.{
  ℕ, ◌≡◌, sym, ◌∙◌, inl, inr, List, [], ◌∷◌, Option, none, some, map, ◌==◌, ==_iff, All, Bool-cases,
}
use wyvern.Base.Map
use wyvern.Base.Map.{Set, nat_order}
use wyvern.Ir.{Opcode, Block, Function, block_at}
use wyvern.ProgramSlice.Control.{DomTree}
use wyvern.ProgramSlice.Outline.{Slice}
use wyvern.ProgramSlice.Delegate.{
  original, Kind, Clone, clone_kind, clone_of, clones, populate, reorganize_kind, reorganize_clone,
  reorganize_uses, in_slice,
}
use wyvern.ProgramSlice.Delegate.Reroute.{
  as_terminator, terminator, labels, DomNode, add_dom_branches, route_blocks, keys, reroute,
}
use wyvern.ProgramSlice.Delegate.Reroute.Targets.{IsInside, IsValid, target, map-target_self}
use wyvern.ProgramSlice.Delegate.Reroute.Routed.{Refines-trans}
use wyvern.ProgramSlice.Delegate.Reroute.Steps.{add_dom_branches-Refines}
use wyvern.ProgramSlice.Delegate.Reroute.Closed.{
  AllValid, Refines-AllValid, route_blocks_lem, find-keys,
}

module _ (F : Function) (S : Slice) where
  -- The copy of a block, with the uses of what was copied.
  abbrev pub copied : ℕ → List Clone
  copied b = map (reorganize_clone F S) (clones F S (block_at F b))

  pub find-reorganize_uses :
      (bbs : Set ℕ) (k : ℕ) (cs : List Clone)
      → Map.find k (reorganize_uses F S (populate F S bbs)) ≡ some cs
      → cs ≡ copied k
  unfolding reorganize_uses populate Map.find
  find-reorganize_uses [] k cs e = cc e
  find-reorganize_uses ((b, u) ∷ rest) k cs e = elim (Bool-cases (b == k)) [
    | inl hit ↦
        let same : b ≡ k = (==_iff b k).0 hit in
        let at : copied b ≡ cs = cc (rw hit at e) in rw (← same) (sym at)
    | inr miss ↦ find-reorganize_uses rest k cs (rw miss at e)
  ]

  module _ (DT : DomTree) (attractors : List (Option ℕ)) where
    abbrev Valid : Clone → Type 0
    Valid c = All (IsValid F S DT attractors) (labels (as_terminator c.kind))

    originals-IsValid : (bs : List ℕ) → All (IsValid F S DT attractors) (map original bs)
    originals-IsValid [] = tt
    originals-IsValid (b ∷ bs) = (tt, originals-IsValid bs)

    kind-Valid :
        (o : Opcode)
        → All
            (IsValid F S DT attractors)
            (labels (as_terminator (reorganize_kind F S (clone_kind o))))
    unfolding reorganize_kind
    kind-Valid (Opcode.phi bs) = tt
    kind-Valid Opcode.ret = tt
    kind-Valid (Opcode.branch bs) = originals-IsValid bs
    kind-Valid (Opcode.switch bs) = originals-IsValid bs
    kind-Valid (Opcode.call c) = tt
    kind-Valid Opcode.store = tt
    kind-Valid Opcode.load = tt
    kind-Valid Opcode.alloca = tt
    kind-Valid Opcode.other = tt

    copied-Valid : (BB : Block) → All Valid (map (reorganize_clone F S) (clones F S BB))
    unfolding clones reorganize_clone clone_of
    copied-Valid [] = tt
    copied-Valid (I ∷ rest) = elim (Bool-cases (in_slice F S I.id)) [
      | inl kept ↦ rw (kept, clones) (kind-Valid I.opcode, copied-Valid rest)
      | inr left ↦ rw (left, clones) (copied-Valid rest)
    ]

    terminator-Valid :
        (cs : List Clone) → All Valid cs → All (IsValid F S DT attractors) (labels (terminator cs))
    unfolding terminator
    terminator-Valid [] v = tt
    terminator-Valid (c ∷ []) v = v.0
    terminator-Valid (c ∷ d ∷ rest) v = terminator-Valid (d ∷ rest) v.1

    -- After `rerouteBranches` every successor of a delegate's block is a block of the delegate. Where
    -- the terminator of a block was copied, its successors are, in order, the copies of the original
    -- successors' attractors, with the unreachable block for those that have none in the slice.
    pub reroute_lem :
        (root : DomNode) (k : ℕ) (cs : List Clone)
        → Map.find k (reroute F S DT attractors root (reorganize_uses F S (populate F S S.bbs)))
          ≡ some cs
        → All (IsInside F S DT attractors) (labels (terminator cs))
          × ((t : Kind)
              → terminator (copied k) ≡ some t
              → (t' : Kind) × (terminator cs ≡ some t')
                × (labels (some t') ≡ map (target F S DT attractors) (labels (some t))))
    unfolding reroute
    reroute_lem root k cs e =
        let start = reorganize_uses F S (populate F S S.bbs) in
        let linked = add_dom_branches F S DT attractors root none start in
        let linking = add_dom_branches-Refines F S DT attractors root none start in
        let valid : AllValid F S DT attractors start = λ j ds at.
          rw (find-reorganize_uses S.bbs j ds at)
            (terminator-Valid (copied j) (copied-Valid (block_at F j))) in
        let (steps, closed) =
          route_blocks_lem F S DT attractors (keys linked) linked
            (Refines-AllValid F S DT attractors start linked linking valid) in
        let (ds, at, one) = steps k cs e in
        let inside = closed k (find-keys k linked ds at) cs e in
        let (cs0, at0, routed) =
          Refines-trans F S DT attractors start linked
            (route_blocks F S DT attractors (keys linked) linked) linking steps k cs e in
        (
          inside,
          λ t was.
              let same = find-reorganize_uses S.bbs k cs0 at0 in
              let (t', now, targets) = routed.kept t (rw same was) in
              (
                t',
                now,
                sym (map-target_self F S DT attractors (labels (some t')) (rw now at inside))
                    ∙ targets,
              ),
        )
