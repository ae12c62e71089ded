-- ===== src/ProgramSlice/Delegate/Reroute/Closed.antt =====
-- The control flow of a delegate after `rerouteBranches`, passes/ProgramSlice.cpp.
use mathlib.Core.List.Memᴰ
use wyvern.Base.{
  ℕ, ◌≡◌, sym, ◌∙◌, subst, inl, inr, ⊎_elim, List, [], ◌∷◌, Memᴰ, Option, some, arith, ◌==◌, ==_iff,
  All, Bool-cases, Option-cases,
}
use wyvern.Base.Map
use wyvern.Base.Map.{Set, contains, nat_order, find-modify}
use wyvern.Ir.{Function, last, block_at}
use wyvern.ProgramSlice.Control.{DomTree}
use wyvern.ProgramSlice.Outline.{Slice}
use wyvern.ProgramSlice.Delegate.{Kind, Clone, Blocks}
use wyvern.ProgramSlice.Delegate.Reroute.{
  terminator, labels, set_successors, route_open, route_successors, branch_targets, route_block,
  route_blocks, keys,
}
use wyvern.ProgramSlice.Delegate.Reroute.Targets.{IsInside, IsValid, map-target-IsInside}
use wyvern.ProgramSlice.Delegate.Reroute.Routed.{
  Refines, Refines-refl, Refines-trans, modify-Refines, set_successors-Routed,
}
use wyvern.ProgramSlice.Delegate.Reroute.Steps.{route_open-Refines, route_successors-Refines}

module _ (F : Function) (S : Slice) (DT : DomTree) (attractors : List (Option ℕ)) where
  abbrev pub AllValid : Blocks → Type 0
  AllValid B =
      (k : ℕ) (cs : List Clone)
      → Map.find k B ≡ some cs
      → All (IsValid F S DT attractors) (labels (terminator cs))

  abbrev pub IsClosedAt : ℕ → Blocks → Type 0
  IsClosedAt k B =
      (cs : List Clone)
      → Map.find k B ≡ some cs
      → All (IsInside F S DT attractors) (labels (terminator cs))

  pub Refines-AllValid : (B B' : Blocks) → Refines F S DT attractors B B' → AllValid B → AllValid B'
  Refines-AllValid B B' r v k cs e = let (cs0, at, s) = r k cs e in s.valid (v k cs0 at)

  Refines-IsClosedAt :
      (k : ℕ) (B B' : Blocks) → Refines F S DT attractors B B' → IsClosedAt k B → IsClosedAt k B'
  Refines-IsClosedAt k B B' r c cs e = let (cs0, at, s) = r k cs e in s.closed (c cs0 at)

  -- A round of the loop closes its block.
  route_block_lem :
      (BB : ℕ) (B : Blocks)
      → AllValid B
      → Refines F S DT attractors B (route_block F S DT attractors BB B)
        × IsClosedAt BB (route_block F S DT attractors BB B)
  unfolding route_block
  route_block_lem BB B v = elim (Option-cases (Map.find BB B)) [
    | inl gone ↦ rw (gone, route_block) (Refines-refl F S DT attractors B, λ cs e. cc (gone, e))
    | inr (cs, at) ↦ elim (Option-cases (terminator cs)) [
      | inl open_end ↦
          let ss = branch_targets (last (block_at F BB)) in
          let r = route_open-Refines F S DT attractors BB ss B in
          rw (at, route_block, open_end)
            (
              r,
              Refines-IsClosedAt BB B (route_open F S DT attractors BB ss B) r
                  (λ cs' e. let same : cs ≡ cs' = cc (at, e) in rw (← same, open_end) tt),
            )
      | inr (k, e) ↦ rw (at, route_block, e) (finish cs k at e)
    ]
  ]
    where
      finish :
          (cs : List Clone) (k : Kind)
          → Map.find BB B ≡ some cs
          → terminator cs ≡ some k
          → let r = route_successors F S DT attractors BB (labels (some k)) B in
            Refines F S DT attractors B (Map.modify BB (set_successors r.0) r.1)
            × IsClosedAt BB (Map.modify BB (set_successors r.0) r.1)
      finish cs k at e =
          let r = route_successors F S DT attractors BB (labels (some k)) B in
          let (same, steps) = route_successors-Refines F S DT attractors BB (labels (some k)) B in
          let inside : All (IsInside F S DT attractors) r.0 =
            subst (All (IsInside F S DT attractors)) (sym same)
              (map-target-IsInside F S DT attractors (labels (some k)) (rw e at (v BB cs at))) in
          let one = λ (cs1 : List Clone) (at1 : Map.find BB r.1 ≡ some cs1).
            let (cs0, at0, s) = steps BB cs1 at1 in
            let was : cs0 ≡ cs = cc (at0, at) in
            let (k1, e1, m) = s.kept k (rw was e) in
            set_successors-Routed F S DT attractors r.0 cs1 k1 e1 (m ∙ sym same) inside in
          (
            Refines-trans F S DT attractors B r.1 (Map.modify BB (set_successors r.0) r.1) steps (
                modify-Refines F S DT attractors BB (set_successors r.0) r.1
                  (λ cs1 at1. (one cs1 at1).0)),
            λ cs' f. elim (Option-cases (Map.find BB r.1)) [
              | inl gone ↦ ground (arith, find-modify BB BB (set_successors r.0) r.1)
              | inr (cs1, at1) ↦
                  let after : set_successors r.0 cs1 ≡ cs' =
                    ground (arith, find-modify BB BB (set_successors r.0) r.1) in
                  subst
                    (λ (x : List Clone). All (IsInside F S DT attractors) (labels (terminator x)))
                    after (subst (All (IsInside F S DT attractors)) (sym (one cs1 at1).1) inside)
            ],
          )

  -- After the loop every block whose round has come is closed, as is each that was.
  pub route_blocks_lem :
      (ks : List ℕ) (B : Blocks)
      → AllValid B
      → Refines F S DT attractors B (route_blocks F S DT attractors ks B)
        × ((k : ℕ) → Memᴰ k ks → IsClosedAt k (route_blocks F S DT attractors ks B))
  unfolding route_blocks
  route_blocks_lem [] B v = (Refines-refl F S DT attractors B, λ k m. absurd (Memᴰ.not-nil m))
  route_blocks_lem (BB ∷ rest) B v =
      let (step, here) = route_block_lem BB B v in
      let next = route_block F S DT attractors BB B in
      let (steps, all) = route_blocks_lem rest next (Refines-AllValid B next step v) in
      (
        Refines-trans F S DT attractors B next (route_blocks F S DT attractors rest next) step
            steps,
        λ k m.
            ⊎_elim
              (λ e.
                Refines-IsClosedAt k next (route_blocks F S DT attractors rest next) steps
                  (subst (λ (j : ℕ). IsClosedAt j next) (sym e) here))
              (all k) (Memᴰ.cases_cons m),
      )

pub find-keys : (k : ℕ) (B : Blocks) (cs : List Clone) → Map.find k B ≡ some cs → Memᴰ k (keys B)
unfolding keys Map.find
find-keys k [] cs e = cc e
find-keys k ((b, ds) ∷ rest) cs e = elim (Bool-cases (b == k)) [
  | inl hit ↦ Memᴰ.head (sym ((==_iff b k).0 hit))
  | inr miss ↦ Memᴰ.tail (find-keys k rest cs (rw miss at e))
]
