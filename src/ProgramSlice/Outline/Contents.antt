-- ===== src/ProgramSlice/Outline/Contents.antt =====
-- What the constructor of the slice, passes/ProgramSlice.cpp, puts into it.
use mathlib.Core.List.Memᴰ
use wyvern.Base.{ℕ, ◌≡◌, refl, ap, ◌↔◌, ⊎_elim, inl, inr, List, [], ◌∷◌, Memᴰ, some, Option-cases}
use wyvern.Base.Map.{Set, contains_iff, nat_order}
use wyvern.Ir.{Value, inst, argument, constant, Instruction, Function}
use wyvern.ProgramSlice.Dependences.{value_order, as_instruction}
use wyvern.ProgramSlice.Dependences.Closure.{Depends}
use wyvern.ProgramSlice.Dependences.Blocks.{IsBlockOf}
use wyvern.ProgramSlice.Dependences.Work.{IsScoped}
use wyvern.ProgramSlice.Control.{DomTree, compute_gates}
use wyvern.ProgramSlice.Control.Terminators.{IsAddressed, slice_terminates}
use wyvern.ProgramSlice.Outline.{Slice, insts_of, args_of, slice_of, new_slice}

-- I is the instruction that some value of the set is.
abbrev pub IsValueIn : Function → Set Value → Instruction → Type 0
IsValueIn F s I = (v : Value) × Memᴰ (v, tt) s × ((b : ℕ) × (as_instruction F v ≡ some (b, I)))

module _ (F : Function) where
  insts_of_lem : (s : Set Value) (I : Instruction) → Memᴰ I (insts_of F s) ↔ IsValueIn F s I
  unfolding insts_of
  insts_of_lem [] I = (λ m. absurd (Memᴰ.not-nil m), λ (v, m, p). absurd (Memᴰ.not-nil m))
  insts_of_lem ((u, _) ∷ rest) I =
      let (to, from) = insts_of_lem rest I in
      elim (Option-cases (as_instruction F u)) [
        | inl leaf ↦
            rw (leaf, insts_of)
              (
                λ m. let (v, at, p) = to m in (v, Memᴰ.tail at, p),
                λ (v, at, (b, e)).
                    ⊎_elim
                      (λ h.
                        let same : v ≡ u = ap (λ (x : Value × Unit {0}). x.0) h in
                        cc (same, e, leaf))
                      (λ q. from (v, q, (b, e))) (Memᴰ.cases_cons at),
              )
        | inr ((b, K), found) ↦
            rw (found, insts_of)
              (
                λ m.
                    ⊎_elim (λ h. (u, Memᴰ.head refl, (b, cc (found, h))))
                      (λ q. let (v, at, p) = to q in (v, Memᴰ.tail at, p)) (Memᴰ.cases_cons m),
                λ (v, at, (c, e)).
                    ⊎_elim
                      (λ h.
                        let same : v ≡ u = ap (λ (x : Value × Unit {0}). x.0) h in
                        let hit : I ≡ K = cc (same, e, found) in Memᴰ.head hit)
                      (λ q. Memᴰ.tail (from (v, q, (c, e)))) (Memᴰ.cases_cons at),
              )
      ]

args_of_lem : (s : Set Value) (i : ℕ) → Memᴰ i (args_of s) ↔ Memᴰ (argument i, tt) s
unfolding args_of
args_of_lem [] i = (λ m. absurd (Memᴰ.not-nil m), λ m. absurd (Memᴰ.not-nil m))
args_of_lem ((argument j, _) ∷ rest) i =
    let (to, from) = args_of_lem rest i in
    (
      λ m.
          ⊎_elim (λ h. Memᴰ.head (ap (λ (k : ℕ). (argument k, tt)) h)) (λ q. Memᴰ.tail (to q))
            (Memᴰ.cases_cons m),
      λ m.
          ⊎_elim (λ h. Memᴰ.head (cc (ap (λ (x : Value × Unit {0}). x.0) h)))
            (λ q. Memᴰ.tail (from q)) (Memᴰ.cases_cons m),
    )
args_of_lem ((inst a, _) ∷ rest) i =
    let (to, from) = args_of_lem rest i in
    (
      λ m. Memᴰ.tail (to m),
      λ m. ⊎_elim (λ h. cc (ap (λ (x : Value × Unit {0}). x.0) h)) from (Memᴰ.cases_cons m),
    )
args_of_lem ((constant a, _) ∷ rest) i =
    let (to, from) = args_of_lem rest i in
    (
      λ m. Memᴰ.tail (to m),
      λ m. ⊎_elim (λ h. cc (ap (λ (x : Value × Unit {0}). x.0) h)) from (Memᴰ.cases_cons m),
    )

-- In a function whose operands that are instructions or arguments are all its own, and in which the
-- address of a terminator is its alone, the constructor makes a slice: its instructions are the criterion's and those that the criterion
-- depends on through operands and gates, its arguments those that the criterion depends on, and its
-- blocks those of the instructions with the incoming blocks of the phi nodes.
pub new_slice_lem :
    (F : Function) (DT PDT : DomTree) (preds : ℕ → List ℕ) (I : Value)
    → IsScoped F (compute_gates F DT PDT preds)
    → IsAddressed F
    → let gates = compute_gates F DT PDT preds in
      (S : Slice) × (new_slice F DT PDT preds I ≡ some S)
      × ((J : Instruction)
          → Memᴰ J S.insts
            ↔ ((v : Value) × Depends F gates I v × ((b : ℕ) × (as_instruction F v ≡ some (b, J)))))
      × ((i : ℕ) → Memᴰ i S.dep_args ↔ Depends F gates I (argument i))
      × ((c : ℕ) → Memᴰ (c, tt) S.bbs ↔ ((v : Value) × Depends F gates I v × IsBlockOf F v c))
unfolding new_slice slice_of
new_slice_lem F DT PDT preds I scoped addressed =
    let (t, done, deps, blocks) = slice_terminates F DT PDT preds I scoped addressed in
    (
      slice_of F t,
      rw (new_slice, done) refl,
      λ J.
          let (to, from) = insts_of_lem F t.deps J in
          (
            λ m. let (v, at, p) = to m in (v, (deps v).0 ((contains_iff v t.deps).1 at), p),
            λ (v, d, p). from (v, (contains_iff v t.deps).0 ((deps v).1 d), p),
          ),
      λ i.
          let (to, from) = args_of_lem t.deps i in
          (
            λ m. (deps (argument i)).0 ((contains_iff (argument i) t.deps).1 (to m)),
            λ d. from ((contains_iff (argument i) t.deps).0 ((deps (argument i)).1 d)),
          ),
      λ c. (
        λ m. (blocks c).0 ((contains_iff c t.bbs).1 m),
        λ p. (contains_iff c t.bbs).0 ((blocks c).1 p),
      ),
    )
