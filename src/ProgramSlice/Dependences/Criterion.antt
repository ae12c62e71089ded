-- ===== src/ProgramSlice/Dependences/Criterion.antt =====
-- The result of `get_data_dependences_for`, passes/ProgramSlice.cpp, for a slice criterion.
use mathlib.Core.List.Memᴰ
use wyvern.Base.{ℕ, ◌≡◌, refl, subst, ◌↔◌, ⊎_elim, true, [], ◌∷◌, Memᴰ, Option, some, All, arith}
use wyvern.Base.Map.{contains, nat_order}
use wyvern.Ir.{Value, Function}
use wyvern.ProgramSlice.Dependences.{value_order, Search, Gates, rounds, first_search}
use wyvern.ProgramSlice.Dependences.Closure.{Depends}
use wyvern.ProgramSlice.Dependences.Rounds.{first_search-Inv, rounds-Inv, complete}
use wyvern.ProgramSlice.Dependences.Work.{IsScoped, IsGate, work, rounds_total}
use wyvern.ProgramSlice.Dependences.Blocks.{IsBlockOf, first_search-InvBlocks, rounds-InvBlocks}

-- The rounds are as many as the values of the function and the gates of its phi nodes, which is
-- enough.
unfoldable pub get_data_dependences_for : Function → Gates → Value → Option Search
get_data_dependences_for F gates I =
    rounds F gates (work F gates (first_search F gates I)) (I ∷ []) (first_search F gates I)

-- The worklist empties. The values that it returns are the criterion and what it depends on, through
-- operands and the gates of phi nodes; the blocks are those of these values' instructions and the
-- incoming blocks of the phi nodes among them.
pub get_data_dependences_for_lem :
    (F : Function) (gates : Gates) (I : Value)
    → IsScoped F gates
    → All (All (IsGate F gates)) gates
    → (t : Search) × (get_data_dependences_for F gates I ≡ some t)
      × ((v : Value) → (contains v t.deps ≡ true) ↔ Depends F gates I v)
      × ((c : ℕ)
          → (contains c t.bbs ≡ true) ↔ ((v : Value) × Depends F gates I v × IsBlockOf F v c))
unfolding get_data_dependences_for
get_data_dependences_for_lem F gates I scoped ok_gates =
    let first = first_search F gates I in
    let start : first.to_visit ≡ I ∷ [] = unfold first_search in refl in
    let (t, done) =
      rounds_total F gates scoped ok_gates (work F gates first) (I ∷ []) first start
        (omega arith) in
    let (inv, empty) =
      rounds-Inv F gates I (work F gates first) (I ∷ []) first t start (first_search-Inv F gates I)
        done in
    let blocks =
      rounds-InvBlocks F gates (work F gates first) (I ∷ []) first t start
        (first_search-InvBlocks F gates I) done in
    (
      t,
      done,
      λ v. (inv.deps_sound v, complete F gates I t inv empty),
      λ c. (
        λ m. let (v, d, p) = blocks.sound c m in (v, inv.deps_sound v d, p),
        λ (v, d, p).
            ⊎_elim (λ q. absurd (Memᴰ.not-nil (subst (Memᴰ v) empty q))) (λ all. all c p)
              (blocks.covered v (complete F gates I t inv empty d)),
      ),
    )
