-- ===== src/ProgramSlice/Dependences/Rounds.antt =====
-- The outer loop of `get_data_dependences_for`, passes/ProgramSlice.cpp.
use mathlib.Core.List.Memᴰ
use wyvern.Base.{
  ℕ, suc, ◌≡◌, refl, subst, inl, inr, ⊎_elim, true, List, [], ◌∷◌, Memᴰ, some, Option-cases, zero,
}
use wyvern.Base.Map.{contains, contains-empty, contains_self, nat_order}
use wyvern.Ir.{Value, Function}
use wyvern.ProgramSlice.Dependences.Closure.{Depends, itself, via, Inv, Inv-leaf, Inv-instruction}
use wyvern.ProgramSlice.Dependences.Pushes.{of_added}
use wyvern.ProgramSlice.Dependences.{
  value_order, as_instruction, Search, Gates, visit, rounds, first_search,
}

module _ (F : Function) (gates : Gates) (root : Value) where
  visit-Inv :
      (s : Search) (cur : Value) (rest : List Value)
      → s.to_visit ≡ cur ∷ rest
      → Inv F gates root s
      → Inv F gates root (visit F gates cur rest s)
  unfolding visit
  visit-Inv s cur rest e inv = elim (Option-cases (as_instruction F cur)) [
    | inl leaf ↦ rw (leaf, visit) (Inv-leaf F gates root s cur rest e inv leaf)
    | inr ((b, I), found) ↦
        rw (found, visit) (Inv-instruction F gates root s cur rest e inv b I found)
  ]

  pub first_search-Inv : Inv F gates root (first_search F gates root)
  unfolding first_search
  first_search-Inv = record {
    rooted = contains_self root [];
    queue_sound = λ v m. rw (Memᴰ.eq_of_singleton m) itself;
    deps_sound = λ v m.
        ⊎_elim (λ q. cc (contains-empty {K = Value} v, q)) (λ e. rw e itself)
          (of_added v root [] m);
    marked = λ v m. cc (contains-empty {K = Value} v, m);
    closed = λ u m.
        ⊎_elim (λ q. cc (contains-empty {K = Value} u, q)) (λ e. inl (Memᴰ.head e))
          (of_added u root [] m);
  }

  pub rounds-Inv :
      (fuel : ℕ) (queue : List Value) (s t : Search)
      → s.to_visit ≡ queue
      → Inv F gates root s
      → rounds F gates fuel queue s ≡ some t
      → Inv F gates root t × (t.to_visit ≡ [])
  unfolding rounds
  rounds-Inv fuel [] s t e inv h =
      let same : s ≡ t = cc in (subst (Inv F gates root) same inv, rw (← same) e)
  rounds-Inv zero (cur ∷ rest) s t e inv h = cc
  rounds-Inv (suc fuel) (cur ∷ rest) s t e inv h =
      rounds-Inv fuel (visit F gates cur rest s).to_visit (visit F gates cur rest s) t refl
        (visit-Inv s cur rest e inv) h

  pub complete :
      (t : Search)
      → Inv F gates root t
      → t.to_visit ≡ []
      → {v : Value} → Depends F gates root v
      → contains v t.deps ≡ true
  complete t inv done itself = inv.rooted
  complete t inv done (via {v} {u} p n) =
      ⊎_elim (λ m. absurd (Memᴰ.not-nil (subst (Memᴰ v) done m)))
        (λ all. ⊎_elim (λ m. absurd (Memᴰ.not-nil (subst (Memᴰ u) done m))) (λ m. m) (all u n))
        (inv.closed v (complete t inv done p))
