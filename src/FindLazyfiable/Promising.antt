-- ===== src/FindLazyfiable/Promising.antt =====
-- What `findLazyfiablePaths` of passes/FindLazyfiable.cpp records.
use wyvern.Base.{
  ℕ, suc, ◌+◌, ◌≤◌, ◌<◌, ◌≡◌, refl, ◌↔◌, ◌⊎◌, inl, inr, ⊎_elim, Bool, true, List, [], ◌∷◌, none,
  some, arith, ◌==◌, ==_iff, Bool-cases, Option-cases, length,
}
use wyvern.Base.Map.{Set, contains, add, contains-add, nat_order, pair_order}
use wyvern.Ir.{argument, Block, Function, IsClosed}
use wyvern.FindLazyfiable.{
  Analysis, Outcome, found, exhausted, out_of_fuel, dfs_outcome, dfs, exit_from, search_args,
  find_lazyfiable_paths,
}
use wyvern.FindLazyfiable.Dfs.{IsUnused, dfs_outcome_lem}

-- Argument i of F: some path from the entry to the exit crosses no use of it.
pub record IsPromising (F : Function) (i : ℕ) : Type 0 where
  pub exit : ℕ
  pub is_exit : exit_from 0 none F.blocks ≡ some exit
  pub in_range : i < length F.arg_types
  pub unused : IsUnused F (argument i) 0 exit

abbrev pub is_promising : Analysis → ℕ → ℕ → Bool
is_promising A f i = contains (f, i) A.promising_args

of_added_pair :
    (f index g i : ℕ) (s : Set (ℕ × ℕ))
    → contains (g, i) (add (f, index) s) ≡ true
    → (contains (g, i) s ≡ true) ⊎ (g ≡ f) × (i ≡ index)
of_added_pair f index g i s m = ground (arith, contains-add (f, index) (g, i) s)

added_pair :
    (f index g i : ℕ) (s : Set (ℕ × ℕ))
    → (contains (g, i) s ≡ true) ⊎ (g ≡ f) × (i ≡ index)
    → contains (g, i) (add (f, index) s) ≡ true
added_pair f index g i s m = ground (arith, contains-add (f, index) (g, i) s)

module _ (f : ℕ) (F : Function) (exit g i : ℕ) (closed : IsClosed F)
    (body : 0 < length F.blocks) where
  -- What one search adds, by its outcome.
  abbrev Adds : ℕ → Analysis → Analysis → Type 0
  Adds index A B =
      (is_promising B g i ≡ true)
      ↔ ((is_promising A g i ≡ true) ⊎ (g ≡ f) × (i ≡ index) × IsUnused F (argument index) 0 exit)

  abbrev after_search : ℕ → Analysis → Outcome → Analysis
  after_search index A found = record A {
    promising_functions = add f A.promising_functions;
    promising_args = add (f, index) A.promising_args;
  }
  after_search index A _ = A

  after_search-Adds :
      (index : ℕ) (A : Analysis) (o : Outcome)
      → ((o ≡ found) ↔ IsUnused F (argument index) 0 exit)
      → Adds index A (after_search index A o)
  after_search-Adds index A found known = (
    λ m.
        ⊎_elim inl (λ e. inr (e.0, e.1, known.0 refl))
          (of_added_pair f index g i A.promising_args m),
    λ m. added_pair f index g i A.promising_args (⊎_elim inl (λ e. inr (e.0, e.1)) m),
  )
  after_search-Adds index A exhausted known = (inl, ⊎_elim (λ m. m) (λ e. cc (known.1 e.2)))
  after_search-Adds index A out_of_fuel known = (inl, ⊎_elim (λ m. m) (λ e. cc (known.1 e.2)))

  dfs-after_search :
      (index : ℕ) (A : Analysis)
      → dfs f F 0 exit index A ≡ after_search index A (dfs_outcome F exit (argument index) 0)
  unfolding dfs
  dfs-after_search index A = ground arith

  dfs-Adds : (index : ℕ) (A : Analysis) → Adds index A (dfs f F 0 exit index A)
  dfs-Adds index A =
      rw (dfs-after_search index A)
        (after_search-Adds index A _ (dfs_outcome_lem F exit 0 (argument index) closed body).1)

  search_args_lem :
      (index : ℕ) (types : List ℕ) (A : Analysis)
      → (is_promising (search_args f F exit index types A) g i ≡ true) ↔ (
          (is_promising A g i ≡ true)
          ⊎ (g ≡ f) × (index ≤ i) × (i < index + length types) × IsUnused F (argument i) 0 exit)
  unfolding search_args
  search_args_lem index [] A = (inl, ⊎_elim (λ m. m) (λ e. absurd (omega arith)))
  search_args_lem index (t ∷ types) A =
      let D = dfs-Adds index A in
      let later = search_args_lem (suc index) types (dfs f F 0 exit index A) in
      (
        λ m.
            ⊎_elim (λ q. ⊎_elim inl (λ e. inr (e.0, omega arith, omega arith, rw e.1 e.2)) (D.0 q))
              (λ e. inr (e.0, omega arith, omega arith, e.3)) (later.0 m),
        ⊎_elim (λ q. later.1 (inl (D.1 (inl q))))
            (λ e. elim (Bool-cases (i == index)) [
              | inl hit ↦
                  let same = (==_iff i index).0 hit in
                  later.1 (inl (D.1 (inr (e.0, same, rw (← same) e.3))))
              | inr miss ↦ later.1 (inr (e.0, ground arith, omega arith, e.3))
            ]),
      )

exit-body :
    (b : ℕ) (blocks : List Block) (e : ℕ) → exit_from b none blocks ≡ some e → 0 < length blocks
unfolding exit_from
exit-body b [] e h = cc
exit-body b (BB ∷ rest) e h = omega arith

-- Where all successors in F are blocks of F: after `findLazyfiablePaths` on F the pairs of F are those of its promising arguments, and every
-- other pair is as it was.
pub find_lazyfiable_paths_lem :
    (f : ℕ) (F : Function) (g i : ℕ) (A : Analysis)
    → IsClosed F
    → (is_promising (find_lazyfiable_paths f F A) g i ≡ true)
      ↔ ((is_promising A g i ≡ true) ⊎ (g ≡ f) × IsPromising F i)
unfolding find_lazyfiable_paths
find_lazyfiable_paths_lem f F g i A closed = elim (Option-cases (exit_from 0 none F.blocks)) [
  | inl none_found ↦
      rw (none_found, find_lazyfiable_paths)
        (inl, ⊎_elim (λ m. m) (λ e. cc (e.1.is_exit, none_found)))
  | inr (exit, is_exit) ↦
      let loop =
        search_args_lem f F exit g i closed (exit-body 0 F.blocks exit is_exit) 0 F.arg_types A in
      rw (is_exit, find_lazyfiable_paths)
        (
          λ m.
              ⊎_elim inl
                (λ e. inr (
                  e.0,
                  record { exit = exit; is_exit = is_exit; in_range = omega arith; unused = e.3 },
                ))
                (loop.0 m),
          ⊎_elim (λ m. loop.1 (inl m))
              (λ e.
                let same : e.1.exit ≡ exit = cc (e.1.is_exit, is_exit) in
                loop.1
                  (inr (e.0, omega arith, omega (arith, e.1.in_range), rw (← same) e.1.unused))),
        )
]
