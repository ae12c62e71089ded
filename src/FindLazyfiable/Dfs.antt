-- ===== src/FindLazyfiable/Dfs.antt =====
-- `DFS` of passes/FindLazyfiable.cpp finds the exit exactly when some path of the control-flow graph
-- leads there past no use of the argument.
use wyvern.Base.{
  ℕ, zero, suc, ◌+◌, ◌≤◌, ◌<◌, ◌≡◌, ◌≢◌, refl, ◌↔◌, ◌⊎◌, inl, inr, ⊎_elim, true, false, List, [],
  ◌∷◌, Memᴰ, arith, ◌==◌, ==_iff, Bool-cases, length, if◌then◌else◌, subst, sym, ◌∙◌, false≢true,
}
use mathlib.Core.List.Memᴰ
use wyvern.Base.Map.{
  Set, contains, add, contains-add, contains-empty, contains_self, contains_kept, nat_order,
}
use wyvern.Ir.{Value, Function, block_at, successors, successors-lt, IsClosed}
use wyvern.FindLazyfiable.{
  has_use, push_all, Outcome, found, exhausted, out_of_fuel, search_loop, dfs_outcome,
}

-- The blocks that a path from `first` reaches with no use of `arg` in the blocks that it leaves.
pub data Reaches (F : Function) (arg : Value) (first : ℕ) : ℕ → Type 0 where
  here : Reaches F arg first first
  step :
      {u v : ℕ}
      → Reaches F arg first u
      → has_use arg (block_at F u) ≡ false
      → Memᴰ v (successors F u)
      → Reaches F arg first v

-- A path to the exit that crosses no use of `arg`, the exit's own uses counted.
abbrev pub IsUnused : Function → Value → ℕ → ℕ → Type 0
IsUnused F arg first exit = Reaches F arg first exit × (has_use arg (block_at F exit) ≡ false)

-- How many blocks below n are not visited.
abbrev pub unvisited : ℕ → Set ℕ → ℕ
unvisited zero visited = 0
unvisited (suc n) visited = (if contains n visited then 0 else 1) + unvisited n visited

unvisited-add_ge :
    (n s : ℕ) (visited : Set ℕ) → n ≤ s → unvisited n (add s visited) ≡ unvisited n visited
unvisited-add_ge zero s visited h = refl
unvisited-add_ge (suc n) s visited h =
    ground (arith, unvisited-add_ge n s visited (omega arith), contains-add s n visited)

unvisited-add :
    (n s : ℕ) (visited : Set ℕ)
    → s < n
    → contains s visited ≡ false
    → suc (unvisited n (add s visited)) ≡ unvisited n visited
unvisited-add zero s visited h e = absurd (omega arith)
unvisited-add (suc n) s visited h e = elim (Bool-cases (s == n)) [
  | inl hit ↦
      ground
        (arith, unvisited-add_ge n s visited, contains-add s n visited, contains_self s visited)
  | inr miss ↦ ground (arith, unvisited-add n s visited, contains-add s n visited)
]

of_added :
    (v s : ℕ) (visited : Set ℕ)
    → contains v (add s visited) ≡ true
    → (contains v visited ≡ true) ⊎ (v ≡ s)
of_added v s visited m = ground (arith, contains-add s v visited)

-- What the loop over the successors does.
pub record Pushed (n : ℕ) (ss : List ℕ) (visited : Set ℕ) (st : List ℕ) (after : Set ℕ × List ℕ)
    : Type 0 where
  pub kept : (v : ℕ) → contains v visited ≡ true → contains v after.0 ≡ true
  pub covered : (v : ℕ) → Memᴰ v ss → contains v after.0 ≡ true
  pub waits : (v : ℕ) → Memᴰ v st → Memᴰ v after.1
  pub marked : (v : ℕ) → contains v after.0 ≡ true → (contains v visited ≡ true) ⊎ Memᴰ v after.1
  pub pushed : (v : ℕ) → Memᴰ v after.1 → Memᴰ v st ⊎ Memᴰ v ss
  pub work : unvisited n after.0 + length after.1 ≡ unvisited n visited + length st

push_all-Pushed :
    (n : ℕ) (ss : List ℕ) (visited : Set ℕ) (st : List ℕ)
    → ((s : ℕ) → Memᴰ s ss → s < n)
    → Pushed n ss visited st (push_all ss visited st)
unfolding push_all
push_all-Pushed n [] visited st h = record {
  kept = λ v m. m;
  covered = λ v m. absurd (Memᴰ.not-nil m);
  waits = λ v m. m;
  marked = λ v m. inl m;
  pushed = λ v m. inl m;
  work = refl;
}
push_all-Pushed n (s ∷ ss) visited st h = elim (Bool-cases (contains s visited)) [
  | inl old ↦
      let rest = push_all-Pushed n ss visited st (λ v m. h v (Memᴰ.tail m)) in
      rw (old, push_all)
        (record {
          kept = rest.kept;
          covered =
              λ v m. ⊎_elim (λ e. rest.kept v (rw e old)) (rest.covered v) (Memᴰ.cases_cons m);
          waits = rest.waits;
          marked = rest.marked;
          pushed = λ v m. ⊎_elim inl (λ q. inr (Memᴰ.tail q)) (rest.pushed v m);
          work = rest.work;
        })
  | inr new ↦
      let rest = push_all-Pushed n ss (add s visited) (s ∷ st) (λ v m. h v (Memᴰ.tail m)) in
      rw (new, push_all)
        (record {
          kept = λ v m. rest.kept v (contains_kept s v visited m);
          covered = λ v m.
              ⊎_elim (λ e. rest.kept v (rw e (contains_self s visited))) (rest.covered v)
                (Memᴰ.cases_cons m);
          waits = λ v m. rest.waits v (Memᴰ.tail m);
          marked = λ v m.
              ⊎_elim
                (λ q. ⊎_elim inl (λ e. inr (rest.waits v (Memᴰ.head e))) (of_added v s visited q))
                inr (rest.marked v m);
          pushed = λ v m.
              ⊎_elim (λ q. ⊎_elim (λ e. inr (Memᴰ.head e)) inl (Memᴰ.cases_cons q))
                (λ q. inr (Memᴰ.tail q)) (rest.pushed v m);
          work = omega (arith, rest.work, unvisited-add n s visited (h s (Memᴰ.head refl)) new);
        })
]

module _ (F : Function) (exit : ℕ) (arg : Value) (first : ℕ) (closed : IsClosed F) where
  -- A visited block waits on the stack, or stops the search, or has all its successors visited.
  abbrev IsDone : Set ℕ → ℕ → Type 0
  IsDone visited u =
      (has_use arg (block_at F u) ≡ true)
      ⊎ ((u ≢ exit) × ((v : ℕ) → Memᴰ v (successors F u) → contains v visited ≡ true))

  record Inv (visited : Set ℕ) (st : List ℕ) : Type 0 where
    rooted : contains first visited ≡ true
    sound : (v : ℕ) → Memᴰ v st → Reaches F arg first v
    handled : (u : ℕ) → contains u visited ≡ true → Memᴰ u st ⊎ IsDone visited u

  Inv-skip :
      (visited : Set ℕ) (cur : ℕ) (st : List ℕ)
      → has_use arg (block_at F cur) ≡ true
      → Inv visited (cur ∷ st)
      → Inv visited st
  Inv-skip visited cur st used inv = record {
    rooted = inv.rooted;
    sound = λ v m. inv.sound v (Memᴰ.tail m);
    handled = λ u m.
        ⊎_elim (λ q. ⊎_elim (λ e. inr (inl (rw e used))) inl (Memᴰ.cases_cons q)) inr
          (inv.handled u m);
  }

  Inv-expand :
      (visited : Set ℕ) (cur : ℕ) (st : List ℕ)
      → has_use arg (block_at F cur) ≡ false
      → cur ≢ exit
      → Inv visited (cur ∷ st)
      → let r = push_all (successors F cur) visited st in Inv r.0 r.1
  Inv-expand visited cur st unused ne inv =
      let p =
        push_all-Pushed (length F.blocks) (successors F cur) visited st
          (λ s. successors-lt F cur s closed) in
      record {
        rooted = p.kept first inv.rooted;
        sound = λ v m.
            ⊎_elim (λ q. inv.sound v (Memᴰ.tail q))
              (λ q. step (inv.sound cur (Memᴰ.head refl)) unused q) (p.pushed v m);
        handled = λ u m.
            ⊎_elim
              (λ old.
                ⊎_elim
                  (λ q.
                    ⊎_elim
                      (λ e. inr (
                        inr
                          (rw e ne, λ v q. p.covered v (subst (λ w. Memᴰ v (successors F w)) e q))))
                      (λ w. inl (p.waits u w)) (Memᴰ.cases_cons q))
                  (λ done. inr (⊎_elim inl (λ d. inr (d.0, λ v q. p.kept v (d.1 v q))) done))
                  (inv.handled u old))
              inl (p.marked u m);
      }

  -- With the stack empty every block that a path reaches is visited, and the exit is not among them.
  complete :
      (visited : Set ℕ)
      → Inv visited []
      → {v : ℕ} → Reaches F arg first v
      → contains v visited ≡ true
  complete visited inv here = inv.rooted
  complete visited inv (step {u} {v} p unused edge) =
      ⊎_elim (λ m. absurd (Memᴰ.not-nil m))
        (λ done. ⊎_elim (λ used. absurd (false≢true (sym unused ∙ used))) (λ d. d.1 v edge) done)
        (inv.handled u (complete visited inv p))

  not_reached : (visited : Set ℕ) → Inv visited [] → ¬ IsUnused F arg first exit
  not_reached visited inv (p, unused) =
      ⊎_elim (λ m. Memᴰ.not-nil m)
        (λ done. ⊎_elim (λ used. absurd (false≢true (sym unused ∙ used))) (λ d. d.0 refl) done)
        (inv.handled exit (complete visited inv p))

  -- The loop ends by its own tests, and tells whether the exit is reached.
  abbrev Decides : Outcome → Type 0
  Decides found = IsUnused F arg first exit
  Decides exhausted = ¬ IsUnused F arg first exit
  Decides out_of_fuel = ⊥

  search_loop-Decides :
      (fuel : ℕ) (visited : Set ℕ) (st : List ℕ)
      → Inv visited st
      → unvisited (length F.blocks) visited + length st ≤ fuel
      → Decides (search_loop F exit arg fuel visited st)
  unfolding search_loop
  search_loop-Decides zero visited [] inv h = not_reached visited inv
  search_loop-Decides (suc fuel) visited [] inv h = not_reached visited inv
  search_loop-Decides zero visited (cur ∷ st) inv h = absurd (omega arith)
  search_loop-Decides (suc fuel) visited (cur ∷ st) inv h =
      elim (Bool-cases (has_use arg (block_at F cur))) [
        | inl used ↦
            rw (used, search_loop)
              (search_loop-Decides fuel visited st (Inv-skip visited cur st used inv) (omega arith))
        | inr unused ↦ elim (Bool-cases (cur == exit)) [
          | inl hit ↦
              rw (unused, hit, search_loop)
                (subst (λ v. IsUnused F arg first v) ((==_iff cur exit).0 hit)
                  (inv.sound cur (Memᴰ.head refl), unused))
          | inr miss ↦
              let r = push_all (successors F cur) visited st in
              let p =
                push_all-Pushed (length F.blocks) (successors F cur) visited st
                  (λ s. successors-lt F cur s closed) in
              rw (unused, miss, search_loop)
                (search_loop-Decides fuel r.0 r.1
                  (Inv-expand visited cur st unused (ground arith) inv) (omega (arith, p.work)))
        ]
      ]

  unvisited-empty : (n : ℕ) → unvisited n [] ≡ n
  unvisited-empty zero = refl
  unvisited-empty (suc n) = ground (arith, unvisited-empty n, contains-empty n)

  Inv-start : Inv (add first []) (first ∷ [])
  Inv-start = record {
    rooted = contains_self first [];
    sound = λ v m. rw (Memᴰ.eq_of_singleton m) here;
    handled = λ u m.
        ⊎_elim (λ q. absurd (false≢true (sym (contains-empty u) ∙ q))) (λ e. inl (Memᴰ.head e))
          (of_added u first [] m);
  }

  dfs_outcome-Decides : first < length F.blocks → Decides (dfs_outcome F exit arg first)
  unfolding dfs_outcome
  dfs_outcome-Decides h =
      search_loop-Decides (length F.blocks) (add first []) (first ∷ []) Inv-start (
        omega (
          arith,
          unvisited-add (length F.blocks) first [] h (contains-empty first),
          unvisited-empty (length F.blocks),
        ))

module _ (F : Function) (exit first : ℕ) (arg : Value) (closed : IsClosed F) where
  read_outcome :
      (o : Outcome)
      → Decides F exit arg first closed o
      → (o ≢ out_of_fuel) × ((o ≡ found) ↔ IsUnused F arg first exit)
  read_outcome found d = (λ e. cc, (λ _. d, λ _. refl))
  read_outcome exhausted d = (λ e. cc, (λ e. cc, λ p. absurd (d p)))
  read_outcome out_of_fuel d = absurd d

-- In a function whose successors are all blocks of it, the search returns within one round for each block, and finds the exit if and only if some path
-- of the control-flow graph leads from the first block to the exit and crosses no use of `arg`.
pub dfs_outcome_lem :
    (F : Function) (exit first : ℕ) (arg : Value)
    → IsClosed F
    → first < length F.blocks
    → (dfs_outcome F exit arg first ≢ out_of_fuel)
      × ((dfs_outcome F exit arg first ≡ found) ↔ IsUnused F arg first exit)
dfs_outcome_lem F exit first arg closed h =
    read_outcome F exit first arg closed _ (dfs_outcome-Decides F exit arg first closed h)
