-- ===== src/ProgramSlice/Control/Nearest.antt =====
-- The loops of passes/ProgramSlice.cpp that climb a dominator tree stop at the nearest node.
use wyvern.Base.{
  ℕ, zero, suc, ◌+◌, ◌≤◌, ◌<◌, ◌≡◌, refl, sym, subst, ◌∙◌, ◌⊎◌, inl, inr, ⊎_elim, Bool, true, false,
  not, List, [], ◌∷◌, Option, none, some, arith, Bool-cases, Option-cases, length, get_elem?,
  false≢true,
}
use wyvern.Base.Map.{Set, contains, nat_order}
use wyvern.Ir.{Block, Function}
use wyvern.ProgramSlice.Control.{
  DomTree, climb, climb_from, get_controller, attractor, attractors_from, compute_attractor_blocks,
}

-- d is b or a node above it.
pub data IsAbove (T : DomTree) (d : ℕ) : ℕ → Type 0 where
  itself : {b : ℕ} → d ≡ b → IsAbove T d b
  above : {b c : ℕ} → T.idom b ≡ some c → IsAbove T d c → IsAbove T d b

-- d passes the test, and no node between it and b does: the passing nodes above b are at d or higher.
pub record IsNearest (T : DomTree) (test : ℕ → Bool) (b d : ℕ) : Type 0 where
  pub reached : IsAbove T d b
  pub passes : test d ≡ true
  pub nearest : (e : ℕ) → IsAbove T e b → test e ≡ true → T.level e ≤ T.level d

-- Either the nearest passing node is the result, or there is none.
abbrev pub Climbs : DomTree → (ℕ → Bool) → ℕ → Option ℕ → Type 0
Climbs T test b (some d) = IsNearest T test b d
Climbs T test b none = (e : ℕ) → IsAbove T e b → test e ≡ false

module _ (T : DomTree) (test : ℕ → Bool) where
  IsAbove-level : (d b : ℕ) → IsAbove T d b → T.level d ≤ T.level b
  IsAbove-level d b (itself e) = rw e (omega arith)
  IsAbove-level d b (above {c = c} up p) = omega (arith, IsAbove-level d c p, T.idom_lower b c up)

  -- A node above b is b, or above the node over b.
  of_IsAbove : (e b : ℕ) → IsAbove T e b → (e ≡ b) ⊎ ((c : ℕ) × (T.idom b ≡ some c) × IsAbove T e c)
  of_IsAbove e b (itself same) = inl same
  of_IsAbove e b (above {c = c} up p) = inr (c, up, p)

  climb-Climbs : (fuel b : ℕ) → T.level b < fuel → Climbs T test b (climb T test fuel (some b))
  unfolding climb
  climb-Climbs zero b h = absurd (omega arith)
  climb-Climbs (suc fuel) b h = elim (Bool-cases (test b)) [
    | inl pass ↦
        rw (pass, climb)
          (record { reached = itself refl; passes = pass; nearest = λ e p t. IsAbove-level e b p })
    | inr fail ↦ elim (Option-cases (T.idom b)) [
      | inl root ↦
          rw (fail, climb, root)
            (λ e p. ⊎_elim (λ same. rw same fail) (λ (c, up, q). cc (up, root)) (of_IsAbove e b p))
      | inr (c, up) ↦
          rw (fail, climb, up)
            (lift c up (climb T test fuel (some c))
              (climb-Climbs fuel c (omega (arith, T.idom_lower b c up))) fail)
    ]
  ]
    where
      lift :
          (c : ℕ)
          → T.idom b ≡ some c
          → (r : Option ℕ) → Climbs T test c r
          → test b ≡ false
          → Climbs T test b r
      lift c up (some d) n fail = record {
        reached = above up n.reached;
        passes = n.passes;
        nearest = λ e p t.
            ⊎_elim (λ same. absurd (false≢true (sym fail ∙ subst (λ x. test x ≡ true) same t)))
              (λ (k, up', q).
                let eq : k ≡ c = cc (up, up') in n.nearest e (subst (IsAbove T e) eq q) t)
              (of_IsAbove e b p);
      }
      lift c up none n fail = λ e p.
          ⊎_elim (λ same. rw same fail)
            (λ (k, up', q). let eq : k ≡ c = cc (up, up') in n e (subst (IsAbove T e) eq q))
            (of_IsAbove e b p)

-- `getController` returns the nearest dominator of BB, itself included, that BB does not
-- post-dominate, and null only where BB post-dominates all its dominators.
pub get_controller_lem :
    (DT PDT : DomTree) (BB : ℕ)
    → Climbs DT (λ d. not (PDT.dominates BB d)) BB (get_controller DT PDT BB)
unfolding get_controller climb_from
get_controller_lem DT PDT BB =
    climb-Climbs DT (λ d. not (PDT.dominates BB d)) (suc (DT.level BB)) BB (omega arith)

-- What the map of attractors holds for a block.
abbrev pub Attracts : DomTree → Set ℕ → ℕ → Option ℕ → Type 0
Attracts PDT bbs BB r =
    ((contains BB bbs ≡ true) × (r ≡ some BB))
    ⊎ ((contains BB bbs ≡ false) × Climbs PDT (λ b. contains b bbs) BB r)

attractor-Attracts :
    (PDT : DomTree) (bbs : Set ℕ) (BB : ℕ) → Attracts PDT bbs BB (attractor PDT bbs BB)
unfolding attractor climb
attractor-Attracts PDT bbs BB = elim (Bool-cases (contains BB bbs)) [
  | inl here ↦ rw (here, attractor) (inl (refl, refl))
  | inr out ↦
      rw (out, attractor)
        (inr (
          refl,
          rw (out, climb) at
              (climb-Climbs PDT (λ b. contains b bbs) (suc (PDT.level BB)) BB (omega arith)),
        ))
]

attractors_from-Attracts :
    (PDT : DomTree) (bbs : Set ℕ) (b i : ℕ) (blocks : List Block)
    → i < length blocks
    → (r : Option ℕ) × (get_elem? (attractors_from PDT bbs b blocks) i ≡ some r)
      × Attracts PDT bbs (b + i) r
unfolding attractors_from
attractors_from-Attracts PDT bbs b i [] h = absurd (omega arith)
attractors_from-Attracts PDT bbs b zero (BB ∷ rest) h = (
  attractor PDT bbs b,
  refl,
  subst (λ n. Attracts PDT bbs n (attractor PDT bbs b)) (omega arith)
      (attractor-Attracts PDT bbs b),
)
attractors_from-Attracts PDT bbs b (suc i) (BB ∷ rest) h =
    let (r, at, a) = attractors_from-Attracts PDT bbs (suc b) i rest (omega arith) in
    (r, at, subst (λ n. Attracts PDT bbs n r) (omega arith) a)

-- The attractor of a block of the slice is the block itself; that of any other block is its nearest
-- post-dominator in the slice, and it has none only where no post-dominator is in the slice.
pub compute_attractor_blocks_lem :
    (PDT : DomTree) (bbs : Set ℕ) (F : Function) (BB : ℕ)
    → BB < length F.blocks
    → (r : Option ℕ) × (get_elem? (compute_attractor_blocks PDT bbs F) BB ≡ some r)
      × Attracts PDT bbs BB r
unfolding compute_attractor_blocks
compute_attractor_blocks_lem PDT bbs F BB h =
    let (r, at, a) = attractors_from-Attracts PDT bbs 0 BB F.blocks h in
    (r, at, subst (λ n. Attracts PDT bbs n r) (omega arith) a)
