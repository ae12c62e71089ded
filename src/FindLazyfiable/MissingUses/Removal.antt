-- ===== src/FindLazyfiable/MissingUses/Removal.antt =====
-- `removeDummyFunctions` of passes/FindLazyfiable.cpp after `addMissingUses`.
use mathlib.Core.List.Memᴰ
use wyvern.Base.{
  ℕ, zero, suc, ◌<◌, ◌≡◌, ◌≢◌, ◌↔◌, ◌⊎◌, refl, ap, sym, subst, ◌∙◌, Bool, true, false, ◌||◌, Option,
  none, some, List, [], ◌∷◌, Memᴰ, get_or, any, any_none, List-cases, inl, inr, All, All-map,
  All-mem, arith, length, ⊎_elim,
}
use wyvern.Base.Map
use wyvern.Base.Map.{Set, contains, add, contains_self, contains_kept, nat_order}
use wyvern.Ir.{Instruction, Block, Function, Module, Opcode, call, function, dummy_fun}
use wyvern.FindLazyfiable.MissingUses.{
  missing_uses, insert_before_last, insert_at, dummy_call, add_uses, add_missing_uses_in,
  add_missing_uses, dummies_of, dummy_functions, calls_dummy, has_users, remove_dummy_functions,
}
use wyvern.FindLazyfiable.MissingUses.Uses.{
  Flows, IsFilled, missing_uses_iff, insert_at-IsFilled, length-insert_at,
}

module _ (p : Instruction → Bool) where
  any-insert_before_last :
      (C : Instruction) (BB : Block) → BB ≢ [] → any p (insert_before_last C BB) ≡ (p C || any p BB)
  unfolding insert_before_last
  any-insert_before_last C [] h = absurd (h refl)
  any-insert_before_last C (I ∷ []) h = refl
  any-insert_before_last C (I ∷ I' ∷ rest) h =
      ground (arith, any-insert_before_last C (I' ∷ rest) (λ e. cc))

  any-insert_at :
      (b : ℕ) (C : Instruction) (blocks : List Block)
      → IsFilled blocks
      → b < length blocks
      → any (any p) (insert_at b C blocks) ≡ (p C || any (any p) blocks)
  unfolding insert_at
  any-insert_at b C [] f h = absurd (omega arith)
  any-insert_at zero C (BB ∷ rest) f h = ground (arith, any-insert_before_last C BB f.0)
  any-insert_at (suc b) C (BB ∷ rest) f h = ground (arith, any-insert_at b C rest f.1 (omega arith))

abbrev IsCovered : Set ℕ → List ℕ → List (ℕ × ℕ) → Type 0
IsCovered D types = All (λ (u : ℕ × ℕ). contains (get_or types u.1 0) D ≡ true)

abbrev IsInRange : ℕ → List (ℕ × ℕ) → Type 0
IsInRange n = All (λ (u : ℕ × ℕ). u.0 < n)

abbrev IsCoveredModule : Set ℕ → Module → Type 0
IsCoveredModule D = All (λ (F : Function). IsCovered D F.arg_types (missing_uses F.blocks))

-- A call that is there stays, and each use adds one.
module _ (D : Set ℕ) (fresh : ℕ) (types : List ℕ) where
  add_uses_kept :
      (uses : List (ℕ × ℕ)) (blocks : List Block)
      → IsFilled blocks
      → IsInRange (length blocks) uses
      → any (any (calls_dummy D)) blocks ≡ true
      → any (any (calls_dummy D)) (add_uses fresh types uses blocks) ≡ true
  unfolding add_uses
  add_uses_kept [] blocks f h e = e
  add_uses_kept ((b, i) ∷ uses) blocks f (here, h) e =
      let C = dummy_call fresh types i in
      add_uses_kept uses (insert_at b C blocks) (insert_at-IsFilled b C blocks f)
        (All-map (λ u q. omega (arith, q, length-insert_at b C blocks)) uses h)
        (ground (arith, any-insert_at (calls_dummy D) b C blocks f here, e))

  add_uses_calls :
      (b i : ℕ) (uses : List (ℕ × ℕ)) (blocks : List Block)
      → IsFilled blocks
      → IsInRange (length blocks) ((b, i) ∷ uses)
      → contains (get_or types i 0) D ≡ true
      → any (any (calls_dummy D)) (add_uses fresh types ((b, i) ∷ uses) blocks) ≡ true
  unfolding add_uses calls_dummy dummy_call
  add_uses_calls b i uses blocks f (here, h) e =
      let C = dummy_call fresh types i in
      add_uses_kept uses (insert_at b C blocks) (insert_at-IsFilled b C blocks f)
        (All-map (λ u q. omega (arith, q, length-insert_at b C blocks)) uses h)
        (any-insert_at (calls_dummy D) b C blocks f here ∙ rw e refl)

dummies_of_kept :
    (types : List ℕ) (uses : List (ℕ × ℕ)) (t : ℕ) (D : Set ℕ)
    → contains t D ≡ true
    → contains t (dummies_of types uses D) ≡ true
unfolding dummies_of
dummies_of_kept types [] t D h = h
dummies_of_kept types ((b, i) ∷ uses) t D h =
    dummies_of_kept types uses t (add (get_or types i 0) D) (contains_kept (get_or types i 0) t D h)

dummies_of_covers :
    (types : List ℕ) (uses : List (ℕ × ℕ)) (D : Set ℕ)
    → IsCovered (dummies_of types uses D) types uses
unfolding dummies_of
dummies_of_covers types [] D = tt
dummies_of_covers types ((b, i) ∷ uses) D = (
  dummies_of_kept types uses (get_or types i 0) (add (get_or types i 0) D)
      (contains_self (get_or types i 0) D),
  dummies_of_covers types uses (add (get_or types i 0) D),
)

dummy_functions_kept :
    (M : Module) (t : ℕ) (D : Set ℕ) → contains t D ≡ true → contains t (dummy_functions M D) ≡ true
unfolding dummy_functions
dummy_functions_kept [] t D h = h
dummy_functions_kept (F ∷ M) t D h =
    dummy_functions_kept M t (dummies_of F.arg_types (missing_uses F.blocks) D)
      (dummies_of_kept F.arg_types (missing_uses F.blocks) t D h)

dummy_functions_covers : (M : Module) (D : Set ℕ) → IsCoveredModule (dummy_functions M D) M
unfolding dummy_functions
dummy_functions_covers [] D = tt
dummy_functions_covers (F ∷ M) D = (
  All-map
      (λ (u : ℕ × ℕ).
        dummy_functions_kept M (get_or F.arg_types u.1 0)
          (dummies_of F.arg_types (missing_uses F.blocks) D))
      (missing_uses F.blocks) (dummies_of_covers F.arg_types (missing_uses F.blocks) D),
  dummy_functions_covers M (dummies_of F.arg_types (missing_uses F.blocks) D),
)

-- In some function of the module an argument flows into a phi node.
abbrev pub HasFlow : Module → Type 0
HasFlow M = (F : Function) × (i : ℕ) × (b : ℕ) × Memᴰ F M × Flows F.blocks i b

abbrev HasNoUses : Module → Type 0
HasNoUses = All (λ (F : Function). missing_uses F.blocks ≡ [])

-- The blocks of the functions end in terminators, and the edges of the phi nodes come from blocks.
abbrev pub IsFormed : Module → Type 0
IsFormed M =
    (F : Function)
    → Memᴰ F M
    → IsFilled F.blocks × ((i b : ℕ) → Flows F.blocks i b → b < length F.blocks)

All-of {ℓ κ} : {A : Type ℓ} (P : A → Type κ) (xs : List A) → ((x : A) → Memᴰ x xs → P x) → All P xs
All-of P [] h = tt
All-of P (x ∷ xs) h = (h x (Memᴰ.head refl), All-of P xs (λ y m. h y (Memᴰ.tail m)))

later_flow : (F : Function) (M : Module) → HasFlow M → HasFlow (F ∷ M)
later_flow F M (G, i, b, m, f) = (G, i, b, Memᴰ.tail m, f)

users_or_none :
    (D : Set ℕ) (fresh : ℕ) (M : Module)
    → IsFormed M
    → IsCoveredModule D M
    → (HasFlow M × (has_users D (add_missing_uses fresh M) ≡ true)) ⊎ HasNoUses M
unfolding has_users add_missing_uses add_missing_uses_in
users_or_none D fresh [] formed cov = inr tt
users_or_none D fresh (F ∷ M) formed cov = elim (List-cases (missing_uses F.blocks)) [
  | inr ((b, i), uses, e) ↦
      let (filled, edges) = formed F (Memᴰ.head refl) in
      let in_range : IsInRange (length F.blocks) (missing_uses F.blocks) =
        All-of (λ (u : ℕ × ℕ). u.0 < length F.blocks) (missing_uses F.blocks)
          (λ u m. edges u.1 u.0 ((missing_uses_iff F.blocks u.1 u.0).0 m)) in
      let flow = (missing_uses_iff F.blocks i b).0 (rw e (Memᴰ.head refl)) in
      let called =
        add_uses_calls D fresh F.arg_types b i uses F.blocks filled (rw e at in_range)
          (rw e at cov.0).0 in
      inl ((F, i, b, Memᴰ.head refl, flow), rw (e, called) refl)
  | inl e ↦
      ⊎_elim (λ (flow, called). inl (later_flow F M flow, ground (arith, called)))
        (λ rest. inr (e, rest)) (users_or_none D fresh M (λ G m. formed G (Memᴰ.tail m)) cov.1)
]

no_uses_same :
    (fresh : ℕ) (M : Module) (D : Set ℕ)
    → HasNoUses M
    → (add_missing_uses fresh M ≡ M) × (dummy_functions M D ≡ D)
unfolding add_missing_uses add_missing_uses_in add_uses dummy_functions dummies_of
no_uses_same fresh [] D h = (refl, refl)
no_uses_same fresh (F ∷ M) D (e, h) =
    let (same, none_new) = no_uses_same fresh M D h in
    (rw (e, add_uses) (ap (◌∷◌ F) same), rw (e, dummies_of) none_new)

no_dummy_called :
    (o : Opcode) → (elim o [ call (some (dummy_fun t)) ↦ contains t [] | _ ↦ false ]) ≡ false
unfolding contains Map.find
no_dummy_called (call (some (dummy_fun t))) = refl
no_dummy_called (call (some (function g))) = refl
no_dummy_called (call none) = refl
no_dummy_called _ = refl

no_users : (M : Module) → has_users [] M ≡ false
unfolding has_users calls_dummy
no_users M = (any_none (λ (F : Function). any (any (calls_dummy [])) F.blocks) M).1 (λ F _.
    (any_none (any (calls_dummy [])) F.blocks).1
      (λ BB _. (any_none (calls_dummy []) BB).1 (λ I _. no_dummy_called I.opcode)))

no_flow : (M : Module) → HasNoUses M → HasFlow M → false ≡ true
no_flow M h (F, i, b, m, flow) =
    let e = All-mem (λ (G : Function). missing_uses G.blocks ≡ []) F M h m in
    absurd (Memᴰ.not-nil (subst (λ us. Memᴰ (b, i) us) e ((missing_uses_iff F.blocks i b).1 flow)))

-- Where the blocks end in terminators and the phi nodes' edges come from blocks: after
-- `addMissingUses`, `removeDummyFunctions` reads freed memory if and only if in some function of the
-- module an argument flows into a phi node; and where none does, it gives the module back.
pub remove_dummy_functions_lem :
    (fresh : ℕ) (M : Module)
    → IsFormed M
    → ((remove_dummy_functions (dummy_functions M []) (add_missing_uses fresh M) ≡ none)
        ↔ HasFlow M)
      × ((HasFlow M → false ≡ true)
          → remove_dummy_functions (dummy_functions M []) (add_missing_uses fresh M) ≡ some M)
unfolding remove_dummy_functions
remove_dummy_functions_lem fresh M formed =
    ⊎_elim
      (λ (flow, used). (
        (λ _. flow, λ _. rw (used, remove_dummy_functions) refl),
        λ h. let never : false ≡ true = h flow in cc never,
      ))
      (λ empty.
        let (same, no_dummies) = no_uses_same fresh M [] empty in
        let kept : remove_dummy_functions (dummy_functions M []) (add_missing_uses fresh M)
            ≡ some M =
          rw (same, no_dummies, remove_dummy_functions, no_users M) refl in
        (
          (
            λ e. let never : ◌≡◌ {A = Option Module} (some M) none = sym kept ∙ e in cc never,
            λ flow. let never : false ≡ true = no_flow M empty flow in cc never,
          ),
          λ _. kept,
        ))
      (users_or_none (dummy_functions M []) fresh M formed (dummy_functions_covers M []))
