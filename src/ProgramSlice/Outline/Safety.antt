-- ===== src/ProgramSlice/Outline/Safety.antt =====
-- What `canOutline`, passes/ProgramSlice.cpp, makes sure of.

use wyvern.Base.{
  ℕ, ◌<◌, ◌≡◌, ◌≢◌, refl, ◌↔◌, ◌⊎◌, inl, inr, ⊎_elim, true, false, ◌&&◌, [], ◌∷◌, Memᴰ, Option,
  none, some, arith, any, any_none, get_or, Option-cases, Bool-cases, ltb,
}
use wyvern.Ir.{
  Value, inst, constant, Callee, Opcode, phi, ret, branch, switch, call, store, load, alloca, other,
  Instruction, Block, Function, Module, callee_body, call_args,
}
use wyvern.ProgramSlice.Dependences.{same_value_iff}
use wyvern.ProgramSlice.Outline.{
  Analyses, Slice, is_slice_alloca, load_is_mod, clobbers_at, clobbers, calls_unknown, bad_access,
  bad_memory, bad_pointer, refuses, shallow, has_terminator, bad_criterion, can_outline,
}

module _ (A : Analyses) (M : Module) (F : Function) (CS : Instruction) (site_block : ℕ)
    (initial : Instruction) (S : Slice) where
  -- The instruction leaves the slice's allocas as they are.
  pub record KeepsAt (I : Instruction) (o : Opcode) : Type 0 where
    pub stores :
        o ≡ store
        → is_slice_alloca S (A.underlying_object (get_or I.operands 1 (constant 0))) ≡ false
    pub loads :
        o ≡ load
        → load_is_mod A M F CS site_block initial S I ≡ true
        → is_slice_alloca S (A.underlying_object (get_or I.operands 0 (constant 0))) ≡ false

  -- The callee has a body, or is a library function.
  abbrev pub IsKnown : Instruction → Option Callee → Type 0
  IsKnown I c =
      (k : Callee) × (c ≡ some k)
      × (((g : ℕ) × (callee_body M k ≡ some g)) ⊎ (A.is_lib_fun I ≡ true))

  abbrev pub ReadsOnly : Instruction → Opcode → Type 0
  ReadsOnly I o =
      ((o ≡ load) × (load_is_mod A M F CS site_block initial S I ≡ false))
      ⊎ ((k : Callee) × (o ≡ call (some k)) × (A.only_reads_memory k ≡ true))

  -- The instruction can be computed later, once or not at all.
  pub record IsPure (I : Instruction) : Type 0 where
    pub no_throw : A.may_throw I ≡ false
    pub known : (c : Option Callee) → I.opcode ≡ call c → IsKnown I c
    pub memory : A.may_read_or_write I ≡ true → ReadsOnly I I.opcode
    pub returns : A.may_read_or_write I ≡ false → A.will_return I ≡ true
    pub pointers :
        (arg : Value)
        → Memᴰ arg (call_args CS)
        → arg ≢ inst initial.id
        → A.is_pointer arg ≡ true
        → A.is_pointer (inst I.id) ≡ true
        → A.no_alias arg (inst I.id) ≡ true

  pub record IsSafe : Type 0 where
    pub keeps : (BB : Block) (I : Instruction) → Memᴰ BB F.blocks → Memᴰ I BB → KeepsAt I I.opcode
    pub pure : (I : Instruction) → Memᴰ I S.insts → IsPure I
    pub loops :
        0 < A.loop_depth site_block
        → (b : ℕ) → Memᴰ (b, tt) S.bbs
        → A.loop_depth site_block < A.loop_depth b
    pub no_alloca : initial.opcode ≢ alloca
    pub gated :
        (b : ℕ)
        → initial.opcode ≡ phi (b ∷ [])
        → has_terminator A M F CS site_block initial S b ≡ true

  clobbers_at_iff :
      (I : Instruction) (o : Opcode)
      → (clobbers_at A M F CS site_block initial S I o ≡ false) ↔ KeepsAt I o
  unfolding clobbers_at
  clobbers_at_iff I store = (λ e. record { stores = λ _. e; loads = λ e. cc }, λ k. k.stores refl)
  clobbers_at_iff I load = (
    λ e. record { stores = λ e. cc; loads = λ _ m. ground arith },
    λ k. elim (Bool-cases (load_is_mod A M F CS site_block initial S I)) [
      | inl m ↦ rw m (k.loads refl m)
      | inr m ↦ rw m refl
    ],
  )
  clobbers_at_iff I (phi _) = (λ e. record { stores = λ e. cc; loads = λ e. cc }, λ _. refl)
  clobbers_at_iff I ret = (λ e. record { stores = λ e. cc; loads = λ e. cc }, λ _. refl)
  clobbers_at_iff I (branch _) = (λ e. record { stores = λ e. cc; loads = λ e. cc }, λ _. refl)
  clobbers_at_iff I (switch _) = (λ e. record { stores = λ e. cc; loads = λ e. cc }, λ _. refl)
  clobbers_at_iff I (call _) = (λ e. record { stores = λ e. cc; loads = λ e. cc }, λ _. refl)
  clobbers_at_iff I alloca = (λ e. record { stores = λ e. cc; loads = λ e. cc }, λ _. refl)
  clobbers_at_iff I other = (λ e. record { stores = λ e. cc; loads = λ e. cc }, λ _. refl)

  calls_unknown_iff :
      (I : Instruction) (o : Opcode)
      → (calls_unknown A M F CS site_block initial S I o ≡ false)
        ↔ ((c : Option Callee) → o ≡ call c → IsKnown I c)
  unfolding calls_unknown
  calls_unknown_iff I (call none) = (λ e. cc, λ h. let (k, e, p) = h none refl in cc e)
  calls_unknown_iff I (call (some k)) = elim (Option-cases (callee_body M k)) [
    | inl no_body ↦
        rw (no_body, calls_unknown)
          (
            λ e c q. (k, cc q, inr (ground arith)),
            λ h.
                let (j, e, p) = h (some k) refl in
                ⊎_elim (λ (g, body). let same : k ≡ j = cc e in cc (no_body, rw (← same) at body))
                  (λ lib. rw lib refl) p,
          )
    | inr (g, body) ↦ rw (body, calls_unknown) (λ _ c q. (k, cc q, inl (g, body)), λ _. refl)
  ]
  calls_unknown_iff I (phi _) = (λ _ c e. cc, λ _. refl)
  calls_unknown_iff I ret = (λ _ c e. cc, λ _. refl)
  calls_unknown_iff I (branch _) = (λ _ c e. cc, λ _. refl)
  calls_unknown_iff I (switch _) = (λ _ c e. cc, λ _. refl)
  calls_unknown_iff I store = (λ _ c e. cc, λ _. refl)
  calls_unknown_iff I load = (λ _ c e. cc, λ _. refl)
  calls_unknown_iff I alloca = (λ _ c e. cc, λ _. refl)
  calls_unknown_iff I other = (λ _ c e. cc, λ _. refl)

  bad_access_iff :
      (I : Instruction) (o : Opcode)
      → (bad_access A M F CS site_block initial S I o ≡ false) ↔ ReadsOnly I o
  unfolding bad_access
  bad_access_iff I load = (λ e. inl (refl, e), ⊎_elim (λ p. p.1) (λ (k, e, p). cc e))
  bad_access_iff I (call (some c)) = (
    λ e. inr (c, refl, ground arith),
    ⊎_elim (λ p. cc (p.0)) (λ (k, e, p). let same : c ≡ k = cc e in rw same (rw p refl)),
  )
  bad_access_iff I (call none) = (λ e. cc, ⊎_elim (λ p. cc (p.0)) (λ (k, e, p). cc e))
  bad_access_iff I (phi _) = (λ e. cc, ⊎_elim (λ p. cc (p.0)) (λ (k, e, p). cc e))
  bad_access_iff I ret = (λ e. cc, ⊎_elim (λ p. cc (p.0)) (λ (k, e, p). cc e))
  bad_access_iff I (branch _) = (λ e. cc, ⊎_elim (λ p. cc (p.0)) (λ (k, e, p). cc e))
  bad_access_iff I (switch _) = (λ e. cc, ⊎_elim (λ p. cc (p.0)) (λ (k, e, p). cc e))
  bad_access_iff I store = (λ e. cc, ⊎_elim (λ p. cc (p.0)) (λ (k, e, p). cc e))
  bad_access_iff I alloca = (λ e. cc, ⊎_elim (λ p. cc (p.0)) (λ (k, e, p). cc e))
  bad_access_iff I other = (λ e. cc, ⊎_elim (λ p. cc (p.0)) (λ (k, e, p). cc e))

  bad_memory_iff :
      (I : Instruction)
      → (bad_memory A M F CS site_block initial S I ≡ false) ↔ (
          (A.may_read_or_write I ≡ true → ReadsOnly I I.opcode)
          × (A.may_read_or_write I ≡ false → A.will_return I ≡ true))
  unfolding bad_memory
  bad_memory_iff I = elim (Bool-cases (A.may_read_or_write I)) [
    | inl m ↦
        let (to, from) = bad_access_iff I I.opcode in
        rw (m, bad_memory) (λ e. (λ _. to e, λ e. cc), λ h. from (h.0 refl))
    | inr m ↦ rw (m, bad_memory) (λ e. (λ e. cc, λ _. ground arith), λ h. rw (h.1 refl) refl)
  ]

  bad_pointer_iff :
      (I : Instruction) (arg : Value)
      → (bad_pointer A M F CS site_block initial S I arg ≡ false) ↔ (
          arg ≢ inst initial.id
          → A.is_pointer arg ≡ true
          → A.is_pointer (inst I.id) ≡ true
          → A.no_alias arg (inst I.id) ≡ true)
  unfolding bad_pointer
  bad_pointer_iff I arg = (
    λ e ne p q. ground (arith, same_value_iff arg (inst initial.id)),
    λ h. ground (arith, same_value_iff arg (inst initial.id)),
  )

  refuses_iff : (I : Instruction) → (refuses A M F CS site_block initial S I ≡ false) ↔ IsPure I
  unfolding refuses
  refuses_iff I =
      let unknown = calls_unknown_iff I I.opcode in
      let memory = bad_memory_iff I in
      let pointers = any_none (bad_pointer A M F CS site_block initial S I) (call_args CS) in
      (
        λ e.
            let m = memory.0 (ground arith) in
            record {
              no_throw = ground arith;
              known = unknown.0 (ground arith);
              memory = m.0;
              returns = m.1;
              pointers = λ arg at. (bad_pointer_iff I arg).0 (pointers.0 (ground arith) arg at);
            },
        λ p.
            let u = unknown.1 p.known in
            let m = memory.1 (p.memory, p.returns) in
            let q = pointers.1 (λ arg at. (bad_pointer_iff I arg).1 (p.pointers arg at)) in
            let t = p.no_throw in rw (t, u, m) q,
      )

  bad_criterion_iff :
      (o : Opcode)
      → (bad_criterion A M F CS site_block initial S o ≡ false) ↔ (
          (o ≢ alloca)
          × ((b : ℕ) → o ≡ phi (b ∷ []) → has_terminator A M F CS site_block initial S b ≡ true))
  unfolding bad_criterion
  bad_criterion_iff alloca = (λ e. cc, λ p. absurd (p.0 refl))
  bad_criterion_iff (phi []) = (λ _. (λ e. cc, λ b e. cc), λ _. refl)
  bad_criterion_iff (phi (b ∷ [])) = (
    λ e. (λ e. cc, λ c q. let same : b ≡ c = cc q in rw (← same) (ground arith)),
    λ p. rw (p.1 b refl) refl,
  )
  bad_criterion_iff (phi (b ∷ c ∷ bs)) = (λ _. (λ e. cc, λ b e. cc), λ _. refl)
  bad_criterion_iff ret = (λ _. (λ e. cc, λ b e. cc), λ _. refl)
  bad_criterion_iff (branch _) = (λ _. (λ e. cc, λ b e. cc), λ _. refl)
  bad_criterion_iff (switch _) = (λ _. (λ e. cc, λ b e. cc), λ _. refl)
  bad_criterion_iff (call _) = (λ _. (λ e. cc, λ b e. cc), λ _. refl)
  bad_criterion_iff store = (λ _. (λ e. cc, λ b e. cc), λ _. refl)
  bad_criterion_iff load = (λ _. (λ e. cc, λ b e. cc), λ _. refl)
  bad_criterion_iff other = (λ _. (λ e. cc, λ b e. cc), λ _. refl)

  loops_iff :
      ((ltb 0 (A.loop_depth site_block) && any (shallow A M F CS site_block initial S) S.bbs)
        ≡ false)
      ↔ (0 < A.loop_depth site_block
          → (b : ℕ) → Memᴰ (b, tt) S.bbs
          → A.loop_depth site_block < A.loop_depth b)
  unfolding shallow
  loops_iff =
      let inside = any_none (shallow A M F CS site_block initial S) S.bbs in
      (
        λ e h b m. ground (arith, inside.0 (ground arith) (b, tt) m),
        λ h. elim (Bool-cases (ltb 0 (A.loop_depth site_block))) [
          | inl deep ↦ rw deep (inside.1 (λ (b, u) m. ground (arith, h (ground arith) b m)))
          | inr top ↦ rw top refl
        ],
      )

  any-clobbers_iff :
      (any (any (clobbers A M F CS site_block initial S)) F.blocks ≡ false)
      ↔ ((BB : Block) (I : Instruction) → Memᴰ BB F.blocks → Memᴰ I BB → KeepsAt I I.opcode)
  unfolding clobbers
  any-clobbers_iff =
      let p = clobbers A M F CS site_block initial S in
      let outer = any_none (any p) F.blocks in
      (
        λ e BB I m n. (clobbers_at_iff I I.opcode).0 ((any_none p BB).0 (outer.0 e BB m) I n),
        λ h.
            outer.1
              (λ BB m. (any_none p BB).1 (λ I n. (clobbers_at_iff I I.opcode).1 (h BB I m n))),
      )

  -- `canOutline` returns true if and only if the slice is safe to compute later: no store and no
  -- modified load of the function reaches an alloca of the slice; no instruction of the slice throws,
  -- calls what is unknown, writes memory or reads what is modified, hangs, or may alias another
  -- pointer argument of the call; in a loop, all of the slice's blocks are deeper in the nest than
  -- the call; and the criterion is neither an alloca nor a phi node of one incoming block whose
  -- terminator is outside of the slice.
  pub can_outline_lem : (can_outline A M F CS site_block initial S ≡ true) ↔ IsSafe
  unfolding can_outline
  can_outline_lem =
      let each = any_none (refuses A M F CS site_block initial S) S.insts in
      let criterion = bad_criterion_iff initial.opcode in
      (
        λ e.
            let c = criterion.0 (ground arith) in
            record {
              keeps = any-clobbers_iff.0 (ground arith);
              pure = λ I m. (refuses_iff I).0 (each.0 (ground arith) I m);
              loops = loops_iff.0 (ground arith);
              no_alloca = c.0;
              gated = c.1;
            },
        λ s.
            let k = any-clobbers_iff.1 s.keeps in
            let p = each.1 (λ I m. (refuses_iff I).1 (s.pure I m)) in
            let l = loops_iff.1 s.loops in
            let c = criterion.1 (s.no_alloca, s.gated) in rw (k, p, l, c) refl,
      )

  -- Where stores access memory, no slice that is outlined has a store, and every call in it goes to
  -- a callee that only reads.
  pub can_outline-effects :
      (I : Instruction)
      → can_outline A M F CS site_block initial S ≡ true
      → Memᴰ I S.insts
      → A.may_read_or_write I ≡ true
      → (I.opcode ≢ store)
        × ((k : Callee) → I.opcode ≡ call (some k) → A.only_reads_memory k ≡ true)
  can_outline-effects I out m access =
      let r = ((can_outline_lem.0 out).pure I m).memory access in
      (
        λ e. ⊎_elim (λ p. cc (p.0, e)) (λ (k, at, p). cc (at, e)) r,
        λ k e.
            ⊎_elim (λ p. cc (p.0, e)) (λ (j, at, p). let same : j ≡ k = cc (at, e) in rw (← same) p)
              r,
      )
