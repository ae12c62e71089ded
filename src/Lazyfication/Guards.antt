-- ===== src/Lazyfication/Guards.antt =====
-- The early returns of lazifyCallsite, passes/Lazyfication.cpp, against a description of the call
-- sites that can be lazified.
use wyvern.Base.{
  ℕ, ◌≡◌, ◌↔◌, refl, sym, ap, ◌∙◌, subst, Bool, true, false, not, ◌||◌, Option, none, some, arith,
  ==_iff, any_some, any-mem, any, Memᴰ, get_elem?, Bool-cases, Option-cases, inl, inr,
}
use wyvern.Ir.{
  Value, inst, argument, constant, same_value, call_args, Block, Callee, Opcode, phi, ret, branch,
  switch, call, store, load, alloca, other, Instruction, Function, Module, callee_body,
}
use wyvern.ProgramSlice.Dependences.{as_instruction}
use wyvern.ProgramSlice.Outline.{Slice, new_slice, can_outline}
use wyvern.Lazyfication.{
  Site, Lazified, Llvm, Driver, uses_argument, types_after, check_callee, outlines, check_argument,
  check, lazify_callsite,
}

-- An instruction of the function has the argument as an operand.
abbrev pub Uses : Function → ℕ → Type 0
Uses G i =
    (BB : Block) × (I : Instruction) × Memᴰ BB G.blocks × Memᴰ I BB × Memᴰ (argument i) I.operands

same_argument : (i : ℕ) (v : Value) → same_value (argument i) v ≡ true → argument i ≡ v
same_argument i (argument j) e = ap argument ((==_iff i j).0 e)
same_argument i (inst a) e = cc e
same_argument i (constant c) e = cc e

uses_argument_iff : (G : Function) (i : ℕ) → (uses_argument G i ≡ true) ↔ Uses G i
uses_argument_iff G i = (
  λ e.
      let (BB, in_G, e1) =
        any_some (λ (B : Block). any (λ I. any (same_value (argument i)) I.operands) B) G.blocks
          e in
      let (I, in_BB, e2) =
        any_some (λ (J : Instruction). any (same_value (argument i)) J.operands) BB e1 in
      let (v, in_I, e3) = any_some (same_value (argument i)) I.operands e2 in
      (BB, I, in_G, in_BB, subst (λ w. Memᴰ w I.operands) (sym (same_argument i v e3)) in_I),
  λ (BB, I, in_G, in_BB, in_I).
      any-mem (λ (B : Block). any (λ J. any (same_value (argument i)) J.operands) B) G.blocks BB
        in_G
        (any-mem (λ (J : Instruction). any (same_value (argument i)) J.operands) BB I in_BB
          (any-mem (same_value (argument i)) I.operands (argument i) in_I ((==_iff i i).1 refl))),
)

-- The call is in the caller, passes the result of an instruction whose slice can be outlined, and
-- calls a function with a body and a fixed number of arguments that uses this one.
pub record CanLazify (L : Llvm) (M : Module) (s : Site) (index : ℕ) (l : Lazified) : Type 0 where
  pub F : Function
  pub site_block : ℕ
  pub site_inst : Instruction
  pub arg_block : ℕ
  pub initial : Instruction
  pub S : Slice
  pub c : Callee
  pub G : Function
  pub has_caller : get_elem? M s.caller ≡ some F
  pub has_call : as_instruction F (inst s.address) ≡ some (site_block, site_inst)
  pub passes : get_elem? (call_args site_inst) index ≡ some (inst l.arg)
  pub has_arg : as_instruction F (inst l.arg) ≡ some (arg_block, initial)
  pub has_slice : new_slice F (L.dom_tree F) (L.post_dom_tree F) (L.preds F) (inst l.arg) ≡ some S
  pub can : can_outline (L.analyses M F) M F site_inst site_block initial S ≡ true
  pub calls : site_inst.opcode ≡ call (some c)
  pub has_body : callee_body M c ≡ some l.callee
  pub has_callee : get_elem? M l.callee ≡ some G
  pub is_fixed : G.is_var_arg ≡ false
  pub is_used : Uses G index

-- What a chain of look-ups that succeeds has found.
found {ℓ κ} :
    {A : Type ℓ} {B : Type κ} (o : Option A) (f : A → Option B) (b : B)
    → (elim o [ none ↦ none | some a ↦ f a ]) ≡ some b
    → (a : A) × (o ≡ some a) × (f a ≡ some b)
found none f b e = cc e
found (some a) f b e = (a, refl, e)

holds {ℓ} :
    {A : Type ℓ} (o : Option A) (f : A → Bool)
    → (elim o [ none ↦ false | some a ↦ f a ]) ≡ true
    → (a : A) × (o ≡ some a) × (f a ≡ true)
holds none f e = cc e
holds (some a) f e = (a, refl, e)

some_lazified : (k l : Lazified) → ◌≡◌ {A = Option Lazified} (some k) (some l) → k ≡ l
some_lazified k l e = cc e

module _ (L : Llvm) (M : Module) (s : Site) (index : ℕ) where
  check_complete : (l : Lazified) → CanLazify L M s index l → check L M s index ≡ some l
  unfolding check check_argument outlines check_callee
  check_complete l h =
      rw
        (
          h.has_caller,
          check,
          h.has_call,
          h.passes,
          check_argument,
          h.has_arg,
          outlines,
          h.has_slice,
          h.can,
          h.calls,
          h.has_body,
          check_callee,
          h.has_callee,
          h.is_fixed,
          (uses_argument_iff h.G index).1 h.is_used,
        )
        refl

  abbrev function_test : ℕ → ℕ → Function → Option Lazified
  function_test a g G = elim (G.is_var_arg || not (uses_argument G index)) [
    | true ↦ none
    | false ↦ some (record { arg = a; callee = g })
  ]

  abbrev callee_test : ℕ → ℕ → Option Lazified
  callee_test a g = elim (get_elem? M g) [ none ↦ none | some G ↦ function_test a g G ]

  callee_found :
      (a : ℕ) (o : Opcode) (l : Lazified)
      → check_callee L M s index a o ≡ some l
      → (c : Callee) × (G : Function) × (o ≡ call (some c))
        × (callee_body M c ≡ some l.callee)
        × (get_elem? M l.callee ≡ some G)
        × (G.is_var_arg ≡ false)
        × (uses_argument G index ≡ true)
        × (a ≡ l.arg)
  unfolding check_callee
  callee_found a (call (some c)) l e =
      let (g, body, e1) = found (callee_body M c) (callee_test a) l e in
      let (G, there, e2) = found (get_elem? M g) (function_test a g) l e1 in
      elim (Bool-cases (G.is_var_arg || not (uses_argument G index))) [
        | inl bad ↦
            let never : ◌≡◌ {A = Option Lazified} none (some l) = rw (bad, function_test) at e2 in
            cc never
        | inr good ↦
            let same : ◌≡◌ {A = Lazified} (record { arg = a; callee = g }) l =
              some_lazified _ l (rw (good, function_test) at e2) in
            let same_callee : g ≡ l.callee = ap (λ (x : Lazified). x.callee) same in
            (
              c,
              G,
              refl,
              body ∙ ap some same_callee,
              subst (λ k. get_elem? M k ≡ some G) same_callee there,
              ground arith,
              ground arith,
              ap (λ (x : Lazified). x.arg) same,
            )
      ]
  callee_found a (call none) l e = cc e
  callee_found a (phi bs) l e = cc e
  callee_found a ret l e = cc e
  callee_found a (branch bs) l e = cc e
  callee_found a (switch bs) l e = cc e
  callee_found a store l e = cc e
  callee_found a load l e = cc e
  callee_found a alloca l e = cc e
  callee_found a other l e = cc e

  argument_found :
      (F : Function) (b : ℕ) (CI : Instruction) (v : Option Value) (l : Lazified)
      → check_argument L M s index F b CI v ≡ some l
      → (a : ℕ) × (v ≡ some (inst a))
        × (outlines L M s index F b CI a ≡ true)
        × (check_callee L M s index a CI.opcode ≡ some l)
  unfolding check_argument
  argument_found F b CI (some (inst a)) l e = elim (Bool-cases (outlines L M s index F b CI a)) [
    | inl good ↦ (a, refl, good, rw good at e)
    | inr bad ↦ let never : ◌≡◌ {A = Option Lazified} none (some l) = rw bad at e in cc never
  ]
  argument_found F b CI (some (argument a)) l e = cc e
  argument_found F b CI (some (constant a)) l e = cc e
  argument_found F b CI none l e = cc e

  check_sound : (l : Lazified) → check L M s index ≡ some l → CanLazify L M s index l
  unfolding check outlines
  check_sound l e =
      let (F, e1, q1) =
        found (get_elem? M s.caller)
          (λ F. elim (as_instruction F (inst s.address)) [
            | none ↦ none
            | some (b, CI) ↦ check_argument L M s index F b CI (get_elem? (call_args CI) index)
          ])
          l e in
      let ((b, CI), e2, q2) =
        found (as_instruction F (inst s.address))
          (λ (x : ℕ × Instruction).
            check_argument L M s index F x.0 x.1 (get_elem? (call_args x.1) index))
          l q1 in
      let (a, e3, o, q3) = argument_found F b CI (get_elem? (call_args CI) index) l q2 in
      let (c, G, e4, e5, e6, e7, e8, same) = callee_found a CI.opcode l q3 in
      let o' : outlines L M s index F b CI l.arg ≡ true =
        subst (λ k. outlines L M s index F b CI k ≡ true) same o in
      let ((b', initial), e9, o1) =
        holds (as_instruction F (inst l.arg))
          (λ (x : ℕ × Instruction).
            elim (new_slice F (L.dom_tree F) (L.post_dom_tree F) (L.preds F) (inst l.arg)) [
              | none ↦ false
              | some S ↦ can_outline (L.analyses M F) M F CI b x.1 S
            ])
          o' in
      let (S, e10, o2) =
        holds (new_slice F (L.dom_tree F) (L.post_dom_tree F) (L.preds F) (inst l.arg))
          (λ S. can_outline (L.analyses M F) M F CI b initial S) o1 in
      record {
        F = F;
        site_block = b;
        site_inst = CI;
        arg_block = b';
        initial = initial;
        S = S;
        c = c;
        G = G;
        has_caller = e1;
        has_call = e2;
        passes = e3 ∙ ap (λ k. some (inst k)) same;
        has_arg = e9;
        has_slice = e10;
        can = o2;
        calls = e4;
        has_body = e5;
        has_callee = e6;
        is_fixed = e7;
        is_used = (uses_argument_iff G index).0 e8;
      }

-- lazifyCallsite lazifies a call site if and only if it can be lazified: an instruction is passed whose
-- slice can be outlined, to a function with a body and a fixed number of arguments, in which an
-- instruction has this one as an operand. Where it does not, it changes neither the module nor the
-- statistics nor the two maps, and only a slice that was built has used up struct types.
pub lazify_callsite_lem :
    (L : Llvm) (memo : Bool) (s : Site) (index : ℕ) (d : Driver)
    → (((lazify_callsite L memo s index d).0 ≡ true)
        ↔ ((l : Lazified) × CanLazify L d.program s index l))
      × ((lazify_callsite L memo s index d).0 ≡ false
          → (lazify_callsite L memo s index d).1
            ≡ record d { next_type = types_after d.program s index d.next_type })
unfolding lazify_callsite
lazify_callsite_lem L memo s index d = elim (Option-cases (check L d.program s index)) [
  | inl refused ↦ (
    (
      λ e. let never : ◌≡◌ {A = Bool} false true = rw (refused, lazify_callsite) at e in cc never,
      λ (l, h).
          let never : ◌≡◌ {A = Option Lazified} none (some l) =
            sym refused ∙ check_complete L d.program s index l h in
          cc never,
    ),
    λ e. rw (refused, lazify_callsite) refl,
  )
  | inr (l, there) ↦ (
    (λ e. (l, check_sound L d.program s index l there), λ x. rw (there, lazify_callsite) refl),
    λ e. let never : ◌≡◌ {A = Bool} true false = rw (there, lazify_callsite) at e in cc never,
  )
]
