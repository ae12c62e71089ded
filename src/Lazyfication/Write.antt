-- ===== src/Lazyfication/Write.antt =====
-- How lazifyCallsite of passes/Lazyfication.cpp puts the delegate, the callee's clone and the new
-- caller into the module, as what the driver of Lazyfication takes for `write`.
pub mod Laws
pub mod Examples
use wyvern.Base.{ℕ, suc, Bool, false, List, [], ◌∷◌, ◌++◌, Option, none, some, length, set, get_or}
use wyvern.Ir.{Callee, Block, Function, Module}
use wyvern.Report.Attach.{instructions}
use wyvern.Lazyfication.{Site, Lazified}
use wyvern.Lazyfication.Clone.{clone_callee_function}
use wyvern.Lazyfication.Caller.{prepare_caller, finish_caller}

-- `getNumberOfInsts`
unfoldable pub get_number_of_insts : Function → ℕ
get_number_of_insts F = length (instructions F.blocks)

-- LLVM's choice of addresses: the first that a function does not have, where the copies of its
-- instructions are, and the first that those do not have.
pub record Addresses : Type 0 where
  pub next : Function → ℕ
  pub copy : Function → ℕ → ℕ
  pub next_copy : Function → ℕ

abbrev pub no_function : Function
no_function = record { arg_types = []; is_var_arg = false; blocks = [] }

-- `delegate_of` is the delegate of the slice as a function, with the slice's arguments.
module _ (memo : Bool) (delegate_of : Module → Site → Lazified → Function × List ℕ)
    (thunk_pointer : ℕ) (A : Addresses) where
  -- The module with the delegate, before the callee is cloned.
  unfoldable pub write_delegate : Module → Site → Lazified → Module
  write_delegate M s l =
      let (D, args) = delegate_of M s l in
      let F = get_or M s.caller no_function in
      set M s.caller (prepare_caller memo l.arg (length M) args (A.next F) F) ++ D ∷ []

  -- The module with the call site changed.
  unfoldable pub write_caller : Module → Site → ℕ → Lazified → ℕ → Module
  write_caller M s index l new_callee =
      let M' = write_delegate M s l in
      set M' s.caller (
        finish_caller s.address index l.arg (length M) new_callee (delegate_of M s l).1
          (A.next (get_or M s.caller no_function)) (get_or M' s.caller no_function))

  -- The clone that `cloneCalleeFunction` makes of the callee as it is then.
  unfoldable pub new_clone : Module → Site → ℕ → Lazified → Function
  new_clone M s index l =
      let C = get_or (write_delegate M s l) l.callee no_function in
      clone_callee_function (A.copy C) C index (Callee.function (length M)) thunk_pointer
        (A.next_copy C)

  unfoldable pub write : Module → Site → ℕ → Lazified → Option ℕ → Module × (ℕ × ℕ)
  write M s index l previous =
      let size = get_number_of_insts (delegate_of M s l).0 in
      elim previous [
        | some g ↦ (write_caller M s index l g, (g, size))
        | none ↦ (
          write_caller M s index l (suc (length M)) ++ new_clone M s index l ∷ [],
          (suc (length M), size),
        )
      ]
