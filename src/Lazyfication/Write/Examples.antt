-- ===== src/Lazyfication/Write/Examples.antt =====
-- A call site of a program of one function that calls itself, written into the module and by the
-- driver.
use wyvern.Base.{
  ℕ, ◌+◌, ◌<◌, ◌≡◌, refl, true, false, List, [], ◌∷◌, Option, some, none, arith, get_elem?, ◌==◌,
  if◌then◌else◌,
}
use wyvern.Ir.{inst, argument, function, call, ret, other, Instruction, Function, Module}
use wyvern.ProgramSlice.Control.Examples.{flat}
use wyvern.ProgramSlice.Outline.Examples.{analyses}
use wyvern.Lazyfication.{Site, Lazified, Llvm, lazify, find_clone, count_slice, count_site}
use wyvern.Lazyfication.Run.{start_driver}
use wyvern.Lazyfication.Write.{Addresses, get_number_of_insts, new_clone, write}
use wyvern.Lazyfication.Write.Laws.{caller_after, write_lem}

abbrev value : Instruction
value = record { id = 1; opcode = other; operands = argument 0 ∷ [] }

abbrev site : Instruction
site = record { id = 2; opcode = call (some (function 0)); operands = inst 1 ∷ [] }

abbrev leave : ℕ → Instruction
leave i = record { id = i; opcode = ret; operands = argument 0 ∷ [] }

abbrev program : Module
program =
    record { arg_types = 0 ∷ []; is_var_arg = false; blocks = (value ∷ site ∷ leave 3 ∷ []) ∷ [] }
    ∷ []

abbrev delegate_of : Module → Site → Lazified → Function × List ℕ
delegate_of M s l =
    (record { arg_types = 9 ∷ []; is_var_arg = false; blocks = (leave 0 ∷ []) ∷ [] }, 0 ∷ [])

abbrev addresses : Addresses
addresses = record { next = λ F. 10; copy = λ F a. 40 + a; next_copy = λ F. 90 }

abbrev where_called : Site
where_called = record { caller = 0; address = 2 }

abbrev what : Lazified
what = record { arg = 1; callee = 0 }

write_lem_example :
    (let r = write true delegate_of 9 addresses program where_called 0 what none in
      ((j : ℕ)
        → j < 1
        → get_elem? r.0 j ≡ (
            if 0 == j
            then some (
                caller_after true delegate_of 9 addresses program where_called 0 what
                  (omega arith)
                  r.1.0)
            else get_elem? program j))
      × (get_elem? r.0 1 ≡ some (delegate_of program where_called what).0)
      × (r.1.1 ≡ get_number_of_insts (delegate_of program where_called what).0)
      × (◌≡◌ {A = Option ℕ} none none
          → get_elem? r.0 r.1.0
            ≡ some (new_clone true delegate_of 9 addresses program where_called 0 what)))
write_lem_example =
    write_lem true delegate_of 9 addresses program where_called 0 what (omega arith) none

abbrev llvm : Llvm
llvm = record {
  dom_tree = λ F. flat 0;
  post_dom_tree = λ F. flat 0;
  preds = λ F b. [];
  analyses = λ M F. analyses;
  write = write true delegate_of 9 addresses;
}

-- The driver's module after a lazified call site is the one that was written.
driver_writes :
    (lazify llvm true where_called 0 what (start_driver program)).program
    ≡ (write true delegate_of 9 addresses program where_called 0 what none).0
unfolding lazify find_clone count_slice count_site start_driver
driver_writes = refl
