-- ===== src/Instrumentation.antt =====
-- passes/Instrumentation.cpp: where the pass puts the calls of the runtime of wyinstr.cpp. The names
-- of functions and which of them are LLVM's intrinsics are parameters. As in every LLVM function,
-- phi nodes stand at the start of their block, and the entry block has none.
pub mod Layout
pub mod Blocks
pub mod Order
pub mod Erase
pub mod Returns
pub mod Examples
use wyvern.Base.{
  ℕ, zero, suc, ◌%◌, ◌^◌, ◌≡◌, Bool, true, false, ◌&&◌, ◌||◌, List, [], ◌∷◌, ◌++◌, Option, none,
  some, map, ◌==◌, if◌then◌else◌, length,
}
use mathlib.Core.Option
use wyvern.Base.Map
use wyvern.Base.Map.{Set, contains, nat_order}
use wyvern.Ir.{
  Value, argument, Callee, function, Opcode, ret, call, Instruction, Block, Function, Module,
  is_phi, is_declaration, callee_body, call_args,
}
use wyvern.Report.{Text}
use wyvern.Report.Attach.{compute_instr_ids, same_text}

-- What the pass inserts: the calls of the runtime's functions, with their constants, and the cell
-- for the bitmap.
pub data Added : Type 0 where
  call_init_call : ℕ → ℕ → Added
  call_mark_eval : ℕ → Added
  call_end_call call_init_bits call_init_prof call_dump : Added
  alloca_bits store_bits : Added

pub data Item : Type 0 where
  code : Instruction → Item
  added : Added → Item

-- The blocks of a function.
abbrev pub Items : Type 0
Items = List (List Item)

-- What LLVM knows of the functions.
pub record Symbols : Type 0 where
  pub name : Callee → Text
  pub is_intrinsic : Callee → Bool

abbrev pub main_name : Text
main_name = 109 ∷ 97 ∷ 105 ∷ 110 ∷ []

abbrev pub exit_name : Text
exit_name = 101 ∷ 120 ∷ 105 ∷ 116 ∷ []

abbrev pub abort_name : Text
abort_name = 97 ∷ 98 ∷ 111 ∷ 114 ∷ 116 ∷ []

abbrev pub throw_name : Text
throw_name = 95 ∷ 95 ∷ 99 ∷ 120 ∷ 97 ∷ 95 ∷ 116 ∷ 104 ∷ 114 ∷ 111 ∷ 119 ∷ []

abbrev pub runtime_name : Text
runtime_name = 95 ∷ 119 ∷ 121 ∷ 105 ∷ 110 ∷ 115 ∷ 116 ∷ 114 ∷ 95 ∷ []

-- `getName().contains(…)`
unfoldable pub is_prefix : Text → Text → Bool
is_prefix [] t = true
is_prefix (c ∷ cs) [] = false
is_prefix (c ∷ cs) (d ∷ ds) = c == d && is_prefix cs ds

unfoldable pub contains_text : Text → Text → Bool
contains_text s [] = is_prefix s []
contains_text s (d ∷ ds) = is_prefix s (d ∷ ds) || contains_text s ds

-- A builder at each instruction of a block puts new instructions in front of it. Those that were put
-- there before are met too, and get none.
unfoldable pub before : (Instruction → List Added) → List Item → List Item
before f [] = []
before f (code I ∷ rest) = map added (f I) ++ code I ∷ before f rest
before f (added a ∷ rest) = added a ∷ before f rest

-- A builder at `getFirstInsertionPt()`: behind the phi nodes.
unfoldable pub insert_first : List Added → List Item → List Item
insert_first calls [] = map added calls
insert_first calls (added a ∷ rest) = map added calls ++ added a ∷ rest
insert_first calls (code I ∷ rest) =
    if is_phi I then code I ∷ insert_first calls rest else map added calls ++ code I ∷ rest

unfoldable pub insert_at_entry : List Added → Items → Items
insert_at_entry calls [] = []
insert_at_entry calls (BB ∷ rest) = insert_first calls BB ∷ rest

-- `_wyinstr_mark_eval` for each operand that is an argument, in the order of the operands.
unfoldable pub marks_of : List Value → List Added
marks_of [] = []
marks_of (argument i ∷ vs) = call_mark_eval (i % 2 ^ 8) ∷ marks_of vs
marks_of (v ∷ vs) = marks_of vs

unfoldable pub marks : Instruction → List Added
marks I = marks_of I.operands

-- The marks of a phi node all go to the first insertion point, so that each comes before those that
-- are there.
unfoldable pub push_marks : List Added → List Added → List Added
push_marks [] pending = pending
push_marks (a ∷ calls) pending = push_marks calls (a ∷ pending)

-- The loop over the uses in a block; `pending` is what stands at the first insertion point.
unfoldable pub mark_uses : List Added → List Item → List Item
mark_uses pending [] = map added pending
mark_uses pending (added a ∷ rest) = map added pending ++ before marks (added a ∷ rest)
mark_uses pending (code I ∷ rest) =
    if is_phi I
    then code I ∷ mark_uses (push_marks (marks I) pending) rest
    else map added pending ++ before marks (code I ∷ rest)

module _ (N : Symbols) (M : Module) where
  -- `getCalledFunction()->getName()`
  unfoldable pub calls_named : Text → Opcode → Bool
  calls_named t (call (some c)) = same_text (N.name c) t
  calls_named t _ = false

  unfoldable pub is_main : ℕ → Bool
  is_main f = same_text (N.name (function f)) main_name

  -- `_wyinstr_end_call` before a return and before a throw.
  unfoldable pub ends_at : Opcode → Bool
  ends_at ret = true
  ends_at o = calls_named throw_name o

  unfoldable pub end_calls : Instruction → List Added
  end_calls I = if ends_at I.opcode then call_end_call ∷ [] else []

  -- `InstrumentEntry`
  abbrev pub entry_code : List Added
  entry_code = alloca_bits ∷ call_init_bits ∷ store_bits ∷ []

  -- `InstrumentFunction`
  unfoldable pub instrument_function : Bool → Items → Items
  instrument_function is_promising blocks =
      let ended = map (before end_calls) blocks in
      if is_promising then map (mark_uses []) (insert_at_entry entry_code ended) else ended

  -- Whether `InstrumentCallSites` tracks a call.
  unfoldable pub is_call_site : Opcode → Bool
  is_call_site (call none) = true
  is_call_site (call (some c)) = elim (callee_body M c) [
    | none ↦ false
    | some _ ↦ elim (contains_text runtime_name (N.name c) || N.is_intrinsic c) [
      | true ↦ false
      | false ↦ true
    ]
  ]
  is_call_site _ = false

  -- `instr_ids[CB]`
  unfoldable pub init_calls : List (ℕ × ℕ) → Instruction → List Added
  init_calls instr_ids I =
      if is_call_site I.opcode
      then call_init_call (Option.get_or (Map.find I.id instr_ids) 0) (length (call_args I) % 2 ^ 8)
        ∷ []
      else []

  -- `InstrumentCallSites`
  unfoldable pub instrument_call_sites : List (ℕ × ℕ) → Items → Items
  instrument_call_sites instr_ids blocks = map (before (init_calls instr_ids)) blocks

  -- `!promising || promising->count(F)`
  unfoldable pub is_marked : Option (Set ℕ) → ℕ → Bool
  is_marked none f = true
  is_marked (some promising) f = contains f promising

  unfoldable pub source_items : Function → Items
  source_items F = map (map code) F.blocks

  -- The loop over the functions. A declaration has no blocks.
  unfoldable pub instrument_functions : Option (Set ℕ) → ℕ → List Function → List Items
  instrument_functions promising f [] = []
  instrument_functions promising f (F ∷ Fs) =
      instrument_call_sites (compute_instr_ids F)
        (instrument_function (is_marked promising f) (source_items F))
      ∷ instrument_functions promising (suc f) Fs

  -- `InstrumentEntryPoint`
  unfoldable pub instrument_entry_point : ℕ → List Items → List Items
  instrument_entry_point f [] = []
  instrument_entry_point f (B ∷ Bs) =
      (if is_main f then insert_at_entry (call_init_prof ∷ []) B else B)
      ∷ instrument_entry_point (suc f) Bs

  unfoldable pub is_return : Opcode → Bool
  is_return ret = true
  is_return _ = false

  unfoldable pub dumps : ℕ → Instruction → List Added
  dumps f I =
      (if is_main f && is_return I.opcode then call_dump ∷ [] else [])
      ++ (if calls_named exit_name I.opcode || calls_named abort_name I.opcode
          then call_dump ∷ []
          else [])

  -- `InstrumentExitPoints`
  unfoldable pub instrument_exit_points : ℕ → List Items → List Items
  instrument_exit_points f [] = []
  instrument_exit_points f (B ∷ Bs) = map (before (dumps f)) B ∷ instrument_exit_points (suc f) Bs

  -- `runOnModule`, with the two options that end it at once.
  unfoldable pub run_pass : Bool → Text → Option (Set ℕ) → Bool × List Items
  run_pass false file promising = (false, map source_items M)
  run_pass true [] promising = (false, map source_items M)
  run_pass true (c ∷ cs) promising = (
    true,
    instrument_exit_points 0 (instrument_entry_point 0 (instrument_functions promising 0 M)),
  )
