-- ===== src/Lib.antt =====
-- Wyvern replaces an argument of a call by a thunk, so that it is computed only if the callee uses
-- it. The program is a set of LLVM passes and a profiling runtime:
--   * FindLazyfiable (passes/FindLazyfiable.cpp, .h) searches each function for paths from its entry
--     to its exit that do not use an argument, and records the calls that pass computed values.
--   * ProgramSlice (passes/ProgramSlice.cpp, .h) takes the computation of an argument out of its
--     function: the instructions it depends on, and the blocks that these need.
--   * Lazyfication (passes/Lazyfication.cpp, .h) makes the thunks, from the two results above or from
--     a profile.
--   * Instrumentation (passes/Instrumentation.cpp, .h) and wyinstr.cpp measure how often the
--     arguments of each call site are evaluated, for that profile.
--
-- The files:
--   * Base: names of the libraries, tests, lists, bits, integers, ordered maps.
--   * Ir: what the passes read of an LLVM function; a block is its position, an instruction its `id`.
--   * Runtime: wyinstr.cpp. `Profiler` is the file's static state, and `init_prof`, `init_call`,
--     `mark_eval`, `init_bits`, `end_call` are the entry points `_wyinstr_…`. Undefined behaviour is a
--     `Fault`. Runtime.Trace runs them in the order in which an instrumented program calls them.
--   * Report: the text of the profile; `dump` is _wyinstr_dump, and `load` the first loop of
--     loadProfileInfo (passes/Lazyfication.cpp). The C library's printing and parsing of numbers are
--     parameters. Report.Attach: `compute_instr_ids` (computeInstrIDs of passes/Instrumentation.cpp)
--     and `attach`, the loop of loadProfileInfo over the instructions of one function. Report.Profile:
--     `load_profile_info`, the whole of loadProfileInfo; LLVM's table of names is a parameter.
--   * Instrumentation: passes/Instrumentation.cpp; `instrument_function`, `instrument_call_sites`,
--     `instrument_entry_point`, `instrument_exit_points` and `run_pass` (runOnModule) put calls of the
--     runtime between the instructions of a function, and Returns runs them on a `Profiler`.
--   * FindLazyfiable: `dfs` (DFS), `find_lazyfiable_paths`, `analyze_call`, `run_on_module` are the
--     member functions of the same names; MissingUses has `add_missing_uses` and
--     `remove_dummy_functions`.
--   * ProgramSlice.Control: `get_controller`, `get_gate`, `compute_gates`,
--     `compute_attractor_blocks`. ProgramSlice.Dependences: `get_data_dependences_for`.
--     ProgramSlice.Outline: the constructor (`new_slice`) and `can_outline` (canOutline).
--   * ProgramSlice.Delegate: `outline` builds the delegate: `populate`, `reorganize_uses`; Reroute
--     has `add_dom_branches` and `reroute` (rerouteBranches), Finish has `update_phi_nodes`,
--     `add_return_value`, `reorder_blocks` and `insert_loads` (insertLoadForThunkParams). A read past
--     the edges of a phi node and an entry block that is null are a `Fault`. Header has the
--     declaration of the delegate (`outline_function`) and `memoized_outline` (memoizedOutline), and
--     Missing has `add_missing_terminators`, which nothing calls.
--   * Lazyfication: `should_lazify` (shouldLazifyCallsitePGO), `lazify_callsite` (lazifyCallsite) and
--     `run_driver` (runOnModule, in Run) of passes/Lazyfication.cpp on a `Driver`, the module with the
--     statistics and the two maps. How a call site is written into the functions is its parameter;
--     Uses has the part of that which is updateThunkArgUses (`update_thunk_arg_uses`). Decision joins
--     `should_lazify` to the runtime through the report. Clone has `clone_callee_function`
--     (cloneCalleeFunction) and `remove_attributes_from_thunk_argument`, and Caller has what
--     lazifyCallsite does to the caller (`lazify_caller`). Write puts the three together (`write`).
--   * Thunk: the layout of thunks (`compute_struct_type`), their initialization (`initialize` for
--     generateThunkInitializationCode) and the delegates that read them (`call_outlined` for outline,
--     `call_memoized` for memoizedOutline with addMemoizationCode). Thunk.Code has the emitted code
--     itself (`generate_thunk_initialization_code`, `load_args`, `add_memoization_code`), and runs it.
--
-- Bounds and fuel. Counters of the runtime are int64_t: an increment at 2 ^ 63 - 1 is a fault, and
-- the theorems on executions assume fewer events than that. The bitmap is a 64-bit pattern, read by
-- the 32-bit shift of the code, and `num_args` is an int8_t (`to_i8`). `search_loop` has a round for each block and marks a block when it
-- pushes it. `rounds` has as many rounds as the values of the function and the gates they bring with
-- them. `climb` has a round for each level of the tree. `run_driver` gives the
-- loop over the arguments of a call 256 rounds, which is enough for 255 arguments.
--
-- Not modelled. LLVM itself is outside the repository: its dominator trees, predecessors, alias
-- analysis and library tables are parameters, as are std::stol, printf of a number and the arithmetic
-- of double. An execution calls instrumented functions only, none of which returns its own argument. Names and types of the instructions that the
-- passes create, and debug locations, are left out. addMemoizationCode appears as the
-- code that it emits, not as an edit of blocks. The delegate has blocks of its own kind, and `write`
-- takes it as a function of the module by a parameter.
pub mod Base
pub mod Ir
pub mod FindLazyfiable
pub mod Instrumentation
pub mod Lazyfication
pub mod ProgramSlice
pub mod Report
pub mod Runtime
pub mod Thunk
