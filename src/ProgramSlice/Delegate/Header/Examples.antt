-- ===== src/ProgramSlice/Delegate/Header/Examples.antt =====
-- The delegates of the phi node of a diamond as functions.

use wyvern.Base.{ℕ, ◌≡◌, ◌≢◌, refl, false, List, [], ◌∷◌, Memᴰ, some, none, arith, replicate}
use wyvern.Report.{Text}
use wyvern.Thunk.{undef, delegate, word, bit, Thunk, Evaluation, load_params}
use wyvern.Thunk.Code.{load_args, add_memoization_code}
use wyvern.Thunk.Code.Refinement.{Represents}
use wyvern.ProgramSlice.Control.Examples.{diamond, flat}
use wyvern.ProgramSlice.Delegate.Header.{
  read_only, slice_prefix, memo_prefix, Named, create, Outlined, memoized_outline,
}
use wyvern.ProgramSlice.Delegate.Header.ReadOnly.{run_outlined, memoized_outline-writes}
use wyvern.ProgramSlice.Delegate.Examples.{slice, attractors, root, outline_run}
use wyvern.ProgramSlice.Delegate.Examples

-- Numbers are written in unary here.
abbrev to_string : ℕ → Text
to_string k = replicate k 49

-- The function "f", and the value "x" in it.
abbrev named : Named
named = record { parent = 102 ∷ []; initial = 120 ∷ []; initial_type = 1; thunk_pointer = 2 }

abbrev plain : Outlined
plain = record {
  header = create to_string slice_prefix named 5;
  delegate = Examples.delegate;
  loads = load_args 20 1 2;
  memo_code = none;
}

abbrev memoized : Outlined
memoized = record {
  header = create to_string memo_prefix named 5;
  delegate = Examples.delegate;
  loads = load_args 20 3 2;
  memo_code = some (add_memoization_code 24);
}

abbrev first : List ℕ → ℕ
first [] = 0
first (v ∷ vs) = v

abbrev thunk : Thunk
thunk = delegate 7 ∷ word 4 ∷ word 5 ∷ []

abbrev memo_thunk : Thunk
memo_thunk = delegate 7 ∷ undef ∷ bit false ∷ word 4 ∷ word 5 ∷ []

memoized_outline-writes_example :
    Memᴰ read_only memoized.header.attributes
    × ((e : Evaluation) × (run_outlined 2 first 20 memoized memo_thunk ≡ some e)
        × (e.value ≡ 4)
        × (e.after ≢ memo_thunk))
unfolding memoized_outline Represents load_params
memoized_outline-writes_example =
    memoized_outline-writes diamond slice (flat 0) root attractors 6 3 to_string named 5 20 memoized
      first memo_thunk (4 ∷ 5 ∷ []) (rw outline_run refl) (omega arith, refl, refl)
