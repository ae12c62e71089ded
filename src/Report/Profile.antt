-- ===== src/Report/Profile.antt =====
-- loadProfileInfo of passes/Lazyfication.cpp as a whole: the file, the map of the rows by the names
-- of functions, and the loop over that map. `Module::getFunction` is LLVM's, and a parameter.
pub mod Rows
pub mod Measured
pub mod Examples
use wyvern.Base.{
  ℕ, ◌≡◌, ◌↔◌, Bool, true, false, ◌&&◌, ◌||◌, List, [], ◌∷◌, Option, none, some, ltb, ◌==◌,
  if◌then◌else◌, get_elem?, arith,
}
use wyvern.Base.Int.{ℤ}
use wyvern.Base.Map.{KeyOrder, Set, add}
use wyvern.Ir.{Function, Module}
use wyvern.Report.{Text, Row, load}
use wyvern.Report.Attach.{same_text, attach}

-- `std::less<std::string>`
unfoldable pub text_before : Text → Text → Bool
text_before cs [] = false
text_before [] (b ∷ bs) = true
text_before (a ∷ cs) (b ∷ bs) = ltb a b || (a == b && text_before cs bs)

pub same_text_iff : (s t : Text) → (same_text s t ≡ true) ↔ (s ≡ t)
unfolding same_text
same_text_iff [] [] = ground arith
same_text_iff [] (b ∷ bs) = ground arith
same_text_iff (a ∷ cs) [] = ground arith
same_text_iff (a ∷ cs) (b ∷ bs) = ground (arith, same_text_iff cs bs)

instance abbrev pub text_order : KeyOrder Text
text_order = record { same = same_text; before = text_before; same_iff = same_text_iff }

abbrev pub is_known {ℓ} : {A : Type ℓ} → Option A → Bool
is_known none = false
is_known (some f) = true

-- The keys of `rawProfInfo`.
unfoldable pub raw_names : List Row → Set Text → Set Text
raw_names [] names = names
raw_names (row ∷ rest) names = raw_names rest (add row.caller_name names)

module _ (get_function : Text → Option ℕ) where
  -- The rows that are put into `rawProfInfo`.
  unfoldable pub known_rows : List Row → List Row
  known_rows [] = []
  known_rows (row ∷ rest) =
      if is_known (get_function row.caller_name) then row ∷ known_rows rest else known_rows rest

  -- The loop over `rawProfInfo`.
  unfoldable pub attach_names : Module → List Row → Set Text → List (ℕ × Row) → List (ℕ × Row)
  attach_names M rows [] profile = profile
  attach_names M rows ((name, _) ∷ rest) profile =
      attach_names M rows rest (elim (get_function name) [
        | none ↦ profile
        | some f ↦ elim (get_elem? M f) [ none ↦ profile | some F ↦ attach rows name F profile ]
      ])

  -- `loadProfileInfo` on a file that does not open (`none`) or has the given text: what it returns,
  -- and `profileInfo`. It is `none` where `std::stol` throws or a vector is overrun.
  unfoldable pub load_profile_info :
      (Text → Option ℤ) → Module → Option Text → Option (Bool × List (ℕ × Row))
  load_profile_info stol M none = some (false, [])
  load_profile_info stol M (some file) = elim (load stol file) [
    | none ↦ none
    | some all ↦
        let rows = known_rows all in some (true, attach_names M rows (raw_names rows []) [])
  ]
