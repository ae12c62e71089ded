-- ===== src/Report/Profile/Measured.antt =====
-- A report that wyinstr.cpp has written, loaded by loadProfileInfo of passes/Lazyfication.cpp: what
-- was measured at a call site is attached to its call.
use wyvern.Base.{
  ℕ, ◌≡◌, refl, sym, ap, ◌∙◌, subst, true, false, ◌&&◌, List, [], ◌∷◌, Option, none, some, map, All,
  get_elem?, Option-cases, Bool-cases, inl, inr, ◌==◌, ==_iff,
}
use wyvern.Base.Int.{ℤ}
use wyvern.Base.Map
use wyvern.Base.Map.{nat_order, IsMap}
use wyvern.Ir.{Instruction, Function, Module}
use wyvern.Runtime.Order.{CallsiteId, same_id, same_id_iff, id_order}
use wyvern.Runtime.{ProfReport, ProfileInfo}
use wyvern.Report.{Text, comma, newline, to_u64, Row, dump}
use wyvern.Report.RoundTrip.{Lacks, IsLong, row_of, IsPlain, load-dump}
use wyvern.Report.Attach.{instructions, raw_row, is_call, same_text}
use wyvern.Report.Profile.{same_text_iff, load_profile_info}
use wyvern.Report.Profile.Rows.{IsAddressed, HasNames, load_profile_info_lem}

-- A key under the same name and number as `id` is `id`.
abbrev pub IsOnly : (ℕ → Text) → CallsiteId → CallsiteId × ProfReport → Type 0
IsOnly name_at id (j, r) =
    name_at j.fun_name ≡ name_at id.fun_name → to_u64 j.call_id ≡ to_u64 id.call_id → j ≡ id

module _ (name_at : ℕ → Text) (id : CallsiteId) where
  abbrev named_row : ProfReport → Row
  named_row r = row_of name_at (id, r)

  -- The test of `raw_row` on a key's row tells keys apart as the runtime does.
  alone_same :
      (j : CallsiteId)
      → (name_at j.fun_name ≡ name_at id.fun_name → to_u64 j.call_id ≡ to_u64 id.call_id → j ≡ id)
      → (same_text (name_at j.fun_name) (name_at id.fun_name)
          && (to_u64 j.call_id == to_u64 id.call_id))
        ≡ same_id j id
  alone_same j alone = elim (Bool-cases (same_id j id)) [
    | inl same ↦
        let e : j ≡ id = (same_id_iff j id).0 same in
        rw
          (
            (same_text_iff (name_at j.fun_name) (name_at id.fun_name)).1
                (ap (λ (k : CallsiteId). name_at k.fun_name) e),
            (==_iff (to_u64 j.call_id) (to_u64 id.call_id)).1
                (ap (λ (k : CallsiteId). to_u64 k.call_id) e),
            same,
          )
          refl
    | inr differ ↦ elim (Bool-cases (same_text (name_at j.fun_name) (name_at id.fun_name))) [
      | inr other ↦ rw (other, differ) refl
      | inl named ↦ elim (Bool-cases (to_u64 j.call_id == to_u64 id.call_id)) [
        | inr apart ↦ rw (named, apart, differ) refl
        | inl numbered ↦
            let e : j ≡ id =
              alone ((same_text_iff (name_at j.fun_name) (name_at id.fun_name)).0 named)
                ((==_iff (to_u64 j.call_id) (to_u64 id.call_id)).0 numbered) in
            let never : true ≡ false = sym ((same_id_iff j id).1 e) ∙ differ in cc never
      ]
    ]
  ]

  raw_row-row_of :
      (info : ProfileInfo)
      → IsMap info
      → All (IsOnly name_at id) info
      → raw_row (map (row_of name_at) info) (name_at id.fun_name) (to_u64 id.call_id)
        ≡ (elim (Map.find id info) [ none ↦ none | some r ↦ some (named_row r) ])
  unfolding raw_row Map.find
  raw_row-row_of [] h only = refl
  raw_row-row_of ((j, r) ∷ info) (fresh, h) (alone, only) =
      let later = raw_row-row_of info h only in
      elim (Bool-cases (same_id j id)) [
        | inl same ↦
            let e : j ≡ id = (same_id_iff j id).0 same in
            let absent : Map.find id info ≡ none = subst (λ k. Map.find k info ≡ none) e fresh in
            rw (later, absent, raw_row, alone_same j alone, same)
              (ap (λ (k : CallsiteId). some (row_of name_at (k, r))) e)
        | inr differ ↦ elim (Option-cases (Map.find id info)) [
          | inl absent ↦ rw (later, absent, raw_row, alone_same j alone, differ) refl
          | inr (s, present) ↦ rw (later, present, raw_row, differ) refl
        ]
      ]

-- Where `stol` reads what `printf` prints of an int64_t, without commas, the header is one line, LLVM's
-- name table leads each name to a function of its own, and no two instructions have one address: a
-- report with one entry per call site, each plain (the call site's number and the counters in an
-- int64_t, at most 127 arguments, a name without commas), is loaded; and a call of the module, at position n of a function that the name table knows, gets
-- the measurements of the call site with that function and number, where no other entry has both.
pub load_profile_info-dump :
    (show : ℤ → Text) (stol : Text → Option ℤ) (name_at : ℕ → Text)
    → ((n : ℤ) → IsLong n → stol (show n) ≡ some n)
    → ((n : ℤ) → IsLong n → Lacks comma (show n))
    → (get_function : Text → Option ℕ) (M : Module) (header : Text) (info : ProfileInfo)
      (id : CallsiteId) (r : ProfReport) (f : ℕ) (F : Function) (I : Instruction)
    → IsAddressed M
    → HasNames get_function
    → Lacks newline header
    → All (IsPlain name_at) info
    → All (IsOnly name_at id) info
    → IsMap info
    → Map.find id info ≡ some r
    → get_function (name_at id.fun_name) ≡ some f
    → get_elem? M f ≡ some F
    → get_elem? (instructions F.blocks) (to_u64 id.call_id) ≡ some I
    → is_call I.opcode ≡ true
    → (profile : List (ℕ × Row)) × (load_profile_info get_function stol M
          (some (dump show name_at header info))
        ≡ some (true, profile))
      × (Map.find I.id profile ≡ some (row_of name_at (id, r)))
load_profile_info-dump show stol name_at read plain g M header info id r f F I addressed names
      one_line plains only keys found named there at site =
    let (profile, loaded, attached) =
      load_profile_info_lem g stol M (dump show name_at header info) (map (row_of name_at) info)
        (name_at id.fun_name) f (to_u64 id.call_id) F I addressed names
        (load-dump show stol name_at read plain header info one_line plains) named there at site in
    (profile, loaded, attached ∙ raw_row-row_of name_at id info keys only ∙ rw found refl)
