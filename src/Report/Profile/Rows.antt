-- ===== src/Report/Profile/Rows.antt =====
-- What loadProfileInfo of passes/Lazyfication.cpp attaches to a call of the module.
use wyvern.Base.{
  ℕ, ◌+◌, ◌≡◌, ◌≢◌, refl, sym, ap, ◌∙◌, subst, Bool, true, false, List, [], ◌∷◌, Option, none, some,
  arith, get_elem?, Option-cases, Bool-cases, inl, inr, if◌then◌else◌,
}
use wyvern.Base.Int.{ℤ}
use wyvern.Base.Map
use wyvern.Base.Map.{nat_order, Set, contains, contains-add, add, find-assign}
use wyvern.Ir.{Instruction, Function, Module}
use wyvern.Report.{Text, Row, load}
use wyvern.Report.Attach.{instructions, raw_row, attach_row, attach, is_call, same_text}
use wyvern.Report.Attach.Agreement.{
  count_instructions_kept, count_instructions-at, attach_row_local, IsDistinct,
}
use wyvern.Report.Profile.{
  text_order, same_text_iff, is_known, known_rows, raw_names, attach_names, load_profile_info,
}

-- No two instructions of the module are at one address.
abbrev pub IsAddressed : Module → Type 0
IsAddressed M =
    (f g i j : ℕ) (F G : Function) (I J : Instruction)
    → get_elem? M f ≡ some F
    → get_elem? M g ≡ some G
    → get_elem? (instructions F.blocks) i ≡ some I
    → get_elem? (instructions G.blocks) j ≡ some J
    → I.id ≡ J.id
    → (f ≡ g) × (i ≡ j)

-- No two names are of one function.
abbrev pub HasNames : (Text → Option ℕ) → Type 0
HasNames get_function =
    (s t : Text) (f : ℕ) → get_function s ≡ some f → get_function t ≡ some f → s ≡ t

abbrev or_else {ℓ} : {A : Type ℓ} → Option A → Option A → Option A
or_else (some a) b = some a
or_else none b = b

or_else-none {ℓ} : {A : Type ℓ} (a : Option A) → or_else a none ≡ a
or_else-none none = refl
or_else-none (some x) = refl

attach_row_at :
    (p : ℕ → Option Row) (id : ℕ) (I : Instruction) (m : List (ℕ × Row))
    → is_call I.opcode ≡ true
    → Map.find I.id (attach_row p id I m) ≡ or_else (p id) (Map.find I.id m)
unfolding attach_row
attach_row_at p id I m site = elim (Option-cases (p id)) [
  | inl no_row ↦ rw (site, attach_row, no_row) refl
  | inr (row, e) ↦ rw (site, attach_row, e) (ground (arith, find-assign I.id I.id row m))
]

attach_at :
    (rows : List Row) (name : Text) (F : Function) (n : ℕ) (I : Instruction) (m : List (ℕ × Row))
    → IsDistinct (instructions F.blocks)
    → get_elem? (instructions F.blocks) n ≡ some I
    → is_call I.opcode ≡ true
    → Map.find I.id (attach rows name F m) ≡ or_else (raw_row rows name n) (Map.find I.id m)
unfolding attach
attach_at rows name F n I m distinct at site =
    let row_at = raw_row rows name in
    let (found, same, attached) =
      count_instructions-at (attach_row row_at) (attach_row_local row_at) 0 n I
        (instructions F.blocks) m distinct at in
    attached
    ∙ attach_row_at row_at (0 + n) I found site
    ∙ ap (λ (k : ℕ). or_else (row_at k) (Map.find I.id found)) (omega arith)
    ∙ ap (or_else (row_at n)) same

attach_other :
    (rows : List Row) (name : Text) (F : Function) (a : ℕ) (m : List (ℕ × Row))
    → ((j : ℕ) (J : Instruction) → get_elem? (instructions F.blocks) j ≡ some J → J.id ≢ a)
    → Map.find a (attach rows name F m) ≡ Map.find a m
unfolding attach
attach_other rows name F a m h =
    count_instructions_kept (attach_row (raw_row rows name)) (attach_row_local (raw_row rows name))
      0 a (instructions F.blocks) m h

-- A name that no row has.
raw_row-none :
    (rows : List Row) (name : Text) (n : ℕ) (names : Set Text)
    → contains name (raw_names rows names) ≡ false
    → (raw_row rows name n ≡ none) × (contains name names ≡ false)
unfolding raw_row raw_names
raw_row-none [] name n names h = (refl, h)
raw_row-none (row ∷ rest) name n names h =
    let (later, absent) = raw_row-none rest name n (add row.caller_name names) h in
    let added = sym (contains-add row.caller_name name names) ∙ absent in
    elim (Bool-cases (same_text row.caller_name name)) [
      | inl same ↦ let never : true ≡ false = rw same at added in cc never
      | inr other ↦ (rw (later, raw_row, other) refl, rw other at added)
    ]

raw_row_skip :
    (row : Row) (rest : List Row) (name : Text) (n : ℕ)
    → same_text row.caller_name name ≡ false
    → raw_row (row ∷ rest) name n ≡ raw_row rest name n
unfolding raw_row
raw_row_skip row rest name n other = elim (Option-cases (raw_row rest name n)) [
  | inl nothing ↦ rw (nothing, raw_row, other) refl
  | inr (later, e) ↦ rw (e, raw_row) refl
]

contains-nil : (name : Text) → contains name [] ≡ false
unfolding contains Map.find
contains-nil name = refl

contains-cons :
    (name other : Text) (u : Unit {0}) (ns : Set Text)
    → contains name ((other, u) ∷ ns) ≡ (if same_text other name then true else contains name ns)
unfolding contains Map.find
contains-cons name other u ns = ground arith

known-raw_row :
    (get_function : Text → Option ℕ) (rows : List Row) (name : Text) (n : ℕ)
    → is_known (get_function name) ≡ true
    → raw_row (known_rows get_function rows) name n ≡ raw_row rows name n
unfolding known_rows raw_row
known-raw_row g [] name n h = refl
known-raw_row g (row ∷ rest) name n h = elim (Bool-cases (is_known (g row.caller_name))) [
  | inl known ↦ rw (known, raw_row, known-raw_row g rest name n h) refl
  | inr unknown ↦ elim (Bool-cases (same_text row.caller_name name)) [
    | inl same ↦
        let never : true ≡ false =
          sym h
          ∙ ap (λ t. is_known (g t)) (sym ((same_text_iff row.caller_name name).0 same))
          ∙ unknown in
        cc never
    | inr other ↦
        rw unknown (known-raw_row g rest name n h ∙ sym (raw_row_skip row rest name n other))
  ]
]

-- Rows that LLVM's name table and the module lead to a function of their own.
module _ (get_function : Text → Option ℕ) (M : Module) (rows : List Row) (addressed : IsAddressed M)
    (has_names : HasNames get_function) where
  module _ (name : Text) (f n : ℕ) (F : Function) (I : Instruction)
      (named : get_function name ≡ some f) (there : get_elem? M f ≡ some F)
      (at : get_elem? (instructions F.blocks) n ≡ some I) (site : is_call I.opcode ≡ true) where
    attach_self :
        (m : List (ℕ × Row))
        → Map.find I.id (attach rows name F m) ≡ or_else (raw_row rows name n) (Map.find I.id m)
    attach_self m =
        attach_at rows name F n I m
          (λ i j A B p q e. (addressed f f i j F F A B there there p q e).1) at site

    -- One round of the loop over the names.
    abbrev attach_name : Text → List (ℕ × Row) → List (ℕ × Row)
    attach_name other m = elim (get_function other) [
      | none ↦ m
      | some g ↦ elim (get_elem? M g) [ none ↦ m | some G ↦ attach rows other G m ]
    ]

    attach_name_self :
        (m : List (ℕ × Row))
        → Map.find I.id (attach_name name m) ≡ or_else (raw_row rows name n) (Map.find I.id m)
    attach_name_self m = rw (attach_name, named, there) (attach_self m)

    attach_name-other :
        (other : Text) (m : List (ℕ × Row))
        → other ≢ name
        → Map.find I.id (attach_name other m) ≡ Map.find I.id m
    attach_name-other other m differ = elim (Option-cases (get_function other)) [
      | inl unknown ↦ rw (attach_name, unknown) refl
      | inr (g, known) ↦ elim (Option-cases (get_elem? M g)) [
        | inl absent ↦ rw (attach_name, known, absent) refl
        | inr (G, present) ↦
            rw (attach_name, known, present)
              (attach_other rows other G I.id m (λ j J found e.
                let same : g ≡ f = (addressed g f j n G F J I present there found at e).0 in
                differ (has_names other name f (known ∙ ap some same) named)))
      ]
    ]

    or_else_twice {ℓ} : {A : Type ℓ} (a b : Option A) → or_else a (or_else a b) ≡ or_else a b
    or_else_twice none b = refl
    or_else_twice (some x) b = refl

    abbrev R : Option Row
    R = raw_row rows name n

    settled :
        (c : Bool) (b : Option Row)
        → (if c then or_else R (or_else R b) else or_else R b) ≡ or_else R b
    settled true b = or_else_twice R b
    settled false b = refl

    -- The loop over the names attaches the row under the function's own name, if that is met.
    attach_names-find :
        (ns : Set Text) (m : List (ℕ × Row))
        → Map.find I.id (attach_names get_function M rows ns m) ≡ (
            if contains name ns
            then or_else (raw_row rows name n) (Map.find I.id m)
            else Map.find I.id m)
    unfolding attach_names
    attach_names-find [] m = rw (contains-nil name) refl
    attach_names-find ((other, u) ∷ ns) m =
        attach_names-find ns (attach_name other m) ∙ elim (Bool-cases (same_text other name)) [
          | inl same ↦
              let here : Map.find I.id (attach_name other m) ≡ or_else R (Map.find I.id m) =
                subst (λ t. Map.find I.id (attach_name t m) ≡ or_else R (Map.find I.id m))
                  (sym ((same_text_iff other name).0 same)) (attach_name_self m) in
              rw (contains-cons name other u ns, same, here)
                (settled (contains name ns) (Map.find I.id m))
          | inr new ↦
              let differ : other ≢ name = λ e.
                let never : true ≡ false = sym ((same_text_iff other name).1 e) ∙ new in cc never in
              rw (contains-cons name other u ns, new, attach_name-other other m differ) refl
        ]

-- Where LLVM's name table leads each name to a function of its own and no two instructions of the
-- module are at one address: if the rows of the file can be read, the profile is loaded, and what it
-- has for the call at position n of a function is the last row with the function's name and n.
pub load_profile_info_lem :
    (get_function : Text → Option ℕ) (stol : Text → Option ℤ) (M : Module) (file : Text)
    (all : List Row) (name : Text) (f n : ℕ) (F : Function) (I : Instruction)
    → IsAddressed M
    → HasNames get_function
    → load stol file ≡ some all
    → get_function name ≡ some f
    → get_elem? M f ≡ some F
    → get_elem? (instructions F.blocks) n ≡ some I
    → is_call I.opcode ≡ true
    → (profile : List (ℕ × Row)) × (load_profile_info get_function stol M (some file)
        ≡ some (true, profile))
      × (Map.find I.id profile ≡ raw_row all name n)
unfolding load_profile_info Map.find
load_profile_info_lem g stol M file all name f n F I addressed has_names loaded named there at
      site =
    let rows = known_rows g all in
    let names = raw_names rows [] in
    let found =
      attach_names-find g M rows addressed has_names name f n F I named there at site names [] in
    let kept = known-raw_row g all name n (rw named refl) in
    (
      attach_names g M rows names [],
      rw (loaded, load_profile_info) refl,
      found ∙ elim (Bool-cases (contains name names)) [
        | inl met ↦ rw met (or_else-none (raw_row rows name n) ∙ kept)
        | inr not_met ↦ rw not_met (sym (raw_row-none rows name n [] not_met).0 ∙ kept)
      ],
    )
