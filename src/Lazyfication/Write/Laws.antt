-- ===== src/Lazyfication/Write/Laws.antt =====
-- What the module has after a call site was written, passes/Lazyfication.cpp.
use wyvern.Base.{
  ℕ, zero, suc, ◌<◌, ◌≡◌, refl, sym, ap, ◌∙◌, Bool, List, [], ◌∷◌, ◌++◌, Option, none, some, arith,
  length, length-set, length-append, set, get_or, get_elem?, ◌==◌, ==_iff, if◌then◌else◌,
}
use wyvern.Ir.{Function, Module}
use wyvern.Lazyfication.{Site, Lazified}
use wyvern.Lazyfication.Clone.Laws.{get_elem?-set_at}
use wyvern.Lazyfication.Caller.{prepare_caller, finish_caller, lazify_caller}
use wyvern.Lazyfication.Write.{
  Addresses, no_function, get_number_of_insts, write_delegate, write_caller, new_clone, write,
}

module _ {ℓ} {A : Type ℓ} where
  get_elem?-append :
      (xs ys : List A) (i : ℕ) → i < length xs → get_elem? (xs ++ ys) i ≡ get_elem? xs i
  get_elem?-append [] ys i h = absurd (omega arith)
  get_elem?-append (x ∷ xs) ys zero h = refl
  get_elem?-append (x ∷ xs) ys (suc i) h = get_elem?-append xs ys i (omega arith)

  get_elem?_snoc :
      (xs : List A) (y : A) (n : ℕ) → n ≡ length xs → get_elem? (xs ++ y ∷ []) n ≡ some y
  get_elem?_snoc [] y zero h = refl
  get_elem?_snoc [] y (suc n) h = absurd (omega arith)
  get_elem?_snoc (x ∷ xs) y zero h = absurd (omega arith)
  get_elem?_snoc (x ∷ xs) y (suc n) h = get_elem?_snoc xs y n (omega arith)

  get_or-found : (xs : List A) (i : ℕ) (x d : A) → get_elem? xs i ≡ some x → get_or xs i d ≡ x
  get_or-found [] i x d e = cc e
  get_or-found (y ∷ ys) zero x d e = cc e
  get_or-found (y ∷ ys) (suc i) x d e = get_or-found ys i x d e

  set_here : (xs : List A) (i : ℕ) (v : A) → i < length xs → get_elem? (set xs i v) i ≡ some v
  set_here xs i v h = get_elem?-set_at xs i i v h ∙ rw ((==_iff i i).1 refl) refl

module _ (memo : Bool) (delegate_of : Module → Site → Lazified → Function × List ℕ)
    (thunk_pointer : ℕ) (A : Addresses) (M : Module) (s : Site) (index : ℕ) (l : Lazified)
    (inside : s.caller < length M) where
  abbrev F : Function
  F = get_or M s.caller no_function

  abbrev prepared : Function
  prepared = prepare_caller memo l.arg (length M) (delegate_of M s l).1 (A.next F) F

  abbrev pub caller_after : ℕ → Function
  caller_after g =
      lazify_caller memo s.address index l.arg (length M) g (delegate_of M s l).1 (A.next F) F

  abbrev M1 : Module
  M1 = write_delegate memo delegate_of thunk_pointer A M s l

  length_M1 : length M1 ≡ suc (length M)
  unfolding write_delegate
  length_M1 = omega (
    arith,
    length-append (set M s.caller prepared) ((delegate_of M s l).0 ∷ []),
    length-set M s.caller prepared,
  )

  find_M1 :
      (j : ℕ)
      → j < length M
      → get_elem? M1 j ≡ (if s.caller == j then some prepared else get_elem? M j)
  unfolding write_delegate
  find_M1 j h =
      get_elem?-append (set M s.caller prepared) ((delegate_of M s l).0 ∷ []) j
        (omega (arith, length-set M s.caller prepared))
      ∙ get_elem?-set_at M s.caller j prepared inside

  find_delegate : get_elem? M1 (length M) ≡ some (delegate_of M s l).0
  unfolding write_delegate
  find_delegate =
      get_elem?_snoc (set M s.caller prepared) (delegate_of M s l).0 (length M)
        (sym (length-set M s.caller prepared))

  caller_prepared : get_or M1 s.caller no_function ≡ prepared
  caller_prepared =
      get_or-found M1 s.caller prepared no_function
        (find_M1 s.caller inside ∙ rw ((==_iff s.caller s.caller).1 refl) refl)

  abbrev M2 : ℕ → Module
  M2 g = write_caller memo delegate_of thunk_pointer A M s index l g

  M2_set : (g : ℕ) → M2 g ≡ set M1 s.caller (caller_after g)
  unfolding write_caller lazify_caller
  M2_set g =
      ap
        (λ (G : Function).
          set M1 s.caller
            (finish_caller s.address index l.arg (length M) g (delegate_of M s l).1 (A.next F) G))
        caller_prepared

  length_M2 : (g : ℕ) → length (M2 g) ≡ suc (length M)
  length_M2 g = ap length (M2_set g) ∙ length-set M1 s.caller (caller_after g) ∙ length_M1

  find_M2 :
      (g j : ℕ)
      → get_elem? (M2 g) j ≡ (if s.caller == j then some (caller_after g) else get_elem? M1 j)
  find_M2 g j =
      ap (λ (N : Module). get_elem? N j) (M2_set g)
      ∙ get_elem?-set_at M1 s.caller j (caller_after g) (omega (arith, length_M1, inside))

  old_M2 :
      (g j : ℕ)
      → j < length M
      → get_elem? (M2 g) j ≡ (if s.caller == j then some (caller_after g) else get_elem? M j)
  old_M2 g j h = ground (arith, find_M2 g j, find_M1 j h)

  delegate_M2 : (g : ℕ) → get_elem? (M2 g) (length M) ≡ some (delegate_of M s l).0
  delegate_M2 g =
      ground (arith, find_M2 g (length M), find_delegate, inside, ==_iff s.caller (length M))

  -- Where the caller is in the module: after a call site was written every other function is as it
  -- was, the caller has all its edits with the callee that is given back, the delegate is behind the
  -- functions that were there and its size is given back; and if no clone is reused, the callee given
  -- back is the new clone.
  pub write_lem :
      (previous : Option ℕ)
      → (let r = write memo delegate_of thunk_pointer A M s index l previous in
          ((j : ℕ)
            → j < length M
            → get_elem? r.0 j
              ≡ (if s.caller == j then some (caller_after r.1.0) else get_elem? M j))
          × (get_elem? r.0 (length M) ≡ some (delegate_of M s l).0)
          × (r.1.1 ≡ get_number_of_insts (delegate_of M s l).0)
          × (previous ≡ none
              → get_elem? r.0 r.1.0
                ≡ some (new_clone memo delegate_of thunk_pointer A M s index l)))
  unfolding write
  write_lem (some g) = (old_M2 g, delegate_M2 g, refl, λ e. cc e)
  write_lem none =
      let g = suc (length M) in
      let C = new_clone memo delegate_of thunk_pointer A M s index l in
      (
        λ j h. get_elem?-append (M2 g) (C ∷ []) j (omega (arith, length_M2 g)) ∙ old_M2 g j h,
        get_elem?-append (M2 g) (C ∷ []) (length M) (omega (arith, length_M2 g)) ∙ delegate_M2 g,
        refl,
        λ e. get_elem?_snoc (M2 g) C g (sym (length_M2 g)),
      )
