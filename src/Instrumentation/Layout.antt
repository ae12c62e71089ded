-- ===== src/Instrumentation/Layout.antt =====
-- The passes of passes/Instrumentation.cpp over a block, one after the other, and the block that
-- they leave, described at once.
use wyvern.Base.{
  ◌≡◌, refl, sym, ap, ◌∙◌, true, false, List, [], ◌∷◌, ◌++◌, map, if◌then◌else◌, Bool-cases, inl,
  inr, append_assoc, append-nil,
}
use wyvern.Ir.{Instruction, Block, is_phi}
use wyvern.Instrumentation.{
  Added, Item, code, added, before, insert_first, marks, push_marks, mark_uses,
}

-- Each instruction behind what was put in front of it.
abbrev pub weave : (Instruction → List Added) → Block → List Item
weave f [] = []
weave f (I ∷ B) = map added (f I) ++ code I ∷ weave f B

-- The phi nodes, what stands at the first insertion point, and the other instructions.
abbrev pub shape : List Added → (Instruction → List Added) → Block → List Item
shape calls f [] = map added calls
shape calls f (I ∷ B) =
    if is_phi I then code I ∷ shape calls f B else map added calls ++ weave f (I ∷ B)

-- The marks of the phi nodes at the start of a block.
abbrev pub phi_marks : List Added → Block → List Added
phi_marks pending [] = pending
phi_marks pending (I ∷ B) = if is_phi I then phi_marks (push_marks (marks I) pending) B else pending

map-append :
    {A : Type 0} {B : Type 0} (f : A → B) (xs ys : List A) → map f (xs ++ ys) ≡ map f xs ++ map f ys
map-append f [] ys = refl
map-append f (x ∷ xs) ys = ap (λ zs. f x ∷ zs) (map-append f xs ys)

before_added :
    (g : Instruction → List Added) (calls : List Added) (X : List Item)
    → before g (map added calls ++ X) ≡ map added calls ++ before g X
unfolding before
before_added g [] X = refl
before_added g (a ∷ calls) X = ap (λ zs. added a ∷ zs) (before_added g calls X)

before-weave :
    (f g : Instruction → List Added) (B : Block) → before g (weave f B) ≡ weave (λ I. f I ++ g I) B
unfolding before
before-weave f g [] = refl
before-weave f g (I ∷ B) =
    before_added g (f I) (code I ∷ weave f B)
    ∙ rw
        (
          before-weave f g B,
          map-append added (f I) (g I),
          append_assoc (map added (f I)) (map added (g I)) (code I ∷ weave (λ J. f J ++ g J) B),
        )
        refl

source_weave : (B : Block) → map code B ≡ weave (λ _. []) B
source_weave [] = refl
source_weave (I ∷ B) = ap (λ zs. code I ∷ zs) (source_weave B)

-- What puts nothing in front of a phi node.
abbrev pub IsQuiet : (Instruction → List Added) → Type 0
IsQuiet g = (I : Instruction) → is_phi I ≡ true → g I ≡ []

before_only :
    (g : Instruction → List Added) (calls : List Added)
    → before g (map added calls) ≡ map added calls
unfolding before
before_only g [] = refl
before_only g (a ∷ calls) = ap (λ zs. added a ∷ zs) (before_only g calls)

pub before-shape :
    (calls : List Added) (f g : Instruction → List Added) (B : Block)
    → IsQuiet g
    → before g (shape calls f B) ≡ shape calls (λ I. f I ++ g I) B
unfolding before
before-shape calls f g [] quiet = before_only g calls
before-shape calls f g (I ∷ B) quiet = elim (Bool-cases (is_phi I)) [
  | inl here ↦ rw (here, quiet I here, before-shape calls f g B quiet) refl
  | inr later ↦ rw later (
      before_added g calls (weave f (I ∷ B))
      ∙ ap (λ zs. map added calls ++ zs) (before-weave f g (I ∷ B)))
]

-- The first insertion point of a block without phi nodes is its start.
insert_first_here :
    (calls fs gs : List Added) (I : Instruction) (X : List Item)
    → is_phi I ≡ false
    → insert_first calls (map added fs ++ (map added gs ++ code I ∷ X))
      ≡ map added calls ++ (map added fs ++ (map added gs ++ code I ∷ X))
unfolding insert_first
insert_first_here calls [] [] I X e = rw e refl
insert_first_here calls [] (b ∷ gs) I X e = refl
insert_first_here calls (a ∷ fs) gs I X e = refl

added_twice :
    (xs ys : List Added) (Z : List Item)
    → map added xs ++ (map added ys ++ Z) ≡ map added (xs ++ ys) ++ Z
added_twice [] ys Z = refl
added_twice (x ∷ xs) ys Z = ap (λ zs. added x ∷ zs) (added_twice xs ys Z)

pub insert_first-shape :
    (calls calls' : List Added) (f : Instruction → List Added) (B : Block)
    → insert_first calls' (shape calls f B) ≡ shape (calls' ++ calls) f B
unfolding insert_first
insert_first-shape [] calls' f [] = sym (map-append added calls' [] ∙ append-nil (map added calls'))
insert_first-shape (a ∷ calls) calls' f [] = sym (map-append added calls' (a ∷ calls))
insert_first-shape calls calls' f (I ∷ B) = elim (Bool-cases (is_phi I)) [
  | inl here ↦ rw (here, insert_first-shape calls calls' f B, here) refl
  | inr later ↦ rw later (
      insert_first_here calls' calls (f I) I (weave f B) later
      ∙ added_twice calls' calls (weave f (I ∷ B)))
]

mark_uses_here :
    (pending fs gs : List Added) (I : Instruction) (X : List Item)
    → is_phi I ≡ false
    → mark_uses pending (map added fs ++ (map added gs ++ code I ∷ X))
      ≡ map added pending ++ before marks (map added fs ++ (map added gs ++ code I ∷ X))
unfolding mark_uses
mark_uses_here pending [] [] I X e = rw e refl
mark_uses_here pending [] (b ∷ gs) I X e = refl
mark_uses_here pending (a ∷ fs) gs I X e = refl

phi_marks_phi :
    (pending : List Added) (I : Instruction) (B : Block)
    → is_phi I ≡ true
    → phi_marks pending (I ∷ B) ≡ phi_marks (push_marks (marks I) pending) B
phi_marks_phi pending I B e = rw e refl

pub mark_uses-shape :
    (pending calls : List Added) (f : Instruction → List Added) (B : Block)
    → mark_uses pending (shape calls f B)
      ≡ shape (phi_marks pending B ++ calls) (λ I. f I ++ marks I) B
unfolding mark_uses
mark_uses-shape pending [] f [] = sym (map-append added pending [] ∙ append-nil (map added pending))
mark_uses-shape pending (a ∷ calls) f [] =
    ap (λ zs. map added pending ++ zs) (before_only marks (a ∷ calls))
    ∙ sym (map-append added pending (a ∷ calls))
mark_uses-shape pending calls f (I ∷ B) = elim (Bool-cases (is_phi I)) [
  | inl here ↦
      rw (here, mark_uses-shape (push_marks (marks I) pending) calls f B, here)
        (ap (λ p. code I ∷ shape (p ++ calls) (λ J. f J ++ marks J) B)
          (sym (phi_marks_phi pending I B here)))
  | inr later ↦ rw later (
      mark_uses_here pending calls (f I) I (weave f B) later
      ∙ ap (λ zs. map added pending ++ zs)
          (before_added marks calls (weave f (I ∷ B))
            ∙ ap (λ zs. map added calls ++ zs) (before-weave f marks (I ∷ B)))
      ∙ added_twice pending calls (weave (λ J. f J ++ marks J) (I ∷ B)))
]

pub source_shape : (B : Block) → map code B ≡ shape [] (λ _. []) B
source_shape [] = refl
source_shape (I ∷ B) = elim (Bool-cases (is_phi I)) [
  | inl here ↦ rw here (ap (λ zs. code I ∷ zs) (source_shape B))
  | inr later ↦ rw later (ap (λ zs. code I ∷ zs) (source_weave B))
]
