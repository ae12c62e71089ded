-- ===== src/ProgramSlice/Delegate/Reroute/Edits.antt =====
-- What the edits of `rerouteBranches`, passes/ProgramSlice.cpp, do to the end of a block.
use wyvern.Base.{ℕ, ◌≡◌, refl, List, [], ◌∷◌, ◌++◌, Option, none, some, map}
use wyvern.Base.Map.{nat_order}
use wyvern.ProgramSlice.Delegate.{Label, Kind, phi, branch, switch, ret, plain, Clone}
use wyvern.ProgramSlice.Delegate.Reroute.{
  as_terminator, terminator, new_branch, add_branch, set_labels, set_successors, phi_kind,
  update_phis, cut_kind, cut_clone,
}

abbrev pub map_kind : (Kind → Kind) → Option Kind → Option Kind
map_kind f none = none
map_kind f (some k) = some (f k)

as_terminator-phi_kind :
    (f : Label → Label) (k : Kind) → as_terminator (phi_kind f k) ≡ as_terminator k
as_terminator-phi_kind f (phi ls) = refl
as_terminator-phi_kind f (branch ls) = refl
as_terminator-phi_kind f (switch ls) = refl
as_terminator-phi_kind f ret = refl
as_terminator-phi_kind f (plain o) = refl

as_terminator-cut_kind :
    (n : ℕ) (k : Kind) → as_terminator (cut_kind n k) ≡ map_kind (cut_kind n) (as_terminator k)
unfolding cut_kind
as_terminator-cut_kind n (phi ls) = refl
as_terminator-cut_kind n (branch ls) = refl
as_terminator-cut_kind n (switch ls) = refl
as_terminator-cut_kind n ret = refl
as_terminator-cut_kind n (plain o) = refl

as_terminator-set_labels :
    (ls : List Label) (k : Kind)
    → as_terminator (set_labels ls k) ≡ map_kind (set_labels ls) (as_terminator k)
as_terminator-set_labels l (phi ls) = refl
as_terminator-set_labels l (branch ls) = refl
as_terminator-set_labels l (switch ls) = refl
as_terminator-set_labels l ret = refl
as_terminator-set_labels l (plain o) = refl

-- Changing phi nodes changes no terminator.
pub terminator-update_phis :
    (f : Label → Label) (cs : List Clone) → terminator (update_phis f cs) ≡ terminator cs
unfolding terminator update_phis
terminator-update_phis f [] = refl
terminator-update_phis f (c ∷ []) = as_terminator-phi_kind f c.kind
terminator-update_phis f (c ∷ d ∷ rest) = terminator-update_phis f (d ∷ rest)

pub terminator-cut :
    (succ : ℕ) (cs : List Clone)
    → terminator (map (cut_clone succ) cs) ≡ map_kind (cut_kind succ) (terminator cs)
unfolding terminator cut_kind
terminator-cut n [] = refl
terminator-cut n (c ∷ []) = as_terminator-cut_kind n c.kind
terminator-cut n (c ∷ d ∷ rest) = terminator-cut n (d ∷ rest)

pub terminator_snoc :
    (c : Clone) (cs : List Clone) → terminator (cs ++ c ∷ []) ≡ as_terminator c.kind
unfolding terminator
terminator_snoc c [] = refl
terminator_snoc c (d ∷ []) = refl
terminator_snoc c (d ∷ e ∷ rest) = terminator_snoc c (e ∷ rest)

pub terminator-add_branch :
    (l : Label) (cs : List Clone)
    → terminator cs ≡ none
    → terminator (add_branch l cs) ≡ some (branch (l ∷ []))
unfolding add_branch
terminator-add_branch l cs e = rw (e, add_branch) (terminator_snoc (new_branch l) cs)

pub add_branch-closed_block :
    (l : Label) (cs : List Clone) (k : Kind) → terminator cs ≡ some k → add_branch l cs ≡ cs
unfolding add_branch
add_branch-closed_block l cs k e = rw (e, add_branch) refl

pub terminator-set_successors :
    (ls : List Label) (cs : List Clone)
    → terminator (set_successors ls cs) ≡ map_kind (set_labels ls) (terminator cs)
unfolding terminator set_successors
terminator-set_successors l [] = refl
terminator-set_successors l (c ∷ []) = as_terminator-set_labels l c.kind
terminator-set_successors l (c ∷ d ∷ []) = terminator-set_successors l (d ∷ [])
terminator-set_successors l (c ∷ d ∷ e ∷ rest) = terminator-set_successors l (d ∷ e ∷ rest)
