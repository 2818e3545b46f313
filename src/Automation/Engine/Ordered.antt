-- ===== src/Automation/Engine/Ordered.antt =====
-- Actions in the order of their positions, and what is left of them from a position on.
use whatsapp_os.Prelude.{
  ℕ, zero, suc, ◌≤◌, ◌<◌, ◌≡◌, refl, Bool, true, false, ◌&&◌, ◌||◌, List, [], ◌∷◌, ◌++◌, any, all,
  leb, ltb, ◌==◌, arith, ap, ◌∙◌, Bool-cases, inl, inr,
}
use whatsapp_os.Automation.{AutomationAction}
use whatsapp_os.Automation.Engine.{insert_by_position, by_position, from_position}

-- No two actions have one position.
abbrev pub HasOwnPositions : List AutomationAction → Type 0
HasOwnPositions [] = Unit {0}
HasOwnPositions (action ∷ rest) =
    (any (λ (other : AutomationAction). other.position == action.position) rest ≡ false)
    × HasOwnPositions rest

abbrev pub is_after : AutomationAction → AutomationAction → Bool
is_after action other = ltb action.position other.position

-- Each action stands before those with higher positions.
abbrev pub IsAscending : List AutomationAction → Type 0
IsAscending [] = Unit {0}
IsAscending (action ∷ rest) = (all (is_after action) rest ≡ true) × IsAscending rest

all-insert :
    (p : AutomationAction → Bool) (action : AutomationAction) (list : List AutomationAction)
    → all p (insert_by_position action list) ≡ (p action && all p list)
all-insert p action [] = refl
all-insert p action (next ∷ rest) = ground (arith, all-insert p action rest)

any-insert :
    (p : AutomationAction → Bool) (action : AutomationAction) (list : List AutomationAction)
    → any p (insert_by_position action list) ≡ (p action || any p list)
any-insert p action [] = refl
any-insert p action (next ∷ rest) = ground (arith, any-insert p action rest)

any-by_position :
    (p : AutomationAction → Bool) (list : List AutomationAction)
    → any p (by_position list) ≡ any p list
any-by_position p [] = refl
any-by_position p (action ∷ rest) =
    any-insert p action (by_position rest) ∙ ap (λ b. p action || b) (any-by_position p rest)

after_all :
    (low high : AutomationAction) (list : List AutomationAction)
    → low.position ≤ high.position
    → all (is_after high) list ≡ true
    → all (is_after low) list ≡ true
after_all low high [] below above = refl
after_all low high (next ∷ rest) below above = ground (arith, after_all low high rest)

insert-IsAscending :
    (action : AutomationAction) (list : List AutomationAction)
    → any (λ (other : AutomationAction). other.position == action.position) list ≡ false
    → IsAscending list
    → IsAscending (insert_by_position action list)
insert-IsAscending action [] own ascending = (refl, tt)
insert-IsAscending action (next ∷ rest) own (above, ascending) =
    elim (Bool-cases (leb action.position next.position)) [
      | inl first ↦ rw first ((ground (arith, after_all action next rest), (above, ascending)))
      | inr later ↦ rw later (
          (
            ground (arith, all-insert (is_after next) action rest),
            insert-IsAscending action rest (ground arith) ascending,
          ))
    ]

pub by_position-IsAscending :
    (list : List AutomationAction) → HasOwnPositions list → IsAscending (by_position list)
by_position-IsAscending [] own = tt
by_position-IsAscending (action ∷ rest) (own, others) =
    insert-IsAscending action (by_position rest) (any-by_position _ rest ∙ own)
      (by_position-IsAscending rest others)

from_all :
    (start : ℕ) (action : AutomationAction) (list : List AutomationAction)
    → start ≤ suc action.position
    → all (is_after action) list ≡ true
    → from_position start list ≡ list
from_all start action [] low above = refl
from_all start action (next ∷ rest) low above = ground (arith, from_all start action rest)

after_member :
    (first : AutomationAction) (before : List AutomationAction) (action : AutomationAction)
    (rest : List AutomationAction)
    → all (is_after first) (before ++ (action ∷ rest)) ≡ true
    → first.position < action.position
after_member first [] action rest above = ground arith
after_member first (next ∷ before) action rest above =
    after_member first before action rest (ground arith)

pub from_start : (list : List AutomationAction) → from_position zero list ≡ list
from_start [] = refl
from_start (action ∷ rest) = ground (arith, from_start rest)

-- What stands after an action is what there is from the position after its own.
pub from_position-next :
    (before : List AutomationAction) (action : AutomationAction) (rest : List AutomationAction)
    → IsAscending (before ++ (action ∷ rest))
    → from_position (suc action.position) (before ++ (action ∷ rest)) ≡ rest
from_position-next [] action rest (above, ascending) =
    let here : leb (suc action.position) action.position ≡ false = ground arith in
    rw here (from_all (suc action.position) action rest (omega arith) above)
from_position-next (first ∷ before) action rest (above, ascending) =
    let later = after_member first before action rest above in
    let here : leb (suc action.position) first.position ≡ false = ground arith in
    rw here (from_position-next before action rest ascending)
