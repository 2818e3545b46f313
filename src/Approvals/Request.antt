-- ===== src/Approvals/Request.antt =====
-- Asking for an approval twice under one idempotency key.
use Prim.Native.String.{String}
use text.Mathlib.Text.{◌==◌ as str_eq}
use text.Mathlib.TextEquality.{eq_iff}
use whatsapp_os.Prelude.{
  ℕ, ◌≡◌, refl, Bool, true, false, List, [], ◌∷◌, ◌++◌, Option, none, some, arith, find,
  Option-cases, inl, inr, ==_refl,
}
use whatsapp_os.Approvals.{
  ActionApprovalRow, CreateApprovalRequestInput, has_key, new_approval,
  find_approval_by_idempotency_key, create_approval_request,
}

find-append :
    {A : Type 0} (p : A → Bool) (xs : List A) (x : A)
    → find p xs ≡ none
    → p x ≡ true
    → find p (xs ++ (x ∷ [])) ≡ some x
find-append p [] x missing hit = rw hit refl
find-append p (y ∷ ys) x missing hit = ground (arith, find-append p ys x, missing, hit)

str_eq_refl : (text : String) → str_eq text text ≡ true
str_eq_refl text = (eq_iff text text).1 refl

known :
    (ws : ℕ) (requester : Option ℕ) (input : CreateApprovalRequestInput) (id : ℕ)
    → (rows : List ActionApprovalRow) (key : String) {row : ActionApprovalRow}
    → input.idempotency_key ≡ some key
    → str_eq key "" ≡ false
    → find_approval_by_idempotency_key ws key rows ≡ some row
    → create_approval_request ws requester input id rows ≡ (row, rows)
unfolding create_approval_request
known ws requester input id rows key given named found =
    rw (create_approval_request, given) (rw named (rw found refl))

abbrev asked_by : Option ℕ → CreateApprovalRequestInput → Option ℕ
asked_by requester input = elim input.requested_by_id [ none ↦ requester | some given ↦ some given ]

added :
    (ws : ℕ) (requester : Option ℕ) (input : CreateApprovalRequestInput) (id : ℕ)
    → (rows : List ActionApprovalRow) (key : String) → input.idempotency_key ≡ some key
    → str_eq key "" ≡ false
    → find_approval_by_idempotency_key ws key rows ≡ none
    → create_approval_request ws requester input id rows ≡ (
      new_approval ws (asked_by requester input) input id,
      rows ++ (new_approval ws (asked_by requester input) input id ∷ []),
    )
unfolding create_approval_request
added ws requester input id rows key given named missing = ground (arith, given, named, missing)

new_approval-has_key :
    (ws : ℕ) (requester : Option ℕ) (input : CreateApprovalRequestInput) (id : ℕ) (key : String)
    → input.idempotency_key ≡ some key
    → has_key ws key (new_approval ws requester input id) ≡ true
new_approval-has_key ws requester input id key given = rw (given, ==_refl ws, str_eq_refl key) refl

-- What is found under the key once a request with it is made is what the request returned.
created_is_found :
    (ws : ℕ) (requester : Option ℕ) (input : CreateApprovalRequestInput) (id : ℕ)
    → (rows : List ActionApprovalRow) (key : String) → input.idempotency_key ≡ some key
    → str_eq key "" ≡ false
    → find_approval_by_idempotency_key ws key (create_approval_request ws requester input id rows).1
      ≡ some (create_approval_request ws requester input id rows).0
unfolding find_approval_by_idempotency_key
created_is_found ws requester input id rows key given named =
    elim (Option-cases (find_approval_by_idempotency_key ws key rows)) [
      | inr (row, found) ↦ rw (known ws requester input id rows key given named found) found
      | inl missing ↦ rw (added ws requester input id rows key given named missing) (
          find-append (has_key ws key) rows (new_approval ws (asked_by requester input) input id)
            missing (new_approval-has_key ws (asked_by requester input) input id key given))
    ]

-- A request under a key that is not empty, made again with that key: the second returns the
-- approval of the first, whatever else it asks for, and adds none.
pub create_approval_request_twice :
    (ws : ℕ) (requester requester' : Option ℕ) (input input' : CreateApprovalRequestInput)
    (id id' : ℕ)
    → (rows : List ActionApprovalRow) (key : String) → input.idempotency_key ≡ some key
    → input'.idempotency_key ≡ some key
    → str_eq key "" ≡ false
    → create_approval_request ws requester' input' id'
        (create_approval_request ws requester input id rows).1
      ≡ create_approval_request ws requester input id rows
create_approval_request_twice ws requester requester' input input' id id' rows key given given'
      named =
    known ws requester' input' id' (create_approval_request ws requester input id rows).1 key given'
      named (created_is_found ws requester input id rows key given named)
