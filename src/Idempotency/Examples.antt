-- ===== src/Idempotency/Examples.antt =====
-- The theorems about idempotent writes at concrete inputs.
use ai_system_engineering_cu.Base.{
  ◌≡◌, ◌≤◌, refl, none, some, put, [], ◌∷◌, Text, literal, lookup, text_beq, text_eq, strip,
}
use ai_system_engineering_cu.Effects.{call, reply}
use ai_system_engineering_cu.Effects.Pool.{advance, start, here, next}
use ai_system_engineering_cu.Idempotency.Calls.{
  Action, ClaimRow, Completion, Shared, insert_claim, inserted_claim, write_claim, delete_claim,
  is_deleted, is_open, delete_if,
}
use ai_system_engineering_cu.Idempotency.Store.{claim, claim_attempts, release}
use ai_system_engineering_cu.Idempotency.Store.Finality.{completed_is_final}
use ai_system_engineering_cu.Idempotency.Handler.{Answered, run, required_key}
use ai_system_engineering_cu.Idempotency.Ownership.{owners, open_claims}
use ai_system_engineering_cu.Idempotency.Handler.Exclusion.{request, requests_exclude}

abbrev key : Text
key = literal "key-12345"

abbrev operation_id : Text
operation_id = literal "createDocument"

abbrev done : Completion
done = record { completed_at = 9; response_status = 201; response_body = literal "{}" }

abbrev done_row : ClaimRow
done_row = record { operation_id = operation_id; claimed_at = 7; completion = some done }

abbrev keep : Text → Text
keep t = t

abbrev empty : Shared
empty = record { claims = []; performed = [] }

abbrev stored : Shared
stored = record { claims = (key, done_row) ∷ []; performed = key ∷ [] }

-- A release of the completed key takes no row.
completed_is_final_example : lookup key stored.claims ≡ some done_row
unfolding release lookup text_beq is_deleted is_open delete_if
completed_is_final_example =
    completed_is_final key done_row done refl [] stored _ stored
      (next (next here (start (release key operation_id) tt refl refl))
        (advance [] [] (delete_claim key operation_id) _ (reply tt) refl (refl, refl) refl))
      refl

abbrev open_row : ClaimRow
open_row = record { operation_id = operation_id; claimed_at = 7; completion = none }

abbrev claimed_key : Shared
claimed_key = record { claims = (key, open_row) ∷ []; performed = [] }

abbrev a_request : Action Answered
a_request = run keep keep keep operation_id (some key)

-- The request after the INSERT returned the row.
abbrev inserted : Action Answered → Action Answered
inserted (call (insert_claim k op) rest) = rest (reply (some open_row))
inserted m = m

-- Two requests with one key start, and the first of them claims it.
requests_exclude_example :
    (owners key (a_request ∷ inserted a_request ∷ []) ≤ open_claims key claimed_key)
    × (open_claims key claimed_key ≤ 1)
unfolding run required_key strip text_beq claim claim_attempts lookup inserted_claim write_claim put
requests_exclude_example =
    requests_exclude keep keep keep key empty (a_request ∷ inserted a_request ∷ []) claimed_key (
      next
        (next (next here (start a_request (request operation_id (some key) refl) refl refl))
          (start a_request (request operation_id (some key) refl) refl refl))
        (advance (a_request ∷ []) [] (insert_claim key operation_id) _ (reply (some open_row)) refl
          (7, (refl, refl)) refl))

owners_test : owners key (a_request ∷ inserted a_request ∷ []) ≡ 1
unfolding run required_key strip text_beq claim claim_attempts owners
owners_test = refl
