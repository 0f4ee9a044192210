-- ===== src/Idempotency/Ownership.antt =====
-- Who owns a key: the request between its claim and its `complete` or `release`.
pub mod Balance
use ai_system_engineering_cu.Base.{
  ℕ, zero, suc, ◌+◌, Bool, true, false, Option, none, some, List, [], ◌∷◌, Text, lookup, ◌==◌,
  text_eq, ◌≡◌, refl, if◌then◌else◌,
}
use ai_system_engineering_cu.Effects.{
  Program, pure, raise, call, Reply, reply, fault, Outcome, returned, raised, ◌>>=◌, attempt,
  reply_or, or_raise,
}
use ai_system_engineering_cu.Idempotency.Calls.{
  Action, Call, Answer, Error, Shared, ClaimRow, insert_claim, select_claim, update_claim,
  delete_claim, perform, is_open,
}

unfoldable pub one_if : Bool → ℕ
one_if true = 1
one_if false = 0

-- Is the next call the operation under the key, or the statement that ends the claim?
unfoldable pub needs : Text → Call → Bool
needs key (insert_claim k operation_id) = false
needs key (select_claim k) = false
needs key (update_claim k operation_id status body) = k == key
needs key (delete_claim k operation_id) = k == key
needs key (perform k) = k == key

unfoldable pub owes : {A : Type 0} → Text → Action A → ℕ
unfolding one_if needs
owes key (pure a) = 0
owes key (raise e) = 0
owes key (call c k) = one_if (needs key c)

-- The requests of the pool that own the key.
unfoldable pub owners : {A : Type 0} → Text → List (Action A) → ℕ
unfolding owes
owners key [] = 0
owners key (m ∷ ms) = owes key m + owners key ms

unfoldable pub stands_open : Option ClaimRow → Bool
unfolding is_open
stands_open none = false
stands_open (some row) = is_open row

-- The rows in flight under the key: one or none.
unfoldable pub open_claims : Text → Shared → ℕ
unfolding one_if stands_open
open_claims key s = one_if (stands_open (lookup key s.claims))

-- What a call makes of the key that a request owns: an INSERT that returned its row gives it.
abbrev pub left_key : (c : Call) → Answer c → Option Text
left_key (insert_claim key operation_id) (reply (some row)) = some key
left_key (insert_claim key operation_id) _ = none
left_key (select_claim key) _ = none
left_key (update_claim key operation_id status body) _ = none
left_key (delete_claim key operation_id) _ = none
left_key (perform key) _ = some key

-- The key that a request must own for the call.
abbrev pub needed_key : Call → Option Text
needed_key (insert_claim key operation_id) = none
needed_key (select_claim key) = none
needed_key (update_claim key operation_id status body) = some key
needed_key (delete_claim key operation_id) = some key
needed_key (perform key) = some key

abbrev pub Orderly : {A : Type 0} → (A → Option Text → Type 0) → Option Text → Action A → Type 0
Orderly Q owned (pure a) = Q a owned
Orderly Q owned (raise e) = Unit
Orderly Q owned (call c k) =
    (owned ≡ needed_key c) × ((a : Answer c) → Orderly Q (left_key c a) (k a))

-- A program that owns `owned` makes each call with the key that the call needs, and returns what
-- satisfies `Q` with the key that it still owns.
pub record Follows {A : Type 0} (Q : A → Option Text → Type 0) (owned : Option Text) (m : Action A)
    : Type 0 where
  pub at : Orderly Q owned m

-- Whatever a program returns and still owns.
abbrev pub Any : {A : Type 0} → A → Option Text → Type 0
Any a left = Unit

Orderly-bind :
    {A B : Type 0} (P : A → Option Text → Type 0) (Q : B → Option Text → Type 0)
    (owned : Option Text) (m : Action A) (f : A → Action B)
    → Orderly P owned m
    → ((a : A) (left : Option Text) → P a left → Follows Q left (f a))
    → Orderly Q owned (m >>= f)
Orderly-bind P Q owned (pure a) f h hf = (hf a owned h).at
Orderly-bind P Q owned (raise e) f h hf = tt
Orderly-bind P Q owned (call c k) f h hf =
    (h.0, λ a. Orderly-bind P Q (left_key c a) (k a) f (h.1 a) hf)

abbrev pub Tried :
    {A : Type 0} → (A → Option Text → Type 0) → Outcome Error A → Option Text → Type 0
Tried Q (returned a) owned = Q a owned
Tried Q (raised e) owned = Unit

Orderly-attempt :
    {A : Type 0} (Q : A → Option Text → Type 0) (owned : Option Text) (m : Action A)
    → Orderly Q owned m
    → Orderly (Tried Q) owned (attempt m)
Orderly-attempt Q owned (pure a) h = h
Orderly-attempt Q owned (raise e) h = tt
Orderly-attempt Q owned (call c k) h = (h.0, λ a. Orderly-attempt Q (left_key c a) (k a) (h.1 a))

module _ {A : Type 0} (Q : A → Option Text → Type 0) where
  pub Follows-pure : (owned : Option Text) (a : A) → Q a owned → Follows Q owned (pure a)
  Follows-pure owned a q = record { at = q }

  pub Follows-raise : (owned : Option Text) (e : Error) → Follows Q owned (raise e)
  Follows-raise owned e = record { at = tt }

  pub Follows-call :
      (c : Call) (k : Answer c → Action A)
      → ((a : Answer c) → Follows Q (left_key c a) (k a))
      → Follows Q (needed_key c) (call c k)
  Follows-call c k h = record { at = (refl, λ a. (h a).at) }

  pub Follows-bind :
      {B : Type 0} (P : B → Option Text → Type 0) (owned : Option Text) (m : Action B)
      (f : B → Action A)
      → Follows P owned m
      → ((b : B) (left : Option Text) → P b left → Follows Q left (f b))
      → Follows Q owned (m >>= f)
  Follows-bind P owned m f h hf = record { at = Orderly-bind P Q owned m f h.at hf }

  pub Follows-attempt :
      (owned : Option Text) (m : Action A) → Follows Q owned m → Follows (Tried Q) owned (attempt m)
  Follows-attempt owned m h = record { at = Orderly-attempt Q owned m h.at }

  pub Follows-reply :
      (owned : Option Text) (e : Error) (r : Reply A)
      → ((a : A) → r ≡ reply a → Q a owned)
      → Follows Q owned (reply_or e r)
  Follows-reply owned e (reply a) h = record { at = h a refl }
  Follows-reply owned e fault h = record { at = tt }

  pub Follows-or_raise :
      (owned : Option Text) (e : Error) (o : Option A)
      → ((a : A) → Q a owned)
      → Follows Q owned (or_raise e o)
  Follows-or_raise owned e none h = record { at = tt }
  Follows-or_raise owned e (some a) h = record { at = h a }
