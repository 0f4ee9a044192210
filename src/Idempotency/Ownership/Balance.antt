-- ===== src/Idempotency/Ownership/Balance.antt =====
-- What a call changes of the keys that are owned and of the rows that are in flight.
use ai_system_engineering_cu.Base.{
  ℕ, ◌+◌, ◌≤◌, ◌≡◌, refl, sym, ap, ◌∙◌, arith, inl, inr, Bool, true, false, Bool-cases, Option,
  none, some, List, [], ◌∷◌, ◌++◌, Text, lookup, lookup-put, lookup-remove, ◌==◌, text_eq,
  text_beq_iff,
}
use ai_system_engineering_cu.Effects.{pure, raise, call, Reply, reply, fault, Did}
use ai_system_engineering_cu.Idempotency.Calls.{
  Action, Call, Answer, Shared, Performs, ClaimRow, insert_claim, select_claim, update_claim,
  delete_claim, perform, is_open, inserted_claim, write_claim, delete_if,
}
use ai_system_engineering_cu.Idempotency.Ownership.{
  one_if, needs, owes, owners, Any, stands_open, open_claims, left_key, needed_key, Follows,
}

none≢some : {A : Type 0} {a : A} → none ≡ some a → ⊥
none≢some h = cc

module _ (key : Text) where
  unfoldable pub owned_by : Option Text → ℕ
  unfolding one_if
  owned_by none = 0
  owned_by (some k) = one_if (k == key)

  one_if_bound : (b : Bool) → one_if b ≤ 1
  unfolding one_if
  one_if_bound true = ground arith
  one_if_bound false = ground arith

  pub open_claims_bound : (s : Shared) → open_claims key s ≤ 1
  unfolding open_claims
  open_claims_bound s = one_if_bound _

  write_elsewhere :
      (k : Text) (o : Option ClaimRow) (s : Shared)
      → (k == key) ≡ false
      → open_claims key (write_claim k o s) ≡ open_claims key s
  unfolding write_claim open_claims
  write_elsewhere k none s other = refl
  write_elsewhere k (some row) s other =
      ap (λ o. one_if (stands_open o)) (lookup-put k key row s.claims ∙ rw other refl)

  delete_elsewhere :
      (k : Text) (b : Bool) (s : Shared)
      → (k == key) ≡ false
      → open_claims key (delete_if b k s) ≡ open_claims key s
  unfolding delete_if open_claims
  delete_elsewhere k false s other = refl
  delete_elsewhere k true s other =
      ap (λ o. one_if (stands_open o)) (lookup-remove k key s.claims ∙ rw other refl)

  -- A row that is inserted is open, and there was none.
  insert_opens :
      (k operation_id : Text) (now : ℕ) (s : Shared)
      → lookup k s.claims ≡ none
      → open_claims key (write_claim k (inserted_claim now operation_id none) s)
        ≡ one_if (k == key) + open_claims key s
  unfolding write_claim inserted_claim open_claims stands_open is_open one_if
  insert_opens k operation_id now s absent =
      ap (λ o. one_if (stands_open o)) (lookup-put k key _ s.claims)
      ∙ elim (Bool-cases (k == key)) [
        | inl same ↦ rw same (rw (sym ((text_beq_iff k key).0 same), absent) refl)
        | inr other ↦ rw other (ground arith)
      ]

  -- What a call adds to the keys that are owned, it adds to the rows that are open.
  unfoldable pub Balances : (c : Call) → Shared → Answer c → Shared → Type 0
  Balances c s a s' =
      owned_by (left_key c a) + open_claims key s ≤ owned_by (needed_key c) + open_claims key s'

  ends_claim :
      (k : Text) (s s' : Shared)
      → ((k == key) ≡ false → open_claims key s' ≡ open_claims key s)
      → 0 + open_claims key s ≤ one_if (k == key) + open_claims key s'
  unfolding one_if
  ends_claim k s s' h = elim (Bool-cases (k == key)) [
    | inl same ↦ rw same (ground (arith, open_claims_bound s))
    | inr other ↦ rw other (ground (arith, h other))
  ]

  Did-elsewhere :
      {A : Type 0} (a : Reply A) (result : A) (s done s' : Shared)
      → open_claims key done ≡ open_claims key s
      → Did a result s done s'
      → open_claims key s' ≡ open_claims key s
  Did-elsewhere (reply x) result s done s' h d = ap (open_claims key) d.1 ∙ h
  Did-elsewhere fault result s done s' h (inl e) = ap (open_claims key) e
  Did-elsewhere fault result s done s' h (inr e) = ap (open_claims key) e ∙ h

  insert-Balances :
      (k operation_id : Text) (now : ℕ) (s : Shared) (a : Reply (Option ClaimRow)) (s' : Shared)
      (found : Option ClaimRow)
      → lookup k s.claims ≡ found
      → Did a
          (inserted_claim now operation_id found)
          s
          (write_claim k (inserted_claim now operation_id found) s)
          s'
      → Balances (insert_claim k operation_id) s a s'
  unfolding owned_by Balances inserted_claim write_claim
  insert-Balances k operation_id now s fault s' (some row) e d =
      ground (arith, Did-elsewhere fault none s s s' refl d)
  insert-Balances k operation_id now s fault s' none e (inl d) =
      ground (arith, ap (open_claims key) d)
  insert-Balances k operation_id now s fault s' none e (inr d) =
      ground (arith, ap (open_claims key) d, insert_opens k operation_id now s e)
  insert-Balances k operation_id now s (reply none) s' (some row) e d =
      ground (arith, ap (open_claims key) d.1)
  insert-Balances k operation_id now s (reply none) s' none e d = absurd (none≢some d.0)
  insert-Balances k operation_id now s (reply (some r)) s' (some row) e d =
      absurd (none≢some (sym d.0))
  insert-Balances k operation_id now s (reply (some r)) s' none e d =
      ground (arith, ap (open_claims key) d.1, insert_opens k operation_id now s e)

  perform-open_claims :
      (k : Text) (s s' : Shared)
      → s' ≡ record s { performed = s.performed ++ k ∷ [] }
      → open_claims key s' ≡ open_claims key s
  unfolding open_claims
  perform-open_claims k s s' e = ap (λ t. one_if (stands_open (lookup key t.claims))) e

  -- Every call of the store balances.
  pub Performs-Balances :
      (c : Call) (s : Shared) (a : Answer c) (s' : Shared) → Performs c s a s' → Balances c s a s'
  unfolding Balances owned_by
  Performs-Balances (insert_claim k operation_id) s a s' (now, d) =
      insert-Balances k operation_id now s a s' _ refl d
  Performs-Balances (select_claim k) s a s' d = ground (arith, Did-elsewhere a _ s s s' refl d)
  Performs-Balances (update_claim k operation_id status body) s a s' (now, d) =
      ends_claim k s s' (λ other. Did-elsewhere a _ s _ s' (write_elsewhere k _ s other) d)
  Performs-Balances (delete_claim k operation_id) s a s' d =
      ends_claim k s s' (λ other. Did-elsewhere a _ s _ s' (delete_elsewhere k _ s other) d)
  Performs-Balances (perform k) s a s' e = ground (arith, perform-open_claims k s s' e)

  pub needs_owned : (c : Call) → one_if (needs key c) ≡ owned_by (needed_key c)
  unfolding needs owned_by one_if
  needs_owned (insert_claim k operation_id) = refl
  needs_owned (select_claim k) = refl
  needs_owned (update_claim k operation_id status body) = refl
  needs_owned (delete_claim k operation_id) = refl
  needs_owned (perform k) = refl

  pub owes_bound :
      {A : Type 0} (owned : Option Text) (m : Action A)
      → Follows Any owned m
      → owes key m ≤ owned_by owned
  unfolding owes
  owes_bound owned (pure a) h = ground arith
  owes_bound owned (raise e) h = ground arith
  owes_bound owned (call c k) h = ground (arith, needs_owned c, ap owned_by h.at.0)

  pub owners_middle :
      {A : Type 0} (before after : List (Action A)) (m : Action A)
      → owners key (before ++ m ∷ after) ≡ owes key m + owners key (before ++ after)
  unfolding owners
  owners_middle [] after m = refl
  owners_middle (b ∷ before) after m = ground (arith, owners_middle before after m)
