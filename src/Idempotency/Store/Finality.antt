-- ===== src/Idempotency/Store/Finality.antt =====
-- The row of a completed key never changes.
use ai_system_engineering_cu.Base.{
  ◌≡◌, ◌≢◌, refl, sym, ◌∙◌, subst, inl, inr, Bool, true, false, Bool-cases, Option, none, some,
  List, [], ◌∷◌, Text, lookup, lookup-put, lookup-remove, ◌==◌, text_eq, text_beq_iff, ◌&&◌, All,
}
use mathlib.Core.Bool.{false≢true}
use ai_system_engineering_cu.Effects.{Reply, reply, fault, Did}
use ai_system_engineering_cu.Effects.Pool.{Reaches, Reaches-IsFine}
use ai_system_engineering_cu.Idempotency.Calls.{
  Action, Answer, Shared, Performs, ClaimRow, Completion, Call, insert_claim, select_claim,
  update_claim, delete_claim, perform, is_open, inserted_claim, updated_claim, is_deleted,
  write_claim, delete_if,
}

none≢some : {r : ClaimRow} → some r ≢ none
none≢some h = cc

and_false : (b : Bool) → (b && false) ≡ false
and_false true = refl
and_false false = refl

module _ (key : Text) (row : ClaimRow) (completion : Completion)
    (whole : row.completion ≡ some completion) where
  abbrev pub Stands : Shared → Type 0
  Stands s = lookup key s.claims ≡ some row

  write-Stands :
      (k : Text) (o : Option ClaimRow) (s : Shared)
      → ((k == key) ≡ true → o ≡ none)
      → Stands s
      → Stands (write_claim k o s)
  unfolding write_claim
  write-Stands k none s f h = h
  write-Stands k (some r) s f h = lookup-put k key r s.claims ∙ elim (Bool-cases (k == key)) [
    | inl same ↦ absurd (none≢some (f same))
    | inr other ↦ rw other h
  ]

  delete-Stands :
      (k : Text) (b : Bool) (s : Shared)
      → ((k == key) ≡ true → b ≡ false)
      → Stands s
      → Stands (delete_if b k s)
  unfolding delete_if
  delete-Stands k false s f h = h
  delete-Stands k true s f h = lookup-remove k key s.claims ∙ elim (Bool-cases (k == key)) [
    | inl same ↦ absurd (false≢true (sym (f same)))
    | inr other ↦ rw other h
  ]

  closed : is_open row ≡ false
  unfolding is_open
  closed = rw whole refl

  at_key : (k : Text) (s : Shared) → Stands s → (k == key) ≡ true → lookup k s.claims ≡ some row
  at_key k s h same = rw ((text_beq_iff k key).0 same) h

  Did-keeps :
      {A : Type 0} (a : Reply A) (result : A) (before done after : Shared)
      → Did a result before done after
      → Stands before
      → Stands done
      → Stands after
  Did-keeps (reply x) result before done after d h h' = subst Stands (sym d.1) h'
  Did-keeps fault result before done after (inl e) h h' = subst Stands (sym e) h
  Did-keeps fault result before done after (inr e) h h' = subst Stands (sym e) h'

  -- No statement changes a completed row.
  pub Performs-Stands :
      (c : Call) (s : Shared) (a : Answer c) (s' : Shared)
      → Performs c s a s'
      → Stands s
      → Stands s'
  unfolding inserted_claim updated_claim is_deleted
  Performs-Stands (insert_claim k op) s a s' (now, d) h =
      Did-keeps a _ s _ s' d h (write-Stands k _ s (λ same. rw (at_key k s h same) refl) h)
  Performs-Stands (select_claim k) s a s' d h = Did-keeps a _ s _ s' d h h
  Performs-Stands (update_claim k op status body) s a s' (now, d) h = Did-keeps a _ s _ s' d h (
      write-Stands k _ s
        (λ same. rw (at_key k s h same, closed, and_false (row.operation_id == op)) refl) h)
  Performs-Stands (delete_claim k op) s a s' d h = Did-keeps a _ s _ s' d h (
      delete-Stands k _ s
        (λ same. rw (at_key k s h same, closed) (and_false (row.operation_id == op))) h)
  Performs-Stands (perform k) s a s' e h = subst Stands (sym e) h

  -- Any programs that use the statements of the store, in any interleaving and with any faults: a
  -- completed row is the same row in every later state.
  pub completed_is_final :
      (pool : List (Action Unit)) (s : Shared) (pool' : List (Action Unit)) (s' : Shared)
      → Reaches Performs (λ m. Unit {0}) pool s pool' s'
      → lookup key s.claims ≡ some row
      → lookup key s'.claims ≡ some row
  completed_is_final pool s pool' s' reached h =
      (Reaches-IsFine Performs (λ m. Unit {0}) (λ m t. Unit {0}) (λ t t'. Unit {0}) Stands
        (λ p t b. tt) (λ m t t' r f. tt)
        (λ c k t a t' f p i. (tt, tt, Performs-Stands c t a t' p i)) pool s pool' s' reached
        (all_fine pool, h)).1
    where
      all_fine : (ms : List (Action Unit)) → All (λ m. Unit {0}) ms
      all_fine [] = tt
      all_fine (m ∷ ms) = (tt, all_fine ms)
