-- ===== src/Idempotency/Handler/Exclusion.antt =====
-- Requests with the same key exclude one another.
use ai_system_engineering_cu.Base.{
  ◌≤◌, ◌≡◌, ap, subst, arith, Option, none, List, [], Text, text_eq, All,
}
use ai_system_engineering_cu.Effects.{call}
use ai_system_engineering_cu.Effects.Pool.{
  Moves, Reaches, Reaches-IsFine, All-member, advance, start, here, next,
}
use ai_system_engineering_cu.Idempotency.Calls.{Action, Shared, Performs}
use ai_system_engineering_cu.Idempotency.Ownership.{
  owes, owners, Any, open_claims, left_key, Follows,
}
use ai_system_engineering_cu.Idempotency.Ownership.Balance.{
  owned_by, open_claims_bound, Balances, Performs-Balances, needs_owned, owes_bound, owners_middle,
}
use ai_system_engineering_cu.Idempotency.Handler.{Answered, run}
use ai_system_engineering_cu.Idempotency.Handler.Order.{run-Follows}

-- What runs beside one another: requests of any operations, with any headers.
pub data Requests (dump encode loads : Text → Text) (m : Action Answered) : Type 0 where
  request :
      (operation_id : Text) (header : Option Text)
      → m ≡ run dump encode loads operation_id header
      → Requests dump encode loads m

IsOrderly : Action Answered → Type 0
IsOrderly m = (owned : Option Text) × Follows Any owned m

module _ (dump encode loads : Text → Text) where
  Requests-Follows : (m : Action Answered) → Requests dump encode loads m → Follows Any none m
  Requests-Follows m (request operation_id header e) =
      rw e (run-Follows dump encode loads operation_id header)

  Moves-owners :
      (key : Text) (pool : List (Action Answered)) (s : Shared) (pool' : List (Action Answered))
      (s' : Shared)
      → Moves Performs (Requests dump encode loads) pool s pool' s'
      → All IsOrderly pool
      → owners key pool ≤ open_claims key s
      → owners key pool' ≤ open_claims key s'
  unfolding IsOrderly owners owned_by owes Balances
  Moves-owners key pool s pool' s' (advance before after c k a e performed e') fine h =
      let (owned, follows) =
        All-member IsOrderly before after (call c k) (subst (All IsOrderly) e fine) in
      ground (
        arith,
        owners_middle key before after (call c k),
        owners_middle key before after (k a),
        ap (owners key) e,
        ap (owners key) e',
        needs_owned key c,
        owes_bound key (left_key c a) (k a) (record { at = follows.at.1 a }),
        Performs-Balances key c s a s' performed,
        h,
      )
  Moves-owners key pool s pool' s' (start m began e same) fine h = ground (
    arith,
    ap (owners key) e,
    ap (open_claims key) same,
    owes_bound key none m (Requests-Follows m began),
    h,
  )

  Reaches-IsOrderly :
      (s : Shared) (pool : List (Action Answered)) (s' : Shared)
      → Reaches Performs (Requests dump encode loads) [] s pool s'
      → All IsOrderly pool
  unfolding IsOrderly
  Reaches-IsOrderly s pool s' reached =
      (Reaches-IsFine Performs (Requests dump encode loads) (λ m _. IsOrderly m) (λ _ _. Unit {0})
        (λ _. Unit {0}) (λ m t began. (none, Requests-Follows m began)) (λ m t t' r f. f)
        (λ c k t a t' f p i. ((left_key c a, record { at = f.1.at.1 a }), tt, tt)) [] s pool s'
        reached (tt, tt)).0

  owners_bound :
      (key : Text) (s : Shared) (pool : List (Action Answered)) (s' : Shared)
      → Reaches Performs (Requests dump encode loads) [] s pool s'
      → owners key pool ≤ open_claims key s'
  unfolding owners
  owners_bound key s _ _ here = ground arith
  owners_bound key s _ _ (next {pool = pool} {pool' = pool'} {s = t} {s' = t'} r m) =
      Moves-owners key pool t pool' t' m (Reaches-IsOrderly s pool t r)
        (owners_bound key s pool t r)

  -- In every state that any requests reach, in any interleaving and with any faults: the requests
  -- whose next call is the operation under a key, its completion or its release are no more than
  -- the rows in flight under the key, which are at most one.
  pub requests_exclude :
      (key : Text) (s : Shared) (pool : List (Action Answered)) (s' : Shared)
      → Reaches Performs (Requests dump encode loads) [] s pool s'
      → (owners key pool ≤ open_claims key s') × (open_claims key s' ≤ 1)
  requests_exclude key s pool s' reached =
      (owners_bound key s pool s' reached, open_claims_bound key s')
