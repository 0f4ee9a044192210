-- ===== src/Storage/Provision/Waiting.antt =====
-- The wait for a service that is still starting.
use ai_system_engineering_cu.Base.{
  ℕ, zero, suc, ◌<◌, ◌≤◌, ◌≡◌, refl, ap, ◌∙◌, arith, true, ◌+◌, ◌-◌, ltb, Bool-cases, inl, inr,
  if◌then◌else◌,
}
use ai_system_engineering_cu.Effects.{returned, raised, attempt}
use ai_system_engineering_cu.Storage.Calls.{object_store_unavailable, Shared}
use ai_system_engineering_cu.Storage.S3.{ensure_bucket}
use ai_system_engineering_cu.Storage.S3.Bucket.{
  Service, run_on, run_on-attempt, run_on-bind, ensure_bucket_unanswered, ensure_bucket_answered,
}
use ai_system_engineering_cu.Storage.Provision.{
  await_from, await_object_store, after_attempt, object_store_attempts, is_positive,
}

abbrev pub starting : ℕ → Shared → Service
starting n s = record { silent = n; shared = s }

await_answered :
    (left : ℕ) (s : Shared)
    → run_on (await_from (suc left)) (starting zero s)
      ≡ (returned tt, starting zero (record s { exists = true }))
unfolding await_from after_attempt
await_answered left s =
    run_on-bind (attempt ensure_bucket) (λ x. after_attempt (is_positive left) x (await_from left))
      (starting zero s) (starting zero (record s { exists = true })) (returned tt)
      (run_on-attempt ensure_bucket (starting zero s)
        ∙ ap (λ r. (returned r.0, r.1)) (ensure_bucket_answered s))

await_unanswered :
    (left n : ℕ) (s : Shared)
    → run_on (await_from (suc left)) (starting (suc n) s) ≡ run_on (await_from left) (starting n s)
unfolding await_from after_attempt
await_unanswered left n s =
    run_on-bind (attempt ensure_bucket) (λ x. after_attempt (is_positive left) x (await_from left))
      (starting (suc n) s) (starting n s) (raised object_store_unavailable)
      (run_on-attempt ensure_bucket (starting (suc n) s)
        ∙ ap (λ r. (returned r.0, r.1)) (ensure_bucket_unanswered n s))
    ∙ waits left n
  where
    waits :
        (l m : ℕ)
        → run_on
            (after_attempt (is_positive l) (raised object_store_unavailable) (await_from l))
            (starting m s)
          ≡ run_on (await_from l) (starting m s)
    waits zero m = refl
    waits (suc l) zero = refl
    waits (suc l) (suc m) = refl

await_from_in_time :
    (left n : ℕ) (s : Shared)
    → n < left
    → run_on (await_from left) (starting n s)
      ≡ (returned tt, starting zero (record s { exists = true }))
await_from_in_time zero n s h = absurd (omega arith)
await_from_in_time (suc left) zero s h = await_answered left s
await_from_in_time (suc left) (suc n) s h =
    await_unanswered left n s ∙ await_from_in_time left n s (omega arith)

await_from_late :
    (left n : ℕ) (s : Shared)
    → run_on (await_from left) (starting (left + n) s)
      ≡ (raised object_store_unavailable, starting n s)
unfolding await_from
await_from_late zero n s = ap (λ m. (raised object_store_unavailable, starting m s)) (omega arith)
await_from_late (suc left) n s =
    ap (λ m. run_on (await_from (suc left)) (starting m s)) {y = suc (left + n)} (omega arith)
    ∙ await_unanswered left (left + n) s
    ∙ await_from_late left n s

-- With a service that does not answer its next n calls: if n is less than the number of attempts,
-- the wait returns with the bucket in place, and if not, it ends with ObjectStoreUnavailable after
-- as many calls as there are attempts.
pub await_object_store_waits :
    (n : ℕ) (s : Shared)
    → run_on await_object_store (starting n s) ≡ (
        if ltb n object_store_attempts
        then (returned tt, starting zero (record s { exists = true }))
        else (raised object_store_unavailable, starting (n - object_store_attempts) s))
unfolding await_object_store
await_object_store_waits n s = elim (Bool-cases (ltb n object_store_attempts)) [
  | inl early ↦ rw early (await_from_in_time object_store_attempts n s (ground arith))
  | inr late ↦ rw late (
      ap (λ m. run_on (await_from object_store_attempts) (starting m s)) (m_plus n (ground arith))
      ∙ await_from_late object_store_attempts (n - object_store_attempts) s)
]
  where
    m_plus :
        (m : ℕ)
        → object_store_attempts ≤ m
        → m ≡ object_store_attempts + (m - object_store_attempts)
    m_plus m h = omega arith
