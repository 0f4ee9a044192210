-- ===== src/Effects/Tree.antt =====
-- The tree of calls, `await` in sequence, and `try`.
use ai_system_engineering_cu.Base.{◌≡◌, ◌⊎◌, Option, none, some}

pub data Program (C : Type 0) (Answer : C → Type 0) (E A : Type 0) : Type 0 where
  pure : A → Program C Answer E A
  raise : E → Program C Answer E A
  call : (c : C) → (Answer c → Program C Answer E A) → Program C Answer E A

-- What a collaborator outside the repository replies: a value, or a fault of its driver.
pub data Reply (A : Type 0) : Type 0 where
  reply : A → Reply A
  fault : Reply A

-- How a `try` block ended.
pub data Outcome (E A : Type 0) : Type 0 where
  returned : A → Outcome E A
  raised : E → Outcome E A

-- A reply says what the statement did; after a fault it may or may not have been done.
abbrev pub Did : {S A : Type 0} → Reply A → A → S → S → S → Type 0
Did (reply a) result before done after = (a ≡ result) × (after ≡ done)
Did fault result before done after = (after ≡ before) ⊎ (after ≡ done)

module _ {C : Type 0} {Answer : C → Type 0} {E : Type 0} where
  infixl 5 ◌>>=◌ ◌>>◌
  abbrev pub ◌>>=◌ :
      {A B : Type 0} → Program C Answer E A → (A → Program C Answer E B) → Program C Answer E B
  pure a >>= f = f a
  raise e >>= f = raise e
  call c k >>= f = call c (λ a. k a >>= f)

  abbrev pub ◌>>◌ :
      {A B : Type 0} → Program C Answer E A → Program C Answer E B → Program C Answer E B
  m >> k = m >>= λ _. k

  abbrev pub attempt : {A : Type 0} → Program C Answer E A → Program C Answer E (Outcome E A)
  attempt (pure a) = pure (returned a)
  attempt (raise e) = pure (raised e)
  attempt (call c k) = call c (λ a. attempt (k a))

  -- A reply of a driver: its fault is raised as `e`.
  abbrev pub reply_or : {A : Type 0} → E → Reply A → Program C Answer E A
  reply_or e (reply a) = pure a
  reply_or e fault = raise e

  -- A value that must be there.
  abbrev pub or_raise : {A : Type 0} → E → Option A → Program C Answer E A
  or_raise e none = raise e
  or_raise e (some a) = pure a
