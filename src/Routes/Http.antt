-- ===== src/Routes/Http.antt =====
-- What a handler gives: a body with a status, or an HTTPException with one. An error that a handler
-- does not catch leaves it, and the server answers 500.
use ai_system_engineering_cu.Base.{ℕ, Option, none, some}
use ai_system_engineering_cu.Effects.{Program, pure, raise, Outcome, returned, raised}

pub data Response (A : Type 0) : Type 0 where
  responded : ℕ → A → Response A
  refused : ℕ → Response A

abbrev refused_or_raise :
    {C : Type 0} {Answer : C → Type 0} {E B : Type 0}
    → E
    → Option ℕ
    → Program C Answer E (Response B)
refused_or_raise e none = raise e
refused_or_raise e (some status) = pure (refused status)

-- The `except` clauses, as the status for each error that they name, and what follows the `try`.
abbrev pub answered :
    {C : Type 0} {Answer : C → Type 0} {E A B : Type 0}
    → (E → Option ℕ)
    → (A → Response B)
    → Outcome E A
    → Program C Answer E (Response B)
answered status_of body (returned a) = pure (body a)
answered status_of body (raised e) = refused_or_raise e (status_of e)
