-- ===== src/Effects/Failure.antt =====
-- The errors that a program may end with, whatever answers it gets.
use ai_system_engineering_cu.Base.{◌≡◌, refl, Bool, true, false, Option, none, some, if◌then◌else◌}
use ai_system_engineering_cu.Effects.Tree.{
  Program, pure, raise, call, Outcome, returned, raised, ◌>>=◌, attempt, or_raise,
}

module _ {C : Type 0} {Answer : C → Type 0} {E : Type 0} (P : E → Type 0) where
  abbrev pub Raises : {A : Type 0} → Program C Answer E A → Type 0
  Raises (pure a) = Unit
  Raises (raise e) = P e
  Raises (call c k) = (a : Answer c) → Raises (k a)

  -- Every error that the program raises satisfies `P`.
  pub record FailsAs {A : Type 0} (m : Program C Answer E A) : Type 0 where
    pub at : Raises m

  module _ {A : Type 0} where
    pub FailsAs-pure : (a : A) → FailsAs (pure a)
    FailsAs-pure a = record { at = tt }

    pub FailsAs-raise : (e : E) → P e → FailsAs {A = A} (raise e)
    FailsAs-raise e h = record { at = h }

    pub FailsAs-call :
        (c : C) (k : Answer c → Program C Answer E A)
        → ((a : Answer c) → FailsAs (k a))
        → FailsAs (call c k)
    FailsAs-call c k h = record { at = λ a. (h a).at }

    pub FailsAs-if :
        (b : Bool) (p q : Program C Answer E A)
        → (b ≡ true → FailsAs p)
        → (b ≡ false → FailsAs q)
        → FailsAs (if b then p else q)
    FailsAs-if true p q hp hq = hp refl
    FailsAs-if false p q hp hq = hq refl

    pub FailsAs-or_raise : (e : E) (o : Option A) → P e → FailsAs (or_raise e o)
    FailsAs-or_raise e none h = record { at = h }
    FailsAs-or_raise e (some a) h = record { at = tt }

    Raises-attempt : (m : Program C Answer E A) → Raises (attempt m)
    Raises-attempt (pure a) = tt
    Raises-attempt (raise e) = tt
    Raises-attempt (call c k) = λ a. Raises-attempt (k a)

    -- A `try` lets no error through by itself.
    pub FailsAs-attempt : (m : Program C Answer E A) → FailsAs (attempt m)
    FailsAs-attempt m = record { at = Raises-attempt m }

    module _ {B : Type 0} where
      Raises-bind :
          (m : Program C Answer E B) (f : B → Program C Answer E A)
          → Raises m
          → ((b : B) → FailsAs (f b))
          → Raises (m >>= f)
      Raises-bind (pure b) f h hf = (hf b).at
      Raises-bind (raise e) f h hf = h
      Raises-bind (call c k) f h hf = λ a. Raises-bind (k a) f (h a) hf

      pub FailsAs-bind :
          (m : Program C Answer E B) (f : B → Program C Answer E A)
          → FailsAs m
          → ((b : B) → FailsAs (f b))
          → FailsAs (m >>= f)
      FailsAs-bind m f h hf = record { at = Raises-bind m f h.at hf }

-- The error that a `try` block ended with, if it did.
abbrev pub OfRaised : {E A : Type 0} → (E → Type 0) → Outcome E A → Type 0
OfRaised P (returned a) = Unit
OfRaised P (raised e) = P e

-- A handler meets only the errors of its `try` block.
module _ {C : Type 0} {Answer : C → Type 0} {E A B : Type 0} (P Q : E → Type 0)
    (f : Outcome E A → Program C Answer E B)
    (handled : (o : Outcome E A) → OfRaised P o → FailsAs Q (f o)) where
  Raises-try : (m : Program C Answer E A) → Raises P m → Raises Q (attempt m >>= f)
  Raises-try (pure a) h = (handled (returned a) tt).at
  Raises-try (raise e) h = (handled (raised e) h).at
  Raises-try (call c k) h = λ a. Raises-try (k a) (h a)

  pub FailsAs-try : (m : Program C Answer E A) → FailsAs P m → FailsAs Q (attempt m >>= f)
  FailsAs-try m h = record { at = Raises-try m h.at }

module _ {C : Type 0} {Answer : C → Type 0} {E A : Type 0} (P Q : E → Type 0)
    (f : (e : E) → P e → Q e) where
  Raises-weaken : (m : Program C Answer E A) → Raises P m → Raises Q m
  Raises-weaken (pure a) h = tt
  Raises-weaken (raise e) h = f e h
  Raises-weaken (call c k) h = λ a. Raises-weaken (k a) (h a)

  pub FailsAs-weaken : (m : Program C Answer E A) → FailsAs P m → FailsAs Q m
  FailsAs-weaken m h = record { at = Raises-weaken m h.at }
