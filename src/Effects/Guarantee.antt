-- ===== src/Effects/Guarantee.antt =====
-- What every run of a program does, whatever answers it gets.
use ai_system_engineering_cu.Base.{Bool, true, false, Option, none, some, if◌then◌else◌}
use ai_system_engineering_cu.Effects.Tree.{
  Program, pure, raise, call, Reply, reply, fault, ◌>>=◌, attempt, reply_or, or_raise,
}

module _ {C : Type 0} {Answer : C → Type 0} {E : Type 0} where
  abbrev pub Calls : {A : Type 0} → (C → Type 0) → Program C Answer E A → Type 0
  Calls G (pure a) = Unit
  Calls G (raise e) = Unit
  Calls G (call c k) = G c × ((a : Answer c) → Calls G (k a))

  -- Every call that the program may make satisfies `G`.
  pub record Makes {A : Type 0} (G : C → Type 0) (m : Program C Answer E A) : Type 0 where
    pub at : Calls G m

module _ {C : Type 0} {Answer : C → Type 0} {E A : Type 0} (G : C → Type 0) where
  Calls-attempt : (m : Program C Answer E A) → Calls G m → Calls G (attempt m)
  Calls-attempt (pure a) h = tt
  Calls-attempt (raise e) h = tt
  Calls-attempt (call c k) h = (h.0, λ a. Calls-attempt (k a) (h.1 a))

module _ {C : Type 0} {Answer : C → Type 0} {E A B : Type 0} (G : C → Type 0) where
  Calls-bind :
      (m : Program C Answer E A) (f : A → Program C Answer E B)
      → Calls G m
      → ((a : A) → Makes G (f a))
      → Calls G (m >>= f)
  Calls-bind (pure a) f hm hf = (hf a).at
  Calls-bind (raise e) f hm hf = tt
  Calls-bind (call c k) f hm hf = (hm.0, λ a. Calls-bind (k a) f (hm.1 a) hf)

module _ {C : Type 0} {Answer : C → Type 0} {E A : Type 0} {G : C → Type 0} where
  pub Makes-pure : (a : A) → Makes {C = C} {Answer = Answer} {E = E} G (pure a)
  Makes-pure a = record { at = tt }

  pub Makes-raise : (e : E) → Makes {C = C} {Answer = Answer} {E = E} {A = A} G (raise e)
  Makes-raise e = record { at = tt }

  pub Makes-call :
      (c : C) (k : Answer c → Program C Answer E A)
      → G c
      → ((a : Answer c) → Makes G (k a))
      → Makes G (call c k)
  Makes-call c k g h = record { at = (g, λ a. (h a).at) }

  pub Makes-if :
      (b : Bool) (p q : Program C Answer E A) → Makes G p → Makes G q → Makes G (if b then p else q)
  Makes-if true p q hp hq = hp
  Makes-if false p q hp hq = hq

  pub Makes-reply : (e : E) (a : Reply A) → Makes {C = C} {Answer = Answer} G (reply_or e a)
  Makes-reply e (reply a) = record { at = tt }
  Makes-reply e fault = record { at = tt }

  pub Makes-or_raise : (e : E) (o : Option A) → Makes {C = C} {Answer = Answer} G (or_raise e o)
  Makes-or_raise e none = record { at = tt }
  Makes-or_raise e (some a) = record { at = tt }

  pub Makes-attempt : (m : Program C Answer E A) → Makes G m → Makes G (attempt m)
  Makes-attempt m h = record { at = Calls-attempt G m h.at }

module _ {C : Type 0} {Answer : C → Type 0} {E A B : Type 0} {G : C → Type 0} where
  pub Makes-bind :
      (m : Program C Answer E A) (f : A → Program C Answer E B)
      → Makes G m
      → ((a : A) → Makes G (f a))
      → Makes G (m >>= f)
  Makes-bind m f hm hf = record { at = Calls-bind G m f hm.at hf }

module _ {C : Type 0} {Answer : C → Type 0} {E A : Type 0} (G H : C → Type 0)
    (f : (c : C) → G c → H c) where
  Calls-weaken : (m : Program C Answer E A) → Calls G m → Calls H m
  Calls-weaken (pure a) h = tt
  Calls-weaken (raise e) h = tt
  Calls-weaken (call c k) h = (f c h.0, λ a. Calls-weaken (k a) (h.1 a))

  pub Makes-weaken : (m : Program C Answer E A) → Makes G m → Makes H m
  Makes-weaken m h = record { at = Calls-weaken m h.at }

pub ruleset makes_rules = (
  Makes-pure, Makes-raise, Makes-call, Makes-if, Makes-reply, Makes-or_raise, Makes-attempt,
  Makes-bind,
)
