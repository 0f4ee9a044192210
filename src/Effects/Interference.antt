-- ===== src/Effects/Interference.antt =====
-- A program among others: between two of its calls the others may change the shared state as
-- `Rely` allows. `Ensures Q m s`: started in `s`, every call of `m` is made in a state that
-- satisfies `Guard`, and when `m` returns `a` in the state `t`, `Q a t` holds.
use ai_system_engineering_cu.Base.{Bool, true, false, if◌then◌else◌}
use ai_system_engineering_cu.Effects.Tree.{
  Program, pure, raise, call, Outcome, returned, raised, ◌>>=◌, attempt,
}
use ai_system_engineering_cu.Effects.Guarantee.{Calls, Makes}

module _ {C : Type 0} {Answer : C → Type 0} {E S : Type 0}
    (Performs : (c : C) → S → Answer c → S → Type 0) (Rely : S → S → Type 0)
    (Guard : C → S → Type 0) where
  abbrev pub Holds : {A : Type 0} → (A → S → Type 0) → Program C Answer E A → S → Type 0
  Holds Q (pure a) s = Q a s
  Holds Q (raise e) s = Unit
  Holds Q (call c k) s =
      (t : S)
      → Rely s t
      → Guard c t × ((a : Answer c) (t' : S) → Performs c t a t' → Holds Q (k a) t')

  pub record Ensures {A : Type 0} (Q : A → S → Type 0) (m : Program C Answer E A) (s : S)
      : Type 0 where
    pub at : Holds Q m s

  -- After `attempt`, what was to hold of the value holds of a value that was returned.
  abbrev pub OfReturned : {A : Type 0} → (A → S → Type 0) → Outcome E A → S → Type 0
  OfReturned Q (returned a) s = Q a s
  OfReturned Q (raised e) s = Unit

  Holds-attempt :
      {A : Type 0} (Q : A → S → Type 0) (m : Program C Answer E A) (s : S)
      → Holds Q m s
      → Holds (OfReturned Q) (attempt m) s
  Holds-attempt Q (pure a) s h = h
  Holds-attempt Q (raise e) s h = tt
  Holds-attempt Q (call c k) s h =
      λ t r. ((h t r).0, λ a t' p. Holds-attempt Q (k a) t' ((h t r).1 a t' p))

  Holds-bind :
      {A B : Type 0} (P : A → S → Type 0) (Q : B → S → Type 0) (m : Program C Answer E A)
      (f : A → Program C Answer E B) (s : S)
      → Holds P m s
      → ((a : A) (t : S) → P a t → Ensures Q (f a) t)
      → Holds Q (m >>= f) s
  Holds-bind P Q (pure a) f s h hf = (hf a s h).at
  Holds-bind P Q (raise e) f s h hf = tt
  Holds-bind P Q (call c k) f s h hf =
      λ t r. ((h t r).0, λ a t' p. Holds-bind P Q (k a) f t' ((h t r).1 a t' p) hf)

  Holds-weaken :
      {A : Type 0} (P Q : A → S → Type 0) (m : Program C Answer E A) (s : S)
      → ((a : A) (t : S) → P a t → Q a t)
      → Holds P m s
      → Holds Q m s
  Holds-weaken P Q (pure a) s f h = f a s h
  Holds-weaken P Q (raise e) s f h = tt
  Holds-weaken P Q (call c k) s f h =
      λ t r. ((h t r).0, λ a t' p. Holds-weaken P Q (k a) t' f ((h t r).1 a t' p))

  module _ {A : Type 0} (Q : A → S → Type 0) where
    pub Ensures-pure : (a : A) (s : S) → Q a s → Ensures Q (pure a) s
    Ensures-pure a s h = record { at = h }

    pub Ensures-raise : (e : E) (s : S) → Ensures Q (raise e) s
    Ensures-raise e s = record { at = tt }

    pub Ensures-call :
        (c : C) (k : Answer c → Program C Answer E A) (s : S)
        → ((t : S) → Rely s t → Guard c t)
        → ((t : S) → Rely s t → (a : Answer c) (t' : S) → Performs c t a t' → Ensures Q (k a) t')
        → Ensures Q (call c k) s
    Ensures-call c k s g h = record { at = λ t r. (g t r, λ a t' p. (h t r a t' p).at) }

    pub Ensures-if :
        (b : Bool) (p q : Program C Answer E A) (s : S)
        → Ensures Q p s
        → Ensures Q q s
        → Ensures Q (if b then p else q) s
    Ensures-if true p q s hp hq = hp
    Ensures-if false p q s hp hq = hq

    pub Ensures-attempt :
        (m : Program C Answer E A) (s : S) → Ensures Q m s → Ensures (OfReturned Q) (attempt m) s
    Ensures-attempt m s h = record { at = Holds-attempt Q m s h.at }

    pub Ensures-weaken :
        (P : A → S → Type 0) (m : Program C Answer E A) (s : S)
        → ((a : A) (t : S) → P a t → Q a t)
        → Ensures P m s
        → Ensures Q m s
    Ensures-weaken P m s f h = record { at = Holds-weaken P Q m s f h.at }

    pub Ensures-bind :
        {B : Type 0} (P : B → S → Type 0) (m : Program C Answer E B) (f : B → Program C Answer E A)
        (s : S)
        → Ensures P m s
        → ((a : B) (t : S) → P a t → Ensures Q (f a) t)
        → Ensures Q (m >>= f) s
    Ensures-bind P m f s h hf = record { at = Holds-bind P Q m f s h.at hf }

    -- A program that may run in `s` may run in what the others make of `s`.
    module _ (trans : (s t u : S) → Rely s t → Rely t u → Rely s u)
        (stable : (a : A) (s t : S) → Rely s t → Q a s → Q a t) where
      Holds-stable : (m : Program C Answer E A) (s t : S) → Rely s t → Holds Q m s → Holds Q m t
      Holds-stable (pure a) s t r h = stable a s t r h
      Holds-stable (raise e) s t r h = tt
      Holds-stable (call c k) s t r h = λ u r'. h u (trans s t u r r')

      pub Ensures-stable :
          (m : Program C Answer E A) (s t : S) → Rely s t → Ensures Q m s → Ensures Q m t
      Ensures-stable m s t r h = record { at = Holds-stable m s t r h.at }

  Holds-free :
      {A : Type 0} (m : Program C Answer E A) (s : S)
      → Calls (λ c. (t : S) → Guard c t) m
      → Holds (λ _ _. Unit {0}) m s
  Holds-free (pure a) s h = tt
  Holds-free (raise e) s h = tt
  Holds-free (call c k) s h = λ t r. (h.0 t, λ a t' p. Holds-free (k a) t' (h.1 a))

  -- A program whose calls need no guard is guarded.
  pub Ensures-free :
      {A : Type 0} (m : Program C Answer E A) (s : S)
      → Makes (λ c. (t : S) → Guard c t) m
      → Ensures (λ _ _. Unit {0}) m s
  Ensures-free m s h = record { at = Holds-free m s h.at }

-- What holds whatever the others do also holds among others that keep `I`, together with `I`.
module _ {C : Type 0} {Answer : C → Type 0} {E S : Type 0}
    (Performs : (c : C) → S → Answer c → S → Type 0) (Rely : S → S → Type 0) (G : C → Type 0)
    (I : S → Type 0) (others : (s t : S) → Rely s t → I s → I t)
    (own : (c : C) (s : S) (a : Answer c) (t : S) → Performs c s a t → I s → I t) where
  Holds-strengthen :
      {A : Type 0} (Q : A → S → Type 0) (m : Program C Answer E A) (s : S)
      → Holds Performs (λ _ _. Unit {0}) (λ _ _. Unit {0}) Q m s
      → Calls G m
      → I s
      → Holds Performs Rely (λ c _. G c) (λ a t. Q a t × I t) m s
  Holds-strengthen Q (pure a) s h g i = (h, i)
  Holds-strengthen Q (raise e) s h g i = tt
  Holds-strengthen Q (call c k) s h g i = λ t r. (
    g.0,
    λ a t' p.
        Holds-strengthen Q (k a) t' ((h t tt).1 a t' p) (g.1 a) (own c t a t' p (others s t r i)),
  )

  pub Ensures-strengthen :
      {A : Type 0} (Q : A → S → Type 0) (m : Program C Answer E A) (s : S)
      → Ensures Performs (λ _ _. Unit {0}) (λ _ _. Unit {0}) Q m s
      → Makes G m
      → I s
      → Ensures Performs Rely (λ c _. G c) (λ a t. Q a t × I t) m s
  Ensures-strengthen Q m s h g i = record { at = Holds-strengthen Q m s h.at g.at i }
