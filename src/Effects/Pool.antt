-- ===== src/Effects/Pool.antt =====
-- Any number of programs in flight over one shared state: each step lets one of them make its
-- next call, or starts another one.
use ai_system_engineering_cu.Base.{◌≡◌, sym, subst, All, All-map, List, [], ◌∷◌, ◌++◌}
use ai_system_engineering_cu.Effects.Tree.{Program, call}

-- One member is replaced, and the others keep what they had.
pub All-middle :
    {A : Type 0} (P Q : A → Type 0) (before after : List A) (x y : A)
    → ((z : A) → P z → Q z)
    → Q y
    → All P (before ++ x ∷ after)
    → All Q (before ++ y ∷ after)
All-middle P Q [] after x y f q h = (q, All-map P Q after f h.1)
All-middle P Q (b ∷ before) after x y f q h = (f b h.0, All-middle P Q before after x y f q h.1)

pub All-member :
    {A : Type 0} (P : A → Type 0) (before after : List A) (x : A)
    → All P (before ++ x ∷ after)
    → P x
All-member P [] after x h = h.0
All-member P (b ∷ before) after x h = All-member P before after x h.1

module _ {C : Type 0} {Answer : C → Type 0} {E A S : Type 0}
    (Performs : (c : C) → S → Answer c → S → Type 0) (Starts : Program C Answer E A → Type 0) where
  -- One step of the pool: a program gets the answer to its next call, or a program starts.
  pub data Moves (pool : List (Program C Answer E A)) (s : S) (pool' : List (Program C Answer E A))
      (s' : S) : Type 0 where
    advance :
        (before after : List (Program C Answer E A)) (c : C) (k : Answer c → Program C Answer E A)
        (a : Answer c)
        → pool ≡ before ++ call c k ∷ after
        → Performs c s a s'
        → pool' ≡ before ++ k a ∷ after
        → Moves pool s pool' s'
    start :
        (p : Program C Answer E A) → Starts p → pool' ≡ p ∷ pool → s' ≡ s → Moves pool s pool' s'

  -- Any number of steps.
  pub data Reaches (pool₀ : List (Program C Answer E A)) (s₀ : S)
      : List (Program C Answer E A) → S → Type 0 where
    here : Reaches pool₀ s₀ pool₀ s₀
    next :
        {pool pool' : List (Program C Answer E A)} {s s' : S}
        → Reaches pool₀ s₀ pool s
        → Moves pool s pool' s'
        → Reaches pool₀ s₀ pool' s'

  -- `Fine m s`: the program `m` may run from `s` on. Its own calls keep it fine and change the
  -- state as `Rely` allows, and it stays fine while the others change the state so.
  module _ (Fine : Program C Answer E A → S → Type 0) (Rely : S → S → Type 0) (I : S → Type 0)
      (starts : (p : Program C Answer E A) (s : S) → Starts p → Fine p s)
      (stable : (m : Program C Answer E A) (s s' : S) → Rely s s' → Fine m s → Fine m s')
      (keeps : (c : C) (k : Answer c → Program C Answer E A) (s : S) (a : Answer c) (s' : S)
        → Fine (call c k) s
        → Performs c s a s'
        → I s
        → Fine (k a) s' × Rely s s' × I s') where
    abbrev pub IsFine : List (Program C Answer E A) → S → Type 0
    IsFine pool s = All (λ m. Fine m s) pool × I s

    Moves-IsFine :
        (pool : List (Program C Answer E A)) (s : S) (pool' : List (Program C Answer E A)) (s' : S)
        → Moves pool s pool' s'
        → IsFine pool s
        → IsFine pool' s'
    Moves-IsFine pool s pool' s' (advance before after c k a e performed e') h =
        let all : All (λ m. Fine m s) (before ++ call c k ∷ after) = rw e at h.0 in
        let own : Fine (call c k) s = All-member (λ m. Fine m s) before after (call c k) all in
        let kept = keeps c k s a s' own performed h.1 in
        (
          rw e' (
              All-middle (λ m. Fine m s) (λ m. Fine m s') before after (call c k) (k a)
                (λ m. stable m s s' kept.1) kept.0 all),
          kept.2,
        )
    Moves-IsFine pool s pool' s' (start p began e' same) h =
        rw e' (subst (IsFine (p ∷ pool)) (sym same) ((starts p s began, h.0), h.1))

    -- In every reachable state every program is fine, and the invariant holds.
    pub Reaches-IsFine :
        (pool₀ : List (Program C Answer E A)) (s₀ : S) (pool : List (Program C Answer E A)) (s : S)
        → Reaches pool₀ s₀ pool s
        → IsFine pool₀ s₀
        → IsFine pool s
    Reaches-IsFine pool₀ s₀ _ _ here h = h
    Reaches-IsFine pool₀ s₀ _ _ (next {pool} {pool'} {s} {s'} r m) h =
        Moves-IsFine pool s pool' s' m (Reaches-IsFine pool₀ s₀ pool s r h)
