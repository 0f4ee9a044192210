-- ===== src/Storage/S3/Pages.antt =====
-- The listing ends when the pages do, and gives every key, in ascending order.
use ai_system_engineering_cu.Base.{
  ℕ, zero, suc, ◌≤◌, ◌≡◌, refl, sym, ap, ◌∙◌, arith, true, false, Option, none, some, List, [], ◌∷◌,
  ◌++◌, map, Text, length, concat, sort, text_leb,
}
use ai_system_engineering_cu.Effects.{pure, raise, call, Outcome, returned, raised, attempt, ◌>>=◌}
use ai_system_engineering_cu.Storage.Calls.{
  Action, Answer, Call, Error, Page, provided, list_objects,
}
use ai_system_engineering_cu.Storage.S3.{is_last, pages, list_keys, or_unavailable}

-- A program with a provider that answers each call in one way.
abbrev pub run_with : {A : Type 0} → ((c : Call) → Answer c) → Action A → Outcome Error A
run_with oracle (pure a) = returned a
run_with oracle (raise e) = raised e
run_with oracle (call c k) = run_with oracle (k (oracle c))

-- From a token on, the provider answers the requests of a prefix with these pages, and only the
-- last of them says that it is the last.
pub data Serves (oracle : (c : Call) → Answer c) (prefix : Text)
    : Option Text → List Page → Type 0 where
  last :
      {token : Option Text} (page : Page)
      → oracle (list_objects prefix token) ≡ provided page
      → is_last page ≡ true
      → Serves oracle prefix token (page ∷ [])
  more :
      {token : Option Text} {rest : List Page} (page : Page)
      → oracle (list_objects prefix token) ≡ provided page
      → is_last page ≡ false
      → Serves oracle prefix page.next_token rest
      → Serves oracle prefix token (page ∷ rest)

abbrev pub keys_of : List Page → List Text
keys_of served = concat (map (λ (page : Page). page.keys) served)

append_assoc : {A : Type 0} (xs ys zs : List A) → (xs ++ ys) ++ zs ≡ xs ++ (ys ++ zs)
append_assoc [] ys zs = refl
append_assoc (x ∷ xs) ys zs = ap (λ ws. x ∷ ws) (append_assoc xs ys zs)

append_nil : {A : Type 0} (xs : List A) → xs ++ [] ≡ xs
append_nil [] = refl
append_nil (x ∷ xs) = ap (λ ys. x ∷ ys) (append_nil xs)

module _ (oracle : (c : Call) → Answer c) (prefix : Text) where
  pages-Serves :
      (rounds : ℕ) (token : Option Text) (served : List Page) (keys : List Text)
      → Serves oracle prefix token served
      → length served ≤ rounds
      → run_with oracle (pages rounds prefix token keys) ≡ returned (some (keys ++ keys_of served))
  unfolding pages
  pages-Serves (suc rounds) token served keys (Serves.last page answered final) enough =
      rw (answered, run_with, final)
        (ap (λ ks. returned (some (keys ++ ks))) (sym (append_nil page.keys)))
  pages-Serves (suc rounds) token served keys (Serves.more {rest = rest} page answered goes_on s)
        enough =
      rw (answered, run_with, goes_on)
        (pages-Serves rounds page.next_token rest (keys ++ page.keys) s (omega arith)
          ∙ ap (λ ks. returned (some ks)) (append_assoc keys page.keys (keys_of rest)))
  pages-Serves zero token served keys (Serves.last page answered final) enough =
      absurd (omega arith)
  pages-Serves zero token served keys (Serves.more page answered goes_on s) enough =
      absurd (omega arith)

  run-attempt :
      {A : Type 0} (m : Action A) → run_with oracle (attempt m) ≡ returned (run_with oracle m)
  run-attempt (pure a) = refl
  run-attempt (raise e) = refl
  run-attempt (call c k) = run-attempt (k (oracle c))

  run-bind :
      {A B : Type 0} (m : Action A) (f : A → Action B) (a : A)
      → run_with oracle m ≡ returned a
      → run_with oracle (m >>= f) ≡ run_with oracle (f a)
  run-bind (pure b) f a h = cc
  run-bind (raise e) f a h = cc
  run-bind (call c k) f a h = run-bind (k (oracle c)) f a h

  -- When the provider serves the keys of a prefix in pages of which only the last says that it is
  -- the last, the loop ends after as many rounds, and the listing is the keys of all pages in
  -- ascending order.
  pub list_keys-Serves :
      (rounds : ℕ) (served : List Page)
      → Serves oracle prefix none served
      → length served ≤ rounds
      → run_with oracle (list_keys rounds prefix) ≡ returned (some (sort text_leb (keys_of served)))
  unfolding list_keys or_unavailable
  list_keys-Serves rounds served s enough =
      run-bind (attempt (pages rounds prefix none [])) _ (returned (some (keys_of served))) (
        run-attempt (pages rounds prefix none [])
        ∙ ap returned (pages-Serves rounds none served [] s enough))
