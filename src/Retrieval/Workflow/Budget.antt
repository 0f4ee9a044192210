-- ===== src/Retrieval/Workflow/Budget.antt =====
-- The context that the assembly builds within its budget.
use Prim.Native.Nat.{min}
use ai_system_engineering_cu.Base.{
  ℕ, zero, suc, ◌≡◌, refl, ap, ◌∙◌, ◌≤◌, ◌+◌, ◌-◌, true, false, some, List, [], ◌∷◌, ◌++◌, map,
  Text, literal, length, take, leb, le→leb, join, split, IsWord, split-IsWord, split-join, All-take,
  arith,
}
use ai_system_engineering_cu.Domain.Validation.{has_length}
use ai_system_engineering_cu.Domain.Search.{Candidate}
use ai_system_engineering_cu.Retrieval.Workflow.{
  AssembledContext, Assembly, block, citation, include, assemble_from, nothing_assembled,
  context_of, assemble_inline,
}

-- The candidates that fit in what remains of a budget, each with the words that it keeps.
unfoldable pub fitted : ℕ → List Candidate → List (Candidate × List Text)
fitted remaining [] = []
fitted zero (candidate ∷ selected) = []
fitted (suc m) (candidate ∷ selected) =
    (candidate, take (suc m) (split candidate.text))
    ∷ fitted (suc m - length (split candidate.text)) selected

-- The words of all candidates together.
unfoldable pub word_count : List Candidate → ℕ
word_count [] = 0
word_count (candidate ∷ selected) = length (split candidate.text) + word_count selected

abbrev pub block_of : Candidate × List Text → Text
block_of (candidate, words) = block candidate.chunk_id (join (literal " ") words)

abbrev pub citation_of : Candidate × List Text → Text
citation_of (candidate, words) = citation candidate

length-take-min : {A : Type 0} (n : ℕ) (xs : List A) → length (take n xs) ≡ min n (length xs)
length-take-min zero xs = omega arith
length-take-min (suc n) [] = omega arith
length-take-min (suc n) (x ∷ xs) = omega (arith, length-take-min n xs)

-- What a trimmed text counts.
trimmed_count :
    (n : ℕ) (s : Text)
    → length (split (join (literal " ") (take n (split s)))) ≡ min n (length (split s))
trimmed_count n s =
    ap length (split-join (take n (split s)) (All-take IsWord n (split s) (split-IsWord s)))
    ∙ length-take-min n (split s)

append_one : {A : Type 0} (xs : List A) (x : A) (ys : List A) → (xs ++ x ∷ []) ++ ys ≡ xs ++ x ∷ ys
append_one [] x ys = refl
append_one (y ∷ xs) x ys = ap (λ zs. y ∷ zs) (append_one xs x ys)

append-nil : {A : Type 0} (xs : List A) → xs ≡ xs ++ []
append-nil [] = refl
append-nil (x ∷ xs) = ap (λ ys. x ∷ ys) (append-nil xs)

-- What the loop adds to an assembly when `remaining` tokens of the budget are left.
abbrev Adds : ℕ → Assembly → List Candidate → Assembly → Type 0
Adds remaining before selected after =
    (after.blocks ≡ before.blocks ++ map block_of (fitted remaining selected))
    × (after.citations ≡ before.citations ++ map citation_of (fitted remaining selected))
    × (after.used ≡ before.used + min remaining (word_count selected))

assemble_from-Adds :
    (budget remaining : ℕ) (a : Assembly) (selected : List Candidate)
    → a.used + remaining ≡ budget
    → Adds remaining a selected (assemble_from budget a selected)
unfolding assemble_from fitted word_count
assemble_from-Adds budget remaining a [] h =
    (append-nil a.blocks, append-nil a.citations, omega arith)
assemble_from-Adds budget zero a (c ∷ selected) h =
    rw (le→leb budget a.used (omega (arith, h)), assemble_from)
      (append-nil a.blocks, append-nil a.citations, omega arith)
assemble_from-Adds budget (suc m) a (c ∷ selected) h =
    let counted = trimmed_count (suc m) c.text in
    let (blocks, citations, used) =
      assemble_from-Adds budget (suc m - length (split c.text))
        (include c (join (literal " ") (take (suc m) (split c.text))) a) selected
        (omega (arith, h, counted)) in
    rw (spent budget m a.used h, assemble_from, rest budget m a.used h)
      (blocks ∙ append_one _ _ _, citations ∙ append_one _ _ _, used ∙ omega (arith, counted))
  where
    spent : (budget m used : ℕ) → used + suc m ≡ budget → leb budget used ≡ false
    spent budget m used h = ground arith

    rest : (budget m used : ℕ) → used + suc m ≡ budget → budget - used ≡ suc m
    rest budget m used h = omega arith

-- With a valid query identifier and a budget of at least 1, the assembly returns a context: its
-- blocks and citations are those of the candidates that fit, each cut to what remained of the
-- budget, and it uses the smaller one of the budget and the number of words of all candidates.
pub assemble_inline-Fits :
    (budget : ℕ) (query_id : Text) (selected : List Candidate)
    → has_length 120 query_id ≡ true
    → 1 ≤ budget
    → (context : AssembledContext) × (assemble_inline budget query_id selected ≡ some context)
      × (context.prompt_context ≡ join (literal "\n\n") (map block_of (fitted budget selected)))
      × (context.citations ≡ map citation_of (fitted budget selected))
      × (context.used_tokens ≡ min budget (word_count selected))
unfolding assemble_inline context_of
assemble_inline-Fits budget query_id selected named enough =
    let (blocks, citations, used) =
      assemble_from-Adds budget budget nothing_assembled selected (omega arith) in
    (
      context_of query_id budget (assemble_from budget nothing_assembled selected),
      rw
          (
            named,
            le→leb 1 budget enough,
            le→leb (assemble_from budget nothing_assembled selected).used budget
                (omega (arith, used)),
          )
          refl,
      ap (join (literal "\n\n")) blocks,
      citations,
      used ∙ omega arith,
    )
