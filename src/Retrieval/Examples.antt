-- ===== src/Retrieval/Examples.antt =====
-- The theorems about retrieval at concrete inputs, and tests of the definitions.
use ai_system_engineering_cu.Base.{
  ℕ, ◌≡◌, refl, ◌≤◌, false, Option, none, some, List, [], ◌∷◌, Text, literal, finite, pos, length,
  take, map, join, one, arith, ap, ◌/◌, ◌&&◌, ◌++◌, AreDistinct, leb_double, sort, put, text_beq,
  add_double, lookup, divide_double, one_minus, split, is_space,
}
use Prim.Native.Nat.{min}
use ai_system_engineering_cu.Effects.{Outcome, returned, raised}
use ai_system_engineering_cu.Domain.Access.{
  AccessTier, standard, restricted, tier_value, AuthorizationContext, AccessConstraint, readable,
}
use ai_system_engineering_cu.Domain.Access as Access
use ai_system_engineering_cu.Domain.Validation.{is_slug, has_length}
use ai_system_engineering_cu.Domain.Search.{RetrievalRequest, Candidate, is_weight}
use ai_system_engineering_cu.Retrieval.Policy.{
  tenant_boundary, role_classification, constrain, admits,
}
use ai_system_engineering_cu.Retrieval.Policy.Readable.{
  AdmitsAs, complement, constrain-admits, constrain-readable,
}
use ai_system_engineering_cu.Retrieval.Clause.{scalar, texts, matches, constraint_clause}
use ai_system_engineering_cu.Retrieval.Clause.Matching.{constraint_clause-matches}
use ai_system_engineering_cu.Retrieval.Calls.{Error, ChunkRow, Performs}
use ai_system_engineering_cu.Retrieval.Fusion.{fuse}
use ai_system_engineering_cu.Retrieval.Fusion.Ranking.{IsPlaced, IsRanking, fuse-IsRanking}
use ai_system_engineering_cu.Retrieval.Search.{search_hybrid, ids_of}
use ai_system_engineering_cu.Retrieval.Search.Readable.{IsScoped}
use ai_system_engineering_cu.Retrieval.Search.Scope.{search_hybrid-IsScoped}
use ai_system_engineering_cu.Retrieval.Search.Errors.{MayLeave, search_hybrid-FailsAs}
use ai_system_engineering_cu.Effects.Interference.{Ensures}
use ai_system_engineering_cu.Effects.Failure.{FailsAs}
use ai_system_engineering_cu.Retrieval.Workflow.{select, assemble_inline, AssembledContext}
use ai_system_engineering_cu.Retrieval.Workflow.Selection.{
  best_of_documents, select-best_of_documents,
}
use ai_system_engineering_cu.Retrieval.Workflow.Budget.{
  fitted, word_count, block_of, citation_of, assemble_inline-Fits,
}

abbrev caller : AuthorizationContext
caller = record { tenant_id = literal "t-a"; clearance = standard }

abbrev request : RetrievalRequest
request = record {
  query_id = literal "q-1";
  text = literal "cold chain";
  authorization = caller;
  top_k = 2;
  dense_weight = finite (pos one);
  explain = false;
}

abbrev row : ChunkRow
row = record {
  chunk_id = literal "d-1#0000";
  document_id = literal "d-1";
  chunk_text = literal "keep it cold";
  tenant_id = literal "t-a";
  access_tier = literal "standard";
  provenance_revision = literal "r1";
}

abbrev candidate_of : Text → Text → ℕ → Candidate
candidate_of chunk_id document_id rank = record {
  chunk_id = chunk_id;
  document_id = document_id;
  rank = rank;
  score = finite (pos one);
  text = literal "keep it cold";
  access = record { tenant_id = literal "t-a"; access_tier = standard };
  provenance_revision = literal "r1";
}

abbrev dense_arm : List Candidate
dense_arm =
    candidate_of (literal "a") (literal "d-1") 1 ∷ candidate_of (literal "b") (literal "d-1") 2 ∷ []

abbrev sparse_arm : List Candidate
sparse_arm =
    candidate_of (literal "b") (literal "d-1") 1 ∷ candidate_of (literal "c") (literal "d-2") 2 ∷ []

-- 0.5
abbrev half : ℕ
half = one / 2

abbrev ids_of_outcome : Outcome Error (List Candidate) → List Text
ids_of_outcome (returned results) = ids_of results
ids_of_outcome (raised e) = []

abbrev text_of_context : Option AssembledContext → Text
text_of_context none = []
text_of_context (some context) = context.prompt_context

-- The chunk that both arms returned comes first.
fused_ids :
    ids_of_outcome (fuse (finite (pos half)) 2 dense_arm sparse_arm)
    ≡ literal "b" ∷ literal "a" ∷ []
unfolding fuse is_weight leb_double sort put text_beq add_double lookup divide_double one_minus
fused_ids = refl

constrain-readable_example :
    AdmitsAs (constrain Access.tenant_boundary tenant_boundary caller) (readable caller)
unfolding is_slug
constrain-readable_example = constrain-readable caller refl

constrain-admits_example :
    AdmitsAs (constrain Access.unrestricted role_classification caller) (λ tenant tier.
      admits (record { tenant_ids = none; access_tiers = none }) tenant tier
      && complement role_classification caller tenant tier)
unfolding Access.unrestricted is_slug
constrain-admits_example =
    constrain-admits caller refl Access.unrestricted role_classification
      (record { tenant_ids = none; access_tiers = none }) refl refl

abbrev deny_all : AccessConstraint
deny_all = record { tenant_ids = some (literal "t-a" ∷ []); access_tiers = some [] }

constraint_clause-matches_example :
    matches
      (scalar [] ∷ map texts (constraint_clause deny_all 2).parameters)
      (literal "t-a")
      (literal "standard")
      (constraint_clause deny_all 2).conditions
    ≡ admits deny_all (literal "t-a") standard
constraint_clause-matches_example =
    constraint_clause-matches deny_all (scalar [] ∷ []) (literal "t-a") standard

fuse-IsRanking_example :
    (results : List Candidate) × (entries : List (Text × ℕ)) × (fuse
        (finite (pos half))
        2
        dense_arm
        sparse_arm
      ≡ returned results)
    × IsPlaced half dense_arm sparse_arm 1 entries results
    × IsRanking half dense_arm sparse_arm 2 entries
unfolding is_weight leb_double
fuse-IsRanking_example = fuse-IsRanking half dense_arm sparse_arm 2 refl (omega arith)

stored_tier : (r : ChunkRow) → r ≡ row → (tier : AccessTier) × (r.access_tier ≡ tier_value tier)
stored_tier r h = (standard, ap (λ x. x.access_tier) h)

search_hybrid-IsScoped_example :
    Ensures
      (Performs (λ r. r ≡ row))
      (λ _ _. Unit {0})
      (λ _ _. Unit {0})
      (λ result _. IsScoped (λ r. r ≡ row) caller result)
      (search_hybrid (λ t. t) 12 (constrain Access.tenant_boundary tenant_boundary) request)
      tt
unfolding is_slug
search_hybrid-IsScoped_example =
    search_hybrid-IsScoped (λ r. r ≡ row) stored_tier (λ t. t) 12 request refl

search_hybrid-FailsAs_example :
    FailsAs (MayLeave request) (search_hybrid (λ t. t) 12 Access.tenant_boundary request)
search_hybrid-FailsAs_example = search_hybrid-FailsAs request (λ t. t) 12 Access.tenant_boundary

select-best_of_documents_example :
    (select 2 (dense_arm ++ sparse_arm) ≡ take 2 (best_of_documents [] (dense_arm ++ sparse_arm)))
    × (length (select 2 (dense_arm ++ sparse_arm)) ≤ 2)
    × AreDistinct (map (λ c. c.document_id) (select 2 (dense_arm ++ sparse_arm)))
select-best_of_documents_example =
    select-best_of_documents 2 (dense_arm ++ sparse_arm) (omega arith)

assemble_inline-Fits_example :
    (context : AssembledContext) × (assemble_inline 4 (literal "q-1") dense_arm ≡ some context)
    × (context.prompt_context ≡ join (literal "\n\n") (map block_of (fitted 4 dense_arm)))
    × (context.citations ≡ map citation_of (fitted 4 dense_arm))
    × (context.used_tokens ≡ min 4 (word_count dense_arm))
unfolding has_length
assemble_inline-Fits_example = assemble_inline-Fits 4 (literal "q-1") dense_arm refl (omega arith)

-- The budget of four words cuts the second chunk.
cut_context :
    text_of_context (assemble_inline 4 (literal "q-1") dense_arm)
    ≡ literal "[a] keep it cold\n\n[b] keep"
unfolding assemble_inline has_length join split is_space
cut_context = refl
