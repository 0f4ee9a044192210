-- ===== src/Routes/Retrieval/Errors.antt =====
-- The errors that leave the route of experiments.
use ai_system_engineering_cu.Base.{
  ℕ, ◌≡◌, ◌⊎◌, refl, subst, some_eq, inl, inr, Bool, true, false, not, Option, none, some, Text,
  Double, if◌then◌else◌,
}
use ai_system_engineering_cu.Effects.{Outcome, returned, raised, or_raise, ◌>>=◌}
use ai_system_engineering_cu.Effects.Failure.{
  FailsAs, FailsAs-pure, FailsAs-raise, FailsAs-if, OfRaised, FailsAs-try, FailsAs-weaken,
}
use ai_system_engineering_cu.Domain.Access.{AuthorizationContext}
use ai_system_engineering_cu.Domain.Search.{RetrievalRequest, retrieval_request, RetrievalResult}
use ai_system_engineering_cu.Domain.Embedding.{embed, format_vector}
use ai_system_engineering_cu.Retrieval.Calls.{
  Call, Answer, Action, Error, retrieval_unavailable, validation_error, interface_error,
}
use ai_system_engineering_cu.Domain.Access.{Provider}
use ai_system_engineering_cu.Retrieval.Search.{search_hybrid}
use ai_system_engineering_cu.Retrieval.Search.Errors.{IsValueError, MayLeave, search_hybrid-FailsAs}
use ai_system_engineering_cu.Routes.Http.{answered}
use ai_system_engineering_cu.Routes.Retrieval.{
  ExperimentRequest, is_experiment_request, unavailable_status, measure, measured,
  measure_retrieval, top_k_limit,
}

-- A ValueError, or an InterfaceError of the driver.
abbrev pub IsOther : Error → Type 0
IsOther e = IsValueError e ⊎ (e ≡ interface_error)

-- Those, or the error of the port.
abbrev LeavesMeasure : Error → Type 0
LeavesMeasure e = (e ≡ retrieval_unavailable) ⊎ IsOther e

-- The vector of a query, as the retriever binds it.
abbrev pub query_vector : (Text → Text) → (Text → ℕ → ℕ) → Text → Text
query_vector casefold blake2b text = format_vector (embed casefold blake2b text)

not_explained :
    (request : RetrievalRequest)
    → request.explain ≡ false
    → (e : Error) → MayLeave request e
    → LeavesMeasure e
not_explained request h e (inl k) = inl k
not_explained request h e (inr (inl k)) = inr (inr k)
not_explained request h e (inr (inr (inl k))) = inr (inl k)
not_explained request h e (inr (inr (inr (k, asked)))) = cc

answered-IsOther :
    (request : ExperimentRequest) (o : Outcome Error RetrievalResult)
    → OfRaised LeavesMeasure o
    → FailsAs {C = Call} {Answer = Answer} IsOther
        (answered unavailable_status (measured request) o)
unfolding unavailable_status
answered-IsOther request (returned result) h = FailsAs-pure _ _
answered-IsOther request (raised e) (inl h) = rw h (FailsAs-pure _ _)
answered-IsOther request (raised e) (inr (inl (inl h))) = rw h (FailsAs-raise _ _ (inl (inl refl)))
answered-IsOther request (raised e) (inr (inl (inr h))) = rw h (FailsAs-raise _ _ (inl (inr refl)))
answered-IsOther request (raised e) (inr (inr h)) = rw h (FailsAs-raise _ _ (inr refl))

module _ (casefold : Text → Text) (blake2b : Text → ℕ → ℕ) (provider : Provider) where
  -- The retriever with its candidate pool.
  abbrev pub retriever : RetrievalRequest → Action RetrievalResult
  retriever = search_hybrid (query_vector casefold blake2b) top_k_limit provider

  measured-LeavesMeasure :
      (o : Option RetrievalRequest)
      → ((request : RetrievalRequest) → o ≡ some request → request.explain ≡ false)
      → FailsAs LeavesMeasure (or_raise validation_error o >>= retriever)
  measured-LeavesMeasure none h = FailsAs-raise _ _ (inr (inl (inr refl)))
  measured-LeavesMeasure (some request) h =
      FailsAs-weaken (MayLeave request) LeavesMeasure (not_explained request (h request refl))
        (retriever request)
        (search_hybrid-FailsAs request (query_vector casefold blake2b) top_k_limit provider)

  unexplained :
      (b : Bool) (r request : RetrievalRequest)
      → r.explain ≡ false
      → (if b then some r else none) ≡ some request
      → request.explain ≡ false
  unexplained true r request h e = subst (λ q. q.explain ≡ false) (some_eq e) h
  unexplained false r request h e = cc

  measure-LeavesMeasure :
      (query_id text : Text) (authorization : AuthorizationContext) (top_k : ℕ)
      (fusion_weight : Double)
      → FailsAs LeavesMeasure (measure retriever query_id text authorization top_k fusion_weight)
  unfolding measure retrieval_request
  measure-LeavesMeasure query_id text authorization top_k fusion_weight =
      measured-LeavesMeasure
        (retrieval_request query_id text authorization top_k fusion_weight false)
        (λ request e. unexplained _ _ request refl e)

  -- Whatever the policy and the answers of the database are: only a ValueError leaves the route of
  -- experiments, or an InterfaceError of the driver, which no except clause on the way names.
  pub measure_retrieval-FailsAs :
      (request : ExperimentRequest) → FailsAs IsOther (measure_retrieval retriever request)
  unfolding measure_retrieval
  measure_retrieval-FailsAs request =
      FailsAs-if _ (not (is_experiment_request request)) _ _ (λ h. FailsAs-pure _ _)
        (λ h.
          FailsAs-try LeavesMeasure IsOther (answered unavailable_status (measured request))
            (answered-IsOther request)
            (measure retriever request.query_id request.text request.authorization request.top_k
              request.fusion_weight)
            (measure-LeavesMeasure request.query_id request.text request.authorization request.top_k
              request.fusion_weight))
