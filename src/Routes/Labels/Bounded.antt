-- ===== src/Routes/Labels/Bounded.antt =====
-- The labels are bounded, whatever path a client asks for.
use ai_system_engineering_cu.Base.{
  refl, Bool-cases, inl, inr, Text, List, ◌∷◌, literal, In, elem, elem-In, text_eq, if◌then◌else◌,
}
use ai_system_engineering_cu.Routes.Labels.{
  known_routes, starts_with, ends_with, exception_route, document_route, chunks_route, route_label,
}

abbrev labels : List Text
labels = exception_route ∷ document_route ∷ chunks_route ∷ literal "unmatched" ∷ known_routes

route_label-other :
    (path : Text) → In (if elem path known_routes then path else literal "unmatched") labels
route_label-other path = elim (Bool-cases (elem path known_routes)) [
  | inl known ↦ rw known (inr (inr (inr (inr ((elem-In path known_routes).0 known)))))
  | inr unknown ↦ rw unknown (inr (inr (inr (inl refl))))
]

-- Whatever path a client asks for, its label in the metrics is one of fourteen.
route_label-In : (path : Text) → In (route_label path) labels
unfolding route_label
route_label-In path = elim (Bool-cases (starts_with (literal "/api/v1/exceptions/") path)) [
  | inl exception ↦ rw exception (inl refl)
  | inr other ↦ elim (Bool-cases (starts_with (literal "/api/v1/documents/") path)) [
    | inl document ↦ elim (Bool-cases (ends_with (literal "/chunks") path)) [
      | inl chunks ↦ rw (other, document, chunks) (inr (inr (inl refl)))
      | inr whole ↦ rw (other, document, whole) (inr (inl refl))
    ]
    | inr neither ↦ rw (other, neither) (route_label-other path)
  ]
]
