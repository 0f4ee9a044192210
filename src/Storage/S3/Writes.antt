-- ===== src/Storage/S3/Writes.antt =====
-- What a write that returns has done.
use ai_system_engineering_cu.Base.{◌≡◌, Text, put, text_eq}
use ai_system_engineering_cu.Effects.{attempt, ◌>>=◌}
use ai_system_engineering_cu.Effects.Interference.{
  Ensures, Ensures-pure, Ensures-raise, Ensures-call,
}
use ai_system_engineering_cu.Storage.Calls.{
  Bytes, Provided, provided, client_error, boto_core_error, provided_or_raise, Shared, Performs,
  put_object,
}
use ai_system_engineering_cu.Storage.S3.{or_unavailable, write_object}

module _ (Rely : Shared → Shared → Type 0) (key : Text) (value : Bytes) where
  -- The object was put into a state that the others made of `s`.
  abbrev pub Wrote : Shared → Unit {0} → Shared → Type 0
  Wrote s done u = (t : Shared) × Rely s t × (u ≡ record t { objects = put key value t.objects })

  answered-Wrote :
      (a : Provided Unit) (s t u : Shared)
      → Rely s t
      → Performs (put_object key value) t a u
      → Ensures Performs Rely
          (λ _ _. Unit {0})
          (Wrote s)
          (attempt (provided_or_raise a) >>= or_unavailable)
          u
  unfolding or_unavailable
  answered-Wrote (provided done) s t u r d = Ensures-pure _ _ _ _ tt u (t, r, d)
  answered-Wrote (client_error code) s t u r d = Ensures-raise _ _ _ _ _ u
  answered-Wrote boto_core_error s t u r d = Ensures-raise _ _ _ _ _ u

  pub write_object-Wrote :
      (s : Shared) → Ensures Performs Rely (λ _ _. Unit {0}) (Wrote s) (write_object key value) s
  unfolding write_object
  write_object-Wrote s =
      Ensures-call _ _ _ _ _ _ s (λ _ _. tt) (λ t r a u d. answered-Wrote a s t u r d)
