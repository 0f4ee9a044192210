-- ===== src/Exceptions/Lifecycle/Published.antt =====
-- The stream under permitted calls: every job in it has a record that has left RECEIVED.
use ai_system_engineering_cu.Base.{
  All, All-map, All-append, ◌≡◌, refl, sym, ap, subst, ◌⊎◌, inl, inr, Option, none, some, [], ◌∷◌,
  ◌++◌, Text, lookup, text_eq,
}
use ai_system_engineering_cu.Effects.{reply, fault}
use ai_system_engineering_cu.Domain.Contracts.{ExceptionRecord, received}
use ai_system_engineering_cu.Exceptions.Calls.{
  Call, Answer, Shared, Performs, write_row, select_exception, insert_exception, update_exception,
  clock, xadd, xack, xautoclaim, xpending_range, xreadgroup, xlen, xpending, sleep, summarize,
}
use ai_system_engineering_cu.Exceptions.Permitted.{IsPermitted}
use ai_system_engineering_cu.Exceptions.Accept.Publication.{IsScheduled, MayPublish}
use ai_system_engineering_cu.Exceptions.Lifecycle.Rows.{Extends, Keeps, TableStep-Extends}
use ai_system_engineering_cu.Exceptions.Lifecycle.Writes.{Performs-TableStep}

-- Every job of the stream has a record that has left RECEIVED.
abbrev pub AllScheduled : Shared → Type 0
AllScheduled s = All (λ job. IsScheduled job.exception_id s) s.published

-- A scheduled record stays scheduled.
IsScheduled-Extends : (id : Text) (s t : Shared) → Extends s t → IsScheduled id s → IsScheduled id t
IsScheduled-Extends id s t x (r, found, moved) =
    later (lookup id t.exceptions) refl (x.row id r found)
  where
    later :
        (late : Option ExceptionRecord)
        → lookup id t.exceptions ≡ late
        → Keeps r late
        → IsScheduled id t
    later none e k = absurd k
    later (some r') e k =
        (r', e, λ back. moved (subst (λ (y : ExceptionRecord). y.state ≡ received) (k.4 back) back))

-- What a call adds to the stream.
abbrev Adds : Call → Shared → Shared → Type 0
Adds (xadd job) s s' = (s'.published ≡ s.published) ⊎ (s'.published ≡ s.published ++ job ∷ [])
Adds _ s s' = s'.published ≡ s.published

unchanged : {s s' : Shared} → s' ≡ s → s'.published ≡ s.published
unchanged h = ap (λ (t : Shared). t.published) h

written :
    (id : Text) (row : Option ExceptionRecord) (s s' : Shared)
    → s' ≡ write_row id row s
    → s'.published ≡ s.published
unfolding write_row
written id none s s' h = ap (λ (t : Shared). t.published) h
written id (some r) s s' h = ap (λ (t : Shared). t.published) h

Performs-Adds :
    (c : Call) (s : Shared) (a : Answer c) (s' : Shared) → Performs c s a s' → Adds c s s'
Performs-Adds (select_exception id) s (reply row) s' h = unchanged h.1
Performs-Adds (select_exception id) s fault s' (inl h) = unchanged h
Performs-Adds (select_exception id) s fault s' (inr h) = unchanged h
Performs-Adds (insert_exception r) s (reply row) s' h = written _ _ s s' h.1
Performs-Adds (insert_exception r) s fault s' (inl h) = unchanged h
Performs-Adds (insert_exception r) s fault s' (inr h) = written _ _ s s' h
Performs-Adds (update_exception id e t su fa) s (reply row) s' (now, h) = written _ _ s s' h.1
Performs-Adds (update_exception id e t su fa) s fault s' (now, inl h) = unchanged h
Performs-Adds (update_exception id e t su fa) s fault s' (now, inr h) = written _ _ s s' h
Performs-Adds (xadd job) s (reply id) s' h = inr (ap (λ (t : Shared). t.published) h)
Performs-Adds (xadd job) s fault s' (inl h) = inl (unchanged h)
Performs-Adds (xadd job) s fault s' (inr h) = inr (ap (λ (t : Shared). t.published) h)
Performs-Adds (xack id) s (reply u) s' h = ap (λ (t : Shared). t.published) h
Performs-Adds (xack id) s fault s' (inl h) = unchanged h
Performs-Adds (xack id) s fault s' (inr h) = ap (λ (t : Shared). t.published) h
Performs-Adds clock s a s' h = unchanged h
Performs-Adds (xautoclaim n) s a s' h = unchanged h
Performs-Adds (xpending_range id) s a s' h = unchanged h
Performs-Adds (xreadgroup n) s a s' h = unchanged h
Performs-Adds xlen s a s' h = unchanged h
Performs-Adds xpending s a s' h = unchanged h
Performs-Adds sleep s a s' h = unchanged h
Performs-Adds (summarize r) s a s' h = unchanged h

IsScheduled-later :
    (s s' : Shared)
    → Extends s s'
    → AllScheduled s
    → All (λ job. IsScheduled job.exception_id s') s.published
IsScheduled-later s s' x h =
    All-map _ _ s.published (λ job. IsScheduled-Extends job.exception_id s s' x) h

same_stream :
    (s s' : Shared) → Extends s s' → s'.published ≡ s.published → AllScheduled s → AllScheduled s'
same_stream s s' x e h =
    subst (All (λ job. IsScheduled job.exception_id s')) (sym e) (IsScheduled-later s s' x h)

-- A permitted call that publishes scheduled records only keeps the stream so.
pub Performs-AllScheduled :
    (c : Call) (s : Shared) (a : Answer c) (s' : Shared)
    → IsPermitted c
    → MayPublish c s
    → Performs c s a s'
    → AllScheduled s
    → AllScheduled s'
Performs-AllScheduled c s a s' p g d h =
    go c g (Performs-Adds c s a s' d) (TableStep-Extends s s' (Performs-TableStep c s a s' p d))
  where
    go : (c' : Call) → MayPublish c' s → Adds c' s s' → Extends s s' → AllScheduled s'
    go (xadd job) g' (inl e) x = same_stream s s' x e h
    go (xadd job) g' (inr e) x = subst (All (λ j. IsScheduled j.exception_id s')) (sym e) (
        All-append _ s.published _ (IsScheduled-later s s' x h)
          (IsScheduled-Extends job.exception_id s s' x g', tt))
    go _ g' e x = same_stream s s' x e h
