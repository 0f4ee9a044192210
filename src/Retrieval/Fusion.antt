-- ===== src/Retrieval/Fusion.antt =====
-- src/domain/fusion.py: weighted reciprocal-rank fusion.
pub mod Scores
pub mod Ranking
use ai_system_engineering_cu.Base.{
  ℕ, suc, ◌+◌, Bool, true, false, not, ◌&&◌, ◌||◌, Option, none, some, List, [], ◌∷◌, Text, Table,
  lookup, put, ◌==◌, nat_eq, text_eq, ltb, leb, if◌then◌else◌, Double, nan, minus_infinity, finite,
  plus_infinity, pos, negsuc, take, sort, text_leb, add_double, one_minus, divide_double,
  round_to_12,
}
use ai_system_engineering_cu.Effects.{Outcome, returned, raised}
use ai_system_engineering_cu.Domain.Search.{Candidate, is_weight}
use ai_system_engineering_cu.Retrieval.Calls.{Error, value_error, key_error}

abbrev pub rank_constant : ℕ
rank_constant = 60

-- The dictionaries that the loop fills. A score is a non-negative double.
pub record Merged : Type 0 where
  pub scores : Table Text ℕ
  pub seen : Table Text Candidate

-- `dict.get(key, 0.0)`
abbrev pub or_zero : Option ℕ → ℕ
or_zero none = 0
or_zero (some score) = score

-- `dict.setdefault(key, candidate)`
unfoldable pub set_default :
    Candidate → Option Candidate → Table Text Candidate → Table Text Candidate
set_default candidate none seen = put candidate.chunk_id candidate seen
set_default candidate (some old) seen = seen

-- What one arm contributes for a rank.
unfoldable pub contribution : ℕ → ℕ → ℕ
contribution weight rank = divide_double weight (rank_constant + rank)

unfoldable pub add_candidate : ℕ → Merged → Candidate → Merged
unfolding set_default contribution
add_candidate weight merged candidate = record {
  scores =
      put candidate.chunk_id
        (add_double (or_zero (lookup candidate.chunk_id merged.scores))
          (contribution weight candidate.rank))
        merged.scores;
  seen = set_default candidate (lookup candidate.chunk_id merged.seen) merged.seen;
}

unfoldable pub add_arm : ℕ → Merged → List Candidate → Merged
unfolding add_candidate
add_arm weight merged [] = merged
add_arm weight merged (candidate ∷ arm) = add_arm weight (add_candidate weight merged candidate) arm

-- Both arms, the dense one first.
unfoldable pub merge : ℕ → List Candidate → List Candidate → Merged
unfolding add_arm
merge weight dense sparse =
    add_arm (one_minus weight) (add_arm weight (record { scores = []; seen = [] }) dense) sparse

-- The order of the key `(-score, chunk_id)`.
unfoldable pub ranks_before : Text × ℕ → Text × ℕ → Bool
ranks_before a b = ltb b.1 a.1 || b.1 == a.1 && text_leb a.0 b.0

-- The results from position `position` on; a key that is not in `seen` is a `KeyError`.
unfoldable pub place : ℕ → ℕ → Candidate → Candidate
place position score candidate = record candidate {
  rank = position;
  score = finite (pos (round_to_12 score));
}

cons_found :
    ℕ → ℕ → Option Candidate → Outcome Error (List Candidate) → Outcome Error (List Candidate)
unfolding place
cons_found position score none rest = raised key_error
cons_found position score (some candidate) (raised e) = raised e
cons_found position score (some candidate) (returned rest) =
    returned (place position score candidate ∷ rest)

placed : Table Text Candidate → ℕ → List (Text × ℕ) → Outcome Error (List Candidate)
unfolding cons_found
placed seen position [] = returned []
placed seen position ((chunk_id, score) ∷ entries) =
    cons_found position score (lookup chunk_id seen) (placed seen (suc position) entries)

unfoldable pub fuse_weighted :
    ℕ → ℕ → List Candidate → List Candidate → Outcome Error (List Candidate)
unfolding merge ranks_before placed
fuse_weighted weight limit dense sparse =
    placed (merge weight dense sparse).seen 1
      (take limit (sort ranks_before (merge weight dense sparse).scores))

-- A weight that is no number from 0.0 to 1.0 is a `ValueError`, and so is a limit of 0.
unfoldable pub fuse : Double → ℕ → List Candidate → List Candidate → Outcome Error (List Candidate)
unfolding fuse_weighted
fuse (finite (pos weight)) limit dense sparse =
    if is_weight (finite (pos weight)) && leb 1 limit
    then fuse_weighted weight limit dense sparse
    else raised value_error
fuse _ limit dense sparse = raised value_error
