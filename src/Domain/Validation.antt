-- ===== src/Domain/Validation.antt =====
-- The field constraints of src/domain/contracts.py that more than one contract carries.
use ai_system_engineering_cu.Base.{
  ℕ, Bool, true, false, ◌&&◌, ◌||◌, [], ◌∷◌, Text, leb, length, nat_eq, ◌==◌,
}

-- `[a-z0-9]`
unfoldable pub is_slug_head : ℕ → Bool
is_slug_head c = leb b'a' c && leb c b'z' || leb b'0' c && leb c b'9'

-- `[a-z0-9-]*`
unfoldable pub is_slug_tail : Text → Bool
unfolding is_slug_head
is_slug_tail [] = true
is_slug_tail (c ∷ s) = (is_slug_head c || c == b'-') && is_slug_tail s

-- `min_length=1`, `max_length=n` and the pattern `^[a-z0-9][a-z0-9-]*$`.
unfoldable pub is_slug : ℕ → Text → Bool
unfolding is_slug_head is_slug_tail
is_slug n [] = false
is_slug n (c ∷ s) = leb (length (c ∷ s)) n && is_slug_head c && is_slug_tail s

-- `min_length=1`, `max_length=n`
unfoldable pub has_length : ℕ → Text → Bool
has_length n s = leb 1 (length s) && leb (length s) n
