-- ===== src/Domain/Embedding.antt =====
-- src/domain/embedding.py. A bucket of the vector is a whole number until it is divided by the
-- norm; with fewer than 2^26 tokens it and the sum of the squares are exact doubles.
pub mod Order
use Prim.Native.Nat.{◌^◌}
use ai_system_engineering_cu.Base.{
  ℕ, zero, suc, ◌+◌, ◌*◌, ◌/◌, ◌%◌, Bool, true, false, ◌&&◌, ◌||◌, not, List, [], ◌∷◌, ◌++◌, map,
  Text, literal, leb, nat_beq, nat_eq, ◌==◌, if◌then◌else◌, ℤ, pos, negsuc, ◌+ℤ◌, Double, nan,
  minus_infinity, finite, plus_infinity, cons_head, join, decimal, padded, one, round_half_even,
  rounded_ratio, sqrt_double, length,
}

abbrev pub embedding_dimensions : ℕ
embedding_dimensions = 64

-- `[a-z0-9]`
unfoldable pub is_token : ℕ → Bool
is_token c = leb b'a' c && leb c b'z' || leb b'0' c && leb c b'9'

-- `c` of a token before `s`, whose tokens are `tokens`.
unfoldable pub extend : ℕ → Text → List Text → List Text
unfolding is_token cons_head
extend c [] tokens = (c ∷ []) ∷ tokens
extend c (d ∷ s) tokens = if is_token d then cons_head c tokens else (c ∷ []) ∷ tokens

-- `_TOKEN.findall(s)`
unfoldable pub find_all : Text → List Text
unfolding extend is_token
find_all [] = []
find_all (c ∷ s) = let tokens = find_all s in if is_token c then extend c s tokens else tokens

-- `[0] * n`
unfoldable pub zero_vector : ℕ → List ℤ
zero_vector zero = []
zero_vector (suc n) = pos 0 ∷ zero_vector n

-- `vector[bucket] += sign`
unfoldable pub add_at : ℕ → ℤ → List ℤ → List ℤ
add_at n sign [] = []
add_at zero sign (value ∷ vector) = (value +ℤ sign) ∷ vector
add_at (suc n) sign (value ∷ vector) = value ∷ add_at n sign vector

abbrev pub magnitude : ℤ → ℕ
magnitude (pos n) = n
magnitude (negsuc n) = suc n

-- `sum(value * value for value in vector)`
unfoldable pub sum_of_squares : List ℤ → ℕ
sum_of_squares [] = 0
sum_of_squares (value ∷ vector) = magnitude value * magnitude value + sum_of_squares vector

-- The double with the sign of a whole number and this distance from 0.
unfoldable pub signed : ℤ → ℕ → ℤ
signed (pos n) m = pos m
signed (negsuc n) zero = pos 0
signed (negsuc n) (suc m) = negsuc m

-- `value / norm`, where `value` is a whole number.
unfoldable pub quotient : ℕ → ℤ → Double
unfolding signed rounded_ratio
quotient norm value = finite (signed value (rounded_ratio (magnitude value * one * one) norm))

-- A whole number as a double.
unfoldable pub whole : ℤ → Double
unfolding signed
whole value = finite (signed value (magnitude value * one))

unfoldable pub unit_length : List ℤ → ℕ → List Double
unfolding quotient whole
unit_length vector norm = if norm == 0 then map whole vector else map (quotient norm) vector

-- `casefold` is `str.casefold`. `blake2b s i` is the byte at `i` of the digest of 8 bytes of the
-- UTF-8 of `s`; a token is ASCII, so that its UTF-8 is itself.
module _ (casefold : Text → Text) where
  unfoldable pub tokenize : Text → List Text
  unfolding find_all
  tokenize text = find_all (casefold text)

module _ (blake2b : Text → ℕ → ℕ) where
  -- `int.from_bytes(digest[:4], "big") % EMBEDDING_DIMENSIONS`
  unfoldable pub bucket : Text → ℕ
  bucket token =
      (((blake2b token 0 * 256 + blake2b token 1) * 256 + blake2b token 2) * 256 + blake2b token 3)
      % embedding_dimensions

  unfoldable pub sign_of : Text → ℤ
  sign_of token = if blake2b token 4 % 2 == 0 then pos 1 else negsuc 0

  -- The loop over the tokens.
  unfoldable pub accumulated : List Text → List ℤ → List ℤ
  unfolding add_at bucket sign_of
  accumulated [] vector = vector
  accumulated (token ∷ tokens) vector =
      accumulated tokens (add_at (bucket token) (sign_of token) vector)

  unfoldable pub vector_of : List Text → List Double
  unfolding accumulated zero_vector unit_length sum_of_squares sqrt_double
  vector_of tokens =
      let vector = accumulated tokens (zero_vector embedding_dimensions) in
      unit_length vector (sqrt_double (sum_of_squares vector))

unfoldable pub embed : (Text → Text) → (Text → ℕ → ℕ) → Text → List Double
unfolding tokenize vector_of
embed casefold blake2b text = vector_of blake2b (tokenize casefold text)

-- `f"{n:.9f}"` of a double at distance `n` from 0.
unfoldable pub nine_places : ℕ → Text
unfolding round_half_even decimal padded
nine_places n =
    let places = round_half_even (n * 10 ^ 9) one in
    decimal (places / 10 ^ 9) ++ (b'.' ∷ padded 9 (places % 10 ^ 9))

-- `f"{value:.9f}"`; -0.0, which no vector of `embed` holds, is not told from 0.0.
unfoldable pub format_double : Double → Text
unfolding nine_places
format_double nan = literal "nan"
format_double minus_infinity = literal "-inf"
format_double plus_infinity = literal "inf"
format_double (finite (pos n)) = nine_places n
format_double (finite (negsuc n)) = b'-' ∷ nine_places (suc n)

unfoldable pub format_vector : List Double → Text
unfolding format_double join
format_vector vector = b'[' ∷ join (b',' ∷ []) (map format_double vector) ++ b']' ∷ []
