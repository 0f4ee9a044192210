-- ===== src/Base/Words.antt =====
-- `str.isspace` on one code point, `strip`, `split` and `join`.
use Prim.Native.Nat.{ℕ}
use mathlib.Core.Path.{◌≡◌, refl, ap, ◌∙◌}
use mathlib.Core.Logic.{inl, inr}
use mathlib.Core.Bool.{Bool, true, false, not, ◌&&◌, ◌||◌}
use mathlib.Core.List.{List, [], ◌∷◌, ◌++◌}
use ai_system_engineering_cu.Base.Tests.{leb, nat_beq, Bool-cases, if◌then◌else◌}
use ai_system_engineering_cu.Base.Lists.{All}
use ai_system_engineering_cu.Base.Strings.{Text}

-- The code points that Python counts as whitespace.
unfoldable pub is_space : ℕ → Bool
is_space c =
    leb 9 c && leb c 13
    || leb 28 c && leb c 32
    || nat_beq c 133
    || nat_beq c 160
    || nat_beq c 5760
    || leb 8192 c && leb c 8202
    || leb 8232 c && leb c 8233
    || nat_beq c 8239
    || nat_beq c 8287
    || nat_beq c 12288

-- The last code point is no whitespace.
unfoldable pub ends_stripped : Text → Bool
unfolding is_space
ends_stripped [] = true
ends_stripped (c ∷ []) = not (is_space c)
ends_stripped (c ∷ d ∷ s) = ends_stripped (d ∷ s)

-- `value == value.strip()`
unfoldable pub is_stripped : Text → Bool
unfolding is_space ends_stripped
is_stripped [] = true
is_stripped (c ∷ s) = not (is_space c) && ends_stripped (c ∷ s)

-- Without the whitespace at the front.
unfoldable pub left_stripped : Text → Text
unfolding is_space
left_stripped [] = []
left_stripped (c ∷ s) = let rest = left_stripped s in if is_space c then rest else c ∷ s

cons_stripped : ℕ → Text → Text
unfolding is_space
cons_stripped c [] = if is_space c then [] else c ∷ []
cons_stripped c (d ∷ s) = c ∷ d ∷ s

-- Without the whitespace at the end.
unfoldable pub right_stripped : Text → Text
unfolding cons_stripped
right_stripped [] = []
right_stripped (c ∷ s) = cons_stripped c (right_stripped s)

-- `s.strip()`
unfoldable pub strip : Text → Text
unfolding left_stripped right_stripped
strip s = right_stripped (left_stripped s)

-- `sep.join(parts)`
unfoldable pub join : Text → List Text → Text
join sep [] = []
join sep (w ∷ []) = w
join sep (w ∷ v ∷ ws) = w ++ (sep ++ join sep (v ∷ ws))

-- One more code point in front of the first word.
unfoldable pub cons_head : ℕ → List Text → List Text
cons_head c [] = (c ∷ []) ∷ []
cons_head c (w ∷ ws) = (c ∷ w) ∷ ws

-- `c`, which is no whitespace, before `s`, whose words are `ws`.
unfoldable pub attach : ℕ → Text → List Text → List Text
unfolding is_space cons_head
attach c [] ws = (c ∷ []) ∷ ws
attach c (d ∷ s) ws = if is_space d then (c ∷ []) ∷ ws else cons_head c ws

-- `s.split()`
unfoldable pub split : Text → List Text
unfolding attach
split [] = []
split (c ∷ s) = let ws = split s in if is_space c then ws else attach c s ws

-- A text of at least one code point and no whitespace.
abbrev pub IsWord : Text → Type 0
IsWord [] = ⊥
IsWord (c ∷ []) = is_space c ≡ false
IsWord (c ∷ d ∷ w) = (is_space c ≡ false) × IsWord (d ∷ w)

IsWord-cons : (c : ℕ) (w : Text) → is_space c ≡ false → IsWord w → IsWord (c ∷ w)
IsWord-cons c [] h k = absurd k
IsWord-cons c (d ∷ w) h k = (h, k)

attach-IsWord :
    (c : ℕ) (s : Text) (ws : List Text)
    → is_space c ≡ false
    → All IsWord ws
    → All IsWord (attach c s ws)
unfolding attach
attach-IsWord c [] ws h k = (h, k)
attach-IsWord c (d ∷ s) ws h k = elim (Bool-cases (is_space d)) [
  | inl space ↦ rw space (h, k)
  | inr inside ↦ rw inside (on_head ws k)
]
  where
    on_head : (vs : List Text) → All IsWord vs → All IsWord (cons_head c vs)
    on_head [] j = (h, tt)
    on_head (v ∷ vs) j = (IsWord-cons c v h j.0, j.1)

pub split-IsWord : (s : Text) → All IsWord (split s)
unfolding split
split-IsWord [] = tt
split-IsWord (c ∷ s) = elim (Bool-cases (is_space c)) [
  | inl space ↦ rw space (split-IsWord s)
  | inr inside ↦ rw inside (attach-IsWord c s (split s) inside (split-IsWord s))
]

split-word_alone : (w : Text) → IsWord w → split w ≡ w ∷ []
unfolding split
split-word_alone (c ∷ []) h = rw h refl
split-word_alone (c ∷ d ∷ w) h = rw (h.0, split-word_alone (d ∷ w) h.1) (inside d w h.1)
  where
    inside :
        (d : ℕ) (w : Text) → IsWord (d ∷ w) → attach c (d ∷ w) ((d ∷ w) ∷ []) ≡ (c ∷ d ∷ w) ∷ []
    inside d [] k = rw k refl
    inside d (e ∷ w) k = rw k.0 refl
split-word_alone [] h = absurd h

split-word_first : (w : Text) (rest : Text) → IsWord w → split (w ++ b' ' ∷ rest) ≡ w ∷ split rest
unfolding split
split-word_first (c ∷ []) rest h = rw h refl
split-word_first (c ∷ d ∷ w) rest h = rw (h.0, split-word_first (d ∷ w) rest h.1) (inside d w h.1)
  where
    inside :
        (d : ℕ) (w : Text)
        → IsWord (d ∷ w)
        → attach c (d ∷ w ++ b' ' ∷ rest) ((d ∷ w) ∷ split rest) ≡ (c ∷ d ∷ w) ∷ split rest
    inside d [] k = rw k refl
    inside d (e ∷ w) k = rw k.0 refl
split-word_first [] rest h = absurd h

split-nil : split [] ≡ []
unfolding split
split-nil = refl

-- Words that are joined by a space are split again.
pub split-join : (ws : List Text) → All IsWord ws → split (join (b' ' ∷ []) ws) ≡ ws
unfolding join
split-join [] h = split-nil
split-join (w ∷ []) h = split-word_alone w h.0
split-join (w ∷ v ∷ ws) h = split-word_first w _ h.0 ∙ ap (λ us. w ∷ us) (split-join (v ∷ ws) h.1)
