-- ===== src/Prelude/Text.antt =====
-- The order of Python's `str`, by code points, and slices of texts.
use Prim.Native.Nat.{ℕ, zero, suc, ◌+◌}
use Prim.Native.Char.{code}
use Prim.Native.String.{String, ◌++◌ as text_append}
use Prim.Native.String.append
use mathlib.Core.Path.{◌≡◌, refl}
use mathlib.Core.Bool.{Bool, true, false, ◌&&◌, ◌||◌}
use mathlib.Core.Option.{Option, none, some}
use rd_news.Prelude.Tests.{if◌then◌else◌, ltb, leb, ◌==◌, ==_iff}

-- `s <= t`
unfoldable pub text_le : String → String → Bool
text_le String.[] t = true
text_le (String.◌∷◌ c s) String.[] = false
text_le (String.◌∷◌ c s) (String.◌∷◌ d t) =
    let rest = text_le s t in ltb (code c) (code d) || (code c == code d && rest)

-- `s[:n]`
unfoldable pub text_take : ℕ → String → String
text_take zero s = String.[]
text_take (suc n) String.[] = String.[]
text_take (suc n) (String.◌∷◌ c s) = String.◌∷◌ c (text_take n s)

-- The truth value of a `str`.
unfoldable pub is_empty : String → Bool
is_empty String.[] = true
is_empty (String.◌∷◌ c s) = false

-- `len(text)`
unfoldable pub text_length : String → ℕ
text_length String.[] = 0
text_length (String.◌∷◌ c s) = suc (text_length s)

-- `text.partition(":")[0]`: what stands before the first colon, or all of it.
unfoldable pub before_colon : String → String
before_colon String.[] = String.[]
before_colon (String.◌∷◌ c s) =
    let rest = before_colon s in if code c == 58 then String.[] else String.◌∷◌ c rest

-- `text.partition(":")[2]`, where there is a colon.
unfoldable pub after_colon : String → Option String
after_colon String.[] = none
after_colon (String.◌∷◌ c s) = let rest = after_colon s in if code c == 58 then some s else rest

-- `text.startswith(prefix)`
unfoldable pub starts_with : String → String → Bool
starts_with String.[] t = true
starts_with (String.◌∷◌ c s) String.[] = false
starts_with (String.◌∷◌ c s) (String.◌∷◌ d t) =
    let rest = starts_with s t in code c == code d && rest

pub starts_with-append : (s t : String) → starts_with s (text_append s t) ≡ true
unfolding starts_with
starts_with-append String.[] t = refl
starts_with-append (String.◌∷◌ c s) t =
    rw (append.cons c s t) (rw ((==_iff (code c) (code c)).1 refl) (starts_with-append s t))

-- The lower case of a code point; no letter of Latin-1 outside ASCII has one in ASCII.
abbrev pub lower : ℕ → ℕ
lower c = if leb 65 c && leb c 90 then c + 32 else c

-- `text.lower().startswith(prefix)`, for a prefix in lower case and a text in Latin-1
unfoldable pub starts_lower : String → String → Bool
starts_lower String.[] t = true
starts_lower (String.◌∷◌ c s) String.[] = false
starts_lower (String.◌∷◌ c s) (String.◌∷◌ d t) =
    let rest = starts_lower s t in code c == lower (code d) && rest

-- `text[n:]`
unfoldable pub text_drop : ℕ → String → String
text_drop zero s = s
text_drop (suc n) String.[] = String.[]
text_drop (suc n) (String.◌∷◌ c s) = text_drop n s

-- The white space of Latin-1.
abbrev pub is_space : ℕ → Bool
is_space c = leb 9 c && leb c 13 || leb 28 c && leb c 32 || c == 133 || c == 160

unfoldable pub left_strip : String → String
left_strip String.[] = String.[]
left_strip (String.◌∷◌ c s) =
    let rest = left_strip s in if is_space (code c) then rest else String.◌∷◌ c s

unfoldable pub right_strip : String → String
right_strip String.[] = String.[]
right_strip (String.◌∷◌ c s) =
    let rest = right_strip s in
    if is_empty rest && is_space (code c) then String.[] else String.◌∷◌ c rest

-- `text.strip()`
abbrev pub strip : String → String
strip s = right_strip (left_strip s)
