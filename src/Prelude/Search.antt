-- ===== src/Prelude/Search.antt =====
-- Searching in texts: `in`, `str.strip`, and those regular expressions that are a sequence of choices
-- between literals.
use Prim.Native.Nat.{ℕ, suc}
use Prim.Native.Char.{Char, code}
use Prim.Native.String.{String}
use mathlib.Core.Bool.{Bool, true, false, ◌||◌, ◌&&◌}
use mathlib.Core.Option.{Option, none, some}
use mathlib.Core.List.{List, [], ◌∷◌}
use text.Mathlib.Text.{◌==◌ as str_eq}
use neuro_pipeline.Prelude.Tests.{leb, ◌==◌, if◌then◌else◌}
use neuro_pipeline.Prelude.Lists.{any}

-- What follows the needle, if the text begins with it.
unfoldable pub after : String → String → Option String
after String.[] s = some s
after (String.◌∷◌ c n) String.[] = none
after (String.◌∷◌ c n) (String.◌∷◌ d s) = if code c == code d then after n s else none

is_some : Option String → Bool
is_some none = false
is_some (some s) = true

-- `needle in s`
unfoldable pub includes : String → String → Bool
unfolding is_some after
includes needle String.[] = is_some (after needle String.[])
includes needle (String.◌∷◌ c s) = is_some (after needle (String.◌∷◌ c s)) || includes needle s

-- `len(s)`
unfoldable pub text_length : String → ℕ
text_length String.[] = 0
text_length (String.◌∷◌ c s) = suc (text_length s)

-- `str.isspace` of one character
is_space : Char → Bool
is_space c =
    (leb 9 (code c) && leb (code c) 13)
    || (leb 28 (code c) && leb (code c) 32)
    || any (λ n. code c == n) (133 ∷ 160 ∷ 5760 ∷ 8232 ∷ 8233 ∷ 8239 ∷ 8287 ∷ 12288 ∷ [])
    || (leb 8192 (code c) && leb (code c) 8202)

strip_left : String → String
unfolding is_space
strip_left String.[] = String.[]
strip_left (String.◌∷◌ c s) = if is_space c then strip_left s else String.◌∷◌ c s

strip_right : String → String
unfolding is_space
strip_right String.[] = String.[]
strip_right (String.◌∷◌ c s) =
    let rest = strip_right s in
    if is_space c && str_eq rest "" then String.[] else String.◌∷◌ c rest

-- `s.strip()`
unfoldable pub strip : String → String
unfolding strip_left strip_right
strip s = strip_right (strip_left s)

-- A pattern: one of the first literals, then one of the next, and so on.
abbrev pub Pattern : Type 0
Pattern = List (List String)

-- Whether what follows a literal, if the text begins with it, passes.
then_passes : (String → Bool) → Option String → Bool
then_passes later none = false
then_passes later (some s) = later s

-- Whether the pattern matches at the start of the text.
unfoldable pub matches : Pattern → String → Bool
unfolding then_passes
matches [] s = true
matches (choice ∷ pattern) s =
    let later = matches pattern in any (λ literal. then_passes later (after literal s)) choice

-- `re.search(pattern, s)` as a condition
unfoldable pub search_in : Pattern → String → Bool
unfolding matches
search_in pattern String.[] = matches pattern String.[]
search_in pattern (String.◌∷◌ c s) = matches pattern (String.◌∷◌ c s) || search_in pattern s
