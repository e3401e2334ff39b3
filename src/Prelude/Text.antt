-- ===== src/Prelude/Text.antt =====
-- Texts, cut and joined by characters.
use Prim.Native.Nat.{ℕ, zero, suc}
use Prim.Native.String.{String, ◌++◌ as str_append}
use mathlib.Core.List.{List, [], ◌∷◌}

infixr 65 ◌⊕◌
-- `a + b`
abbrev pub ◌⊕◌ : String → String → String
a ⊕ b = str_append a b

-- `s[:n]`
unfoldable pub prefix : ℕ → String → String
prefix zero s = ""
prefix (suc n) String.[] = ""
prefix (suc n) (String.◌∷◌ c s) = String.◌∷◌ c (prefix n s)

-- `separator.join(parts)`
unfoldable pub join : String → List String → String
join separator [] = ""
join separator (s ∷ []) = s
join separator (s ∷ t ∷ ts) = s ⊕ (separator ⊕ join separator (t ∷ ts))
