-- ===== src/Base/Texts.antt =====
-- The text literals of the C code as the lists of their bytes.
use Prim.Native.Nat.{ℕ}
use Prim.Native.Char.{code}
use Prim.Native.String.{String, [], ◌∷◌}
use mathlib.Core.List.{List, [] as []ᴸ, ◌∷◌ as ◌∷ᴸ◌}

-- All characters of the literals are ASCII, so that a byte is the character's code.
abbrev pub bytes : String → List ℕ
bytes [] = []ᴸ
bytes (c ∷ s) = code c ∷ᴸ bytes s
