-- ===== src/FakeHttpd/Texts.antt =====
-- The texts of C string literals, and the bytes of the body.
use Prim.Native.Char.{code}
use Prim.Native.String.{String}
use dungeon.Base.{ℕ, List, [], ◌∷◌}

-- The bytes of a text in ASCII.
abbrev pub codes : String → List ℕ
codes String.[] = []
codes (String.◌∷◌ c s) = code c ∷ codes s
