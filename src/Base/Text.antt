-- ===== src/Base/Text.antt =====
-- Python's f-strings.
use Prim.Native.String.{String, ◌++◌}
use mathlib.Core.List.{List, [], ◌∷◌}

-- An f-string, as the list of its pieces.
unfoldable pub format : List String → String
format [] = ""
format (s ∷ ss) = s ++ format ss
