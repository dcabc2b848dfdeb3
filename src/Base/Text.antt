-- ===== src/Base/Text.antt =====
-- Texts of the program as byte strings. They are ASCII, so their bytes are their codes.
use Prim.Native.Char.{code}
use Prim.Native.String.{String}
use Prim.Native.Nat.{ℕ}
use mathlib.Core.List.{List, [], ◌∷◌, ◌++◌}
use secretstash.Base.Tests.{◌==◌, if◌then◌else◌}

abbrev pub ascii : String → List ℕ
ascii String.[] = []
ascii (String.◌∷◌ c s) = code c ∷ ascii s

-- A line, as fmt.Fprintln writes it.
abbrev pub line : List ℕ → List ℕ
line s = s ++ 10 ∷ []

-- strings.TrimRight(s, "/")
unfoldable pub trim_slashes : List ℕ → List ℕ
trim_slashes [] = []
trim_slashes (c ∷ s) = elim (trim_slashes s) [
  | [] ↦ if c == 47 then [] else c ∷ []
  | d ∷ t ↦ c ∷ d ∷ t
]
