-- ===== src/Base/Text.antt =====
-- `std::string` as the list of its bytes; the literals of the source are ASCII.
use Prim.Native.Nat.{ℕ, ◌<◌}
use Prim.Native.Char.{code}
use Prim.Native.String.{String}
use mathlib.Core.List.{List, [], ◌∷◌}
use linux_server.Base.Lists.{All}

abbrev pub Bytes : Type 0
Bytes = List ℕ

-- Each element is an `unsigned char`.
abbrev pub IsBytes : Bytes → Type 0
IsBytes = All (λ c. c < 256)

abbrev pub codes : String → Bytes
codes String.[] = []
codes (String.◌∷◌ c s) = code c ∷ codes s
