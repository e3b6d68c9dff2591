-- ===== src/Extraction/Strip.antt =====
-- Python's `str.strip()`.
use Prim.Native.Char.{code}
use Prim.Native.String.{[], ◌∷◌}
use memory_system.Shared.{ℕ, String, Bool, ◌&&◌, ◌||◌, leb, ◌==◌, if◌then◌else◌, str_eq, ◌≡◌, refl}

-- str.isspace() of one code point
is_space : ℕ → Bool
is_space c =
    leb 9 c && leb c 13
    || leb 28 c && leb c 32
    || c == 133
    || c == 160
    || c == 5760
    || leb 8192 c && leb c 8202
    || c == 8232
    || c == 8233
    || c == 8239
    || c == 8287
    || c == 12288

strip_left : String → String
unfolding is_space
strip_left [] = []
strip_left (c ∷ s) = let rest = strip_left s in if is_space (code c) then rest else c ∷ s

strip_right : String → String
unfolding is_space
strip_right [] = []
strip_right (c ∷ s) =
    let rest = strip_right s in if is_space (code c) && str_eq rest "" then "" else c ∷ rest

unfoldable pub strip : String → String
unfolding strip_left strip_right
strip s = strip_right (strip_left s)

strip_test : strip " a b\t" ≡ "a b"
unfolding strip
strip_test = refl
