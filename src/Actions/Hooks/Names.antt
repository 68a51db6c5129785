-- ===== src/Actions/Hooks/Names.antt =====
-- internal/actions/executor.go: which names of hooks are refused.
use Prim.Native.Char.{Char, code}
use Prim.Native.String.{String, [], ◌∷◌}
use plexd.Base.{ℕ, Bool, true, false, not, ◌&&◌, ◌||◌, eqb}

abbrev is_char : ℕ → Char → Bool
is_char n c = eqb (code c) n

-- `strings.ContainsAny(name, "/\\")`
unfoldable pub has_separator : String → Bool
has_separator [] = false
has_separator (c ∷ s) = is_char 47 c || is_char 92 c || has_separator s

abbrev starts_with_dot : String → Bool
starts_with_dot [] = false
starts_with_dot (c ∷ s) = is_char 46 c

-- `strings.Contains(name, "..")`
unfoldable pub has_two_dots : String → Bool
has_two_dots [] = false
has_two_dots (c ∷ s) = (is_char 46 c && starts_with_dot s) || has_two_dots s

unfoldable pub is_empty_name : String → Bool
is_empty_name [] = true
is_empty_name (c ∷ s) = false

-- Whether `validateHookName` accepts the name.
unfoldable pub is_hook_name : String → Bool
is_hook_name name = not (is_empty_name name || has_separator name || has_two_dots name)
