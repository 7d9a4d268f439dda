-- ===== src/Text/Defs.antt =====
-- Texts (wxString values, as lists of code points) and the searches of
-- src/DebugAdapterProtocol/StringUtils.cpp.
use mathlib.Core.Option
use Prim.Native.Char.{code}
use debugger_dap.Common.{
  ℕ, suc, Bool, true, false, ◌&&◌, ◌||◌, List, [], ◌∷◌, Option, none, some, length, take, drop, ltb,
  leb, ◌==◌, if◌then◌else◌, String,
}

abbrev pub Text : Type 0
Text = List ℕ

-- The code points of a literal.
abbrev pub codes : String → Text
codes String.[] = []
codes (String.◌∷◌ c s) = code c ∷ codes s

-- `isspace` of the C library, in the C locale.
abbrev pub is_space : ℕ → Bool
is_space c = c == 32 || (leb 9 c && leb c 13)

-- `isdigit` of the C library.
abbrev pub is_digit : ℕ → Bool
is_digit c = leb 48 c && leb c 57

-- operator== of two texts.
unfoldable pub text_eq : Text → Text → Bool
text_eq [] [] = true
text_eq (x ∷ xs) (y ∷ ys) = x == y && text_eq xs ys
text_eq _ _ = false

-- `str.find(ch)`: the first position of a character; `none` is `npos`.
unfoldable pub find_char : ℕ → Text → Option ℕ
find_char ch [] = none
find_char ch (c ∷ s) = if c == ch then some 0 else Option.map suc (find_char ch s)

-- Whether a text begins with a pattern, as the searches of the standard strings see it.
unfoldable pub begins_with : Text → Text → Bool
begins_with s [] = true
begins_with [] (p ∷ ps) = false
begins_with (c ∷ s) (p ∷ ps) = c == p && begins_with s ps

-- The loop of `DapStringUtils::StartsWith`, over the characters of the prefix; `none` where it reads
-- `str[i]` behind the end.
unfoldable pub starts_loop : Text → Text → Option Bool
starts_loop s [] = some true
starts_loop [] (p ∷ ps) = none
starts_loop (c ∷ s) (p ∷ ps) = let rest = starts_loop s ps in if c == p then rest else some false

-- `DapStringUtils::StartsWith`
unfoldable pub starts_with : Text → Text → Option Bool
unfolding starts_loop
starts_with str prefix =
    if ltb (length str) (length prefix) then some false else starts_loop str prefix

-- `str.find(pattern)`: the first position at which a text begins with the pattern.
unfoldable pub find : Text → Text → Option ℕ
find pat [] = if begins_with [] pat then some 0 else none
find pat (c ∷ s) = if begins_with (c ∷ s) pat then some 0 else Option.map suc (find pat s)

unfoldable pub before_at : Text → Option ℕ → Text
before_at str none = str
before_at str (some at) = take at str

unfoldable pub after_at : Text → Option ℕ → Text
after_at str none = []
after_at str (some at) = drop (suc at) str

unfoldable pub before_first : Text → ℕ → Text
unfolding before_at
before_first str ch = before_at str (find_char ch str)

unfoldable pub after_first : Text → ℕ → Text
unfolding after_at
after_first str ch = after_at str (find_char ch str)
