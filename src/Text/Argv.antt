-- ===== src/Text/Argv.antt =====
-- The splitting of a command line, `DapStringUtils::BuildArgv`, and `WrapWithQuotes`
-- (src/DebugAdapterProtocol/StringUtils.cpp). The characters are those that the conversion to
-- `char` in the loop gives.
pub mod RoundTrip
use debugger_dap.Common.{
  ℕ, Bool, true, false, ◌&&◌, ◌||◌, List, [], ◌∷◌, ◌++◌, Option, none, some, map, length, ltb, ◌==◌,
  if◌then◌else◌,
}
use debugger_dap.Text.Defs.{Text, find_char}

-- ARGV_STATE_NORMAL and so on
pub data ArgvState : Type 0 where
  normal dquote squote escape backtick : ArgvState

-- The variables of the loop.
pub record Scan : Type 0 where
  pub tokens : List Text
  pub state : ArgvState
  pub prev_state : ArgvState
  pub current : Text

abbrev pub beginning : Scan
beginning = record { tokens = []; state = normal; prev_state = normal; current = [] }

unfoldable pub push_token : List Text → Text → List Text
push_token tokens [] = tokens
push_token tokens (c ∷ s) = tokens ++ (c ∷ s) ∷ []

-- `curstr << ch`
abbrev pub put : Text → Scan → Scan
put s scan = record scan { current = scan.current ++ s }

-- CHANGE_STATE and RESTORE_STATE
abbrev pub change_state : ArgvState → Scan → Scan
change_state state scan = record scan { prev_state = scan.state; state = state }

abbrev pub restore_state : Scan → Scan
restore_state scan = record scan { state = scan.prev_state; prev_state = normal }

unfoldable pub in_normal : ℕ → Scan → Scan
unfolding push_token
in_normal ch scan =
    if ch == 32 || ch == 9
    then record scan { tokens = push_token scan.tokens scan.current; current = [] }
    else if ch == 39
    then put (ch ∷ []) (change_state squote scan)
    else if ch == 34
    then put (ch ∷ []) (change_state dquote scan)
    else if ch == 96
    then put (ch ∷ []) (change_state backtick scan)
    else put (ch ∷ []) scan

-- The quote that an escape stands in.
unfoldable pub quote_of : ArgvState → ℕ
quote_of dquote = 34
quote_of backtick = 96
quote_of _ = 39

unfoldable pub in_escape : ℕ → Scan → Scan
unfolding quote_of
in_escape ch scan =
    if ch == quote_of scan.prev_state
    then restore_state (put (quote_of scan.prev_state ∷ []) scan)
    else restore_state (put (92 ∷ ch ∷ []) scan)

unfoldable pub in_quotes : ℕ → ℕ → Scan → Scan
in_quotes quote ch scan =
    if ch == 92
    then change_state escape scan
    else if ch == quote
    then restore_state (put (ch ∷ []) scan)
    else put (ch ∷ []) scan

unfoldable pub by_argv_state : ArgvState → ℕ → Scan → Scan
unfolding in_normal in_escape in_quotes
by_argv_state normal ch scan = in_normal ch scan
by_argv_state escape ch scan = in_escape ch scan
by_argv_state dquote ch scan = in_quotes 34 ch scan
by_argv_state squote ch scan = in_quotes 39 ch scan
by_argv_state backtick ch scan = in_quotes 96 ch scan

-- The loop over the characters.
unfoldable pub scan_all : Text → Scan → Scan
unfolding by_argv_state
scan_all [] scan = scan
scan_all (ch ∷ s) scan = scan_all s (by_argv_state scan.state ch scan)

-- The array of the first `BuildArgv`.
unfoldable pub build_tokens : Text → List Text
unfolding scan_all push_token
build_tokens str = let scan = scan_all str beginning in push_token scan.tokens scan.current

-- `s.RemoveLast()` and the test of `s.Last()`.
unfoldable pub without_last : Text → Text
without_last [] = []
without_last (c ∷ []) = []
without_last (c ∷ d ∷ s) = c ∷ without_last (d ∷ s)

unfoldable pub ends_in : ℕ → Text → Bool
ends_in ch [] = false
ends_in ch (c ∷ []) = c == ch
ends_in ch (c ∷ d ∷ s) = ends_in ch (d ∷ s)

unfoldable pub unquoted : Text → Text
unfolding without_last ends_in
unquoted [] = []
unquoted (c ∷ s) =
    if ltb 1 (length (c ∷ s)) && (c == 34 && ends_in 34 (c ∷ s)) then without_last s else c ∷ s

-- `BuildArgv`
unfoldable pub build_argv : Text → List Text
unfolding build_tokens unquoted
build_argv str = map unquoted (build_tokens str)

unfoldable pub wrapped_at : Option ℕ → Text → Text
wrapped_at none str = str
wrapped_at (some at) str = 34 ∷ (str ++ 34 ∷ [])

-- `WrapWithQuotes`
unfoldable pub wrap_with_quotes : Text → Text
unfolding wrapped_at
wrap_with_quotes [] = []
wrap_with_quotes (c ∷ s) = wrapped_at (find_char 32 (c ∷ s)) (c ∷ s)
