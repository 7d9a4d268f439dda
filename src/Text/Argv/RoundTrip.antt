-- ===== src/Text/Argv/RoundTrip.antt =====
-- Command lines of wrapped arguments under `BuildArgv` (src/DebugAdapterProtocol/StringUtils.cpp).
use mathlib.Core.Option
use debugger_dap.Common.{
  suc, lt→ltb, ℕ, ◌≡◌, ◌≢◌, refl, sym, ap, ◌∙◌, Bool, true, false, not, ◌&&◌, List, [], ◌∷◌, ◌++◌,
  append_assoc, append-nil, Option, none, some, map, length, ltb, ◌==◌, All, if◌then◌else◌, arith,
}
use debugger_dap.Text.Defs.{Text, find_char}
use debugger_dap.Text.Argv.{
  normal, dquote, Scan, push_token, in_normal, in_quotes, by_argv_state, scan_all, build_tokens,
  without_last, ends_in, unquoted, build_argv, wrapped_at, wrap_with_quotes,
}

-- An ASCII character that is no quote, no backslash, no tab and not NUL.
abbrev pub is_plain : ℕ → Bool
is_plain c =
    ltb 0 c
    && (ltb c 128
        && (not (c == 9) && (not (c == 34) && (not (c == 39) && (not (c == 92) && not (c == 96))))))

-- An argument of such characters, not empty; blanks are allowed.
pub record IsArgument (argument : Text) : Type 0 where
  pub not_empty : argument ≢ []
  pub plain : All (λ c. is_plain c ≡ true) argument

-- The wrapped arguments, with a blank between two of them.
abbrev pub command_line : List Text → Text
command_line [] = []
command_line (a ∷ []) = wrap_with_quotes a
command_line (a ∷ b ∷ rest) = wrap_with_quotes a ++ 32 ∷ command_line (b ∷ rest)

abbrev outside : List Text → Text → Scan
outside tokens current = record {
  tokens = tokens;
  state = normal;
  prev_state = normal;
  current = current;
}

abbrev inside : List Text → Text → Scan
inside tokens current = record {
  tokens = tokens;
  state = dquote;
  prev_state = normal;
  current = current;
}

step_outside :
    (c : ℕ) (tokens : List Text) (current : Text)
    → is_plain c ≡ true
    → (c == 32) ≡ false
    → by_argv_state normal c (outside tokens current) ≡ outside tokens (current ++ c ∷ [])
unfolding by_argv_state in_normal
step_outside c tokens current p n = ground (arith, p, n)

step_inside :
    (c : ℕ) (tokens : List Text) (current : Text)
    → is_plain c ≡ true
    → by_argv_state dquote c (inside tokens current) ≡ inside tokens (current ++ c ∷ [])
unfolding by_argv_state in_quotes
step_inside c tokens current p = ground (arith, p)

map-none : (o : Option ℕ) → Option.map suc o ≡ none → o ≡ none
map-none none h = refl
map-none (some n) h = absurd (cc h)

lacks_blank : (s : Text) → find_char 32 s ≡ none → All (λ c. (c == 32) ≡ false) s
unfolding find_char
lacks_blank [] h = tt
lacks_blank (c ∷ s) h = blankless (c == 32) refl h (λ k. lacks_blank s k)
  where
    blankless :
        (b : Bool)
        → (c == 32) ≡ b
        → (if b then some 0 else Option.map suc (find_char 32 s)) ≡ none
        → (find_char 32 s ≡ none → All (λ c. (c == 32) ≡ false) s)
        → All (λ c. (c == 32) ≡ false) (c ∷ s)
    blankless true e k rest = absurd (cc k)
    blankless false e k rest = (e, rest (map-none (find_char 32 s) k))

scan_outside :
    (w rest : Text) (tokens : List Text) (current : Text)
    → All (λ c. is_plain c ≡ true) w
    → All (λ c. (c == 32) ≡ false) w
    → scan_all (w ++ rest) (outside tokens current) ≡ scan_all rest (outside tokens (current ++ w))
unfolding scan_all
scan_outside [] rest tokens current p n =
    ap (λ s. scan_all rest (outside tokens s)) (sym (append-nil current))
scan_outside (c ∷ w) rest tokens current p n =
    ap (scan_all (w ++ rest)) (step_outside c tokens current p.0 n.0)
    ∙ scan_outside w rest tokens (current ++ c ∷ []) p.1 n.1
    ∙ ap (λ s. scan_all rest (outside tokens s)) (append_assoc current (c ∷ []) w)

scan_inside :
    (w rest : Text) (tokens : List Text) (current : Text)
    → All (λ c. is_plain c ≡ true) w
    → scan_all (w ++ rest) (inside tokens current) ≡ scan_all rest (inside tokens (current ++ w))
unfolding scan_all
scan_inside [] rest tokens current p =
    ap (λ s. scan_all rest (inside tokens s)) (sym (append-nil current))
scan_inside (c ∷ w) rest tokens current p =
    ap (scan_all (w ++ rest)) (step_inside c tokens current p.0)
    ∙ scan_inside w rest tokens (current ++ c ∷ []) p.1
    ∙ ap (λ s. scan_all rest (inside tokens s)) (append_assoc current (c ∷ []) w)

-- A wrapped argument is read into the current token, quotes and all.
scan_wrapped :
    (a rest : Text) (tokens : List Text)
    → IsArgument a
    → scan_all (wrap_with_quotes a ++ rest) (outside tokens [])
      ≡ scan_all rest (outside tokens (wrap_with_quotes a))
unfolding wrap_with_quotes wrapped_at scan_all by_argv_state in_normal in_quotes
scan_wrapped [] rest tokens h = absurd (h.not_empty refl)
scan_wrapped (c ∷ s) rest tokens h = wrapped (find_char 32 (c ∷ s)) refl
  where
    wrapped :
        (found : Option ℕ)
        → find_char 32 (c ∷ s) ≡ found
        → scan_all (wrapped_at found (c ∷ s) ++ rest) (outside tokens [])
          ≡ scan_all rest (outside tokens (wrapped_at found (c ∷ s)))
    wrapped none e = scan_outside (c ∷ s) rest tokens [] h.plain (lacks_blank (c ∷ s) e)
    wrapped (some at) e =
        ap (λ t. scan_all t (inside tokens (34 ∷ []))) (append_assoc (c ∷ s) (34 ∷ []) rest)
        ∙ scan_inside (c ∷ s) (34 ∷ rest) tokens (34 ∷ []) h.plain

push-wrapped :
    (a : Text) (tokens : List Text)
    → IsArgument a
    → push_token tokens (wrap_with_quotes a) ≡ tokens ++ wrap_with_quotes a ∷ []
unfolding wrap_with_quotes wrapped_at push_token
push-wrapped [] tokens h = absurd (h.not_empty refl)
push-wrapped (c ∷ s) tokens h = pushed (find_char 32 (c ∷ s))
  where
    pushed :
        (found : Option ℕ)
        → push_token tokens (wrapped_at found (c ∷ s)) ≡ tokens ++ wrapped_at found (c ∷ s) ∷ []
    pushed none = refl
    pushed (some at) = refl

-- The scan of a command line, from the blank or the beginning in front of it.
scan-command_line :
    (a : Text) (rest : List Text) (tokens : List Text)
    → All IsArgument (a ∷ rest)
    → (scan : Scan) × (scan_all (command_line (a ∷ rest)) (outside tokens []) ≡ scan)
      × (push_token scan.tokens scan.current ≡ tokens ++ map wrap_with_quotes (a ∷ rest))
scan-command_line a [] tokens h = (
  outside tokens (wrap_with_quotes a),
  ap (λ t. scan_all t (outside tokens [])) (sym (append-nil (wrap_with_quotes a)))
      ∙ scan_wrapped a [] tokens h.0
      ∙ unfold scan_all in refl,
  push-wrapped a tokens h.0,
)
scan-command_line a (b ∷ rest) tokens h =
    let (scan, e, f) = scan-command_line b rest (tokens ++ wrap_with_quotes a ∷ []) h.1 in
    (
      scan,
      scan_wrapped a (32 ∷ command_line (b ∷ rest)) tokens h.0
          ∙ blank (wrap_with_quotes a) (command_line (b ∷ rest))
          ∙ ap (λ t. scan_all (command_line (b ∷ rest)) (outside t [])) (push-wrapped a tokens h.0)
          ∙ e,
      f ∙ append_assoc tokens (wrap_with_quotes a ∷ []) (map wrap_with_quotes (b ∷ rest)),
    )
  where
    blank :
        (w line : Text)
        → scan_all (32 ∷ line) (outside tokens w) ≡ scan_all line (outside (push_token tokens w) [])
    blank w line = unfold scan_all by_argv_state in_normal in refl

ends_in-append : (q : ℕ) (s : Text) → ends_in q (s ++ q ∷ []) ≡ (q == q)
unfolding ends_in
ends_in-append q [] = refl
ends_in-append q (c ∷ []) = refl
ends_in-append q (c ∷ d ∷ s) = ends_in-append q (d ∷ s)

without_last-append : (q : ℕ) (s : Text) → without_last (s ++ q ∷ []) ≡ s
unfolding without_last
without_last-append q [] = refl
without_last-append q (c ∷ []) = refl
without_last-append q (c ∷ d ∷ s) = ap (λ t. c ∷ t) (without_last-append q (d ∷ s))

-- A wrapped argument is unwrapped again, and one that was not wrapped has no quotes to lose.
unquoted-wrapped : (a : Text) → IsArgument a → unquoted (wrap_with_quotes a) ≡ a
unfolding wrap_with_quotes wrapped_at unquoted ends_in
unquoted-wrapped [] h = absurd (h.not_empty refl)
unquoted-wrapped (c ∷ s) h = unwrapped (find_char 32 (c ∷ s))
  where
    unwrapped : (found : Option ℕ) → unquoted (wrapped_at found (c ∷ s)) ≡ c ∷ s
    unwrapped none = ground (arith, h.plain.0)
    unwrapped (some at) =
        ap
          (λ b.
            if b && ends_in 34 (c ∷ (s ++ 34 ∷ []))
            then without_last (c ∷ (s ++ 34 ∷ []))
            else 34 ∷ c ∷ (s ++ 34 ∷ []))
          (lt→ltb 1 (suc (suc (length (s ++ 34 ∷ [])))) (omega arith))
        ∙ ap (λ b. if b then without_last (c ∷ (s ++ 34 ∷ [])) else 34 ∷ c ∷ (s ++ 34 ∷ []))
            (ends_in-append 34 (c ∷ s))
        ∙ without_last-append 34 (c ∷ s)

unquoted-map :
    (args : List Text) → All IsArgument args → map unquoted (map wrap_with_quotes args) ≡ args
unquoted-map [] h = refl
unquoted-map (a ∷ rest) h = rw (unquoted-wrapped a h.0, unquoted-map rest h.1) refl

-- Arguments of ASCII characters that are not empty and hold no quotes, no backslashes, no tabs and
-- no NUL, wrapped by
-- `WrapWithQuotes` and joined by blanks, are split by `BuildArgv` into exactly themselves, in
-- order, also where they hold blanks.
pub build_argv-command_line :
    (args : List Text) → All IsArgument args → build_argv (command_line args) ≡ args
unfolding build_argv build_tokens
build_argv-command_line [] h = unfold scan_all push_token in refl
build_argv-command_line (a ∷ rest) h =
    let (scan, e, f) = scan-command_line a rest [] h in
    ap (λ s. map unquoted (push_token s.tokens s.current)) e
    ∙ ap (map unquoted) f
    ∙ unquoted-map (a ∷ rest) h
