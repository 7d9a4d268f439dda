-- ===== src/Text/Slashes.antt =====
-- `ConvertSlashes` and the path functions on top of it (src/DebugAdapterProtocol/StringUtils.cpp).
use debugger_dap.Common.{
  ℕ, ◌≡◌, ◌≢◌, refl, ap, ◌∙◌, subst, false, Bool-cases, inl, inr, ◌%◌, ◌<◌, ◌&&◌, [], ◌∷◌, ◌==◌,
  if◌then◌else◌, arith,
}
use debugger_dap.Text.Defs.{Text}

-- `ch = target` where it is the source.
abbrev pub converted : ℕ → ℕ → ℕ → ℕ
converted source target ch = if ch == source then target else ch

-- What `last_char`, a `char`, keeps of a character, as a number from 0 to 255.
abbrev pub low_byte : ℕ → ℕ
low_byte ch = ch % 256

-- The loop of `ConvertSlashes`, with its `last_char`; the target is an ASCII character.
unfoldable pub convert_from : ℕ → ℕ → ℕ → Text → Text
convert_from source target last [] = []
convert_from source target last (c ∷ s) =
    let ch = converted source target c in
    let rest = convert_from source target (low_byte ch) s in
    if ch == target && last == target then rest else ch ∷ rest

unfoldable pub convert_slashes : Text → ℕ → ℕ → Text
unfolding convert_from
convert_slashes path source target = convert_from source target 0 path

-- `ToUnixPath`
unfoldable pub to_unix_path : Text → Text
unfolding convert_slashes
to_unix_path path = convert_slashes path 92 47

-- `ToNativePath` where PATH_SEP is a slash.
unfoldable pub to_native_path : Text → Text
unfolding convert_slashes
to_native_path path = convert_slashes path 92 47

-- Behind the character `last`: no source characters, and no target character behind another one.
abbrev pub IsSmooth : ℕ → ℕ → ℕ → Text → Type 0
IsSmooth source target last [] = Unit
IsSmooth source target last (c ∷ s) =
    (c ≢ source) × ((c == target && last == target) ≡ false) × IsSmooth source target c s

-- The same, behind a character of which `last` is the low byte.
IsClean : ℕ → ℕ → ℕ → Text → Type 0
IsClean source target last [] = Unit
IsClean source target last (c ∷ s) =
    (c ≢ source) × ((c == target && last == target) ≡ false) × IsClean source target (low_byte c) s

IsClean-IsSmooth :
    (source target last : ℕ) (s : Text)
    → target < 128
    → IsClean source target (low_byte last) s
    → IsSmooth source target last s
unfolding IsClean
IsClean-IsSmooth source target last [] ascii h = tt
IsClean-IsSmooth source target last (c ∷ s) ascii (n, apart, rest) =
    (n, ground (arith, apart), IsClean-IsSmooth source target c s ascii rest)

converted-ne-source : (source target c : ℕ) → source ≢ target → converted source target c ≢ source
converted-ne-source source target c n = ground (arith, n)

converted-same : (source target c : ℕ) → c ≢ source → converted source target c ≡ c
converted-same source target c n = ground (arith, n)

convert_from-IsClean :
    (source target last : ℕ) (path : Text)
    → source ≢ target
    → target < 128
    → IsClean source target last (convert_from source target last path)
unfolding convert_from IsClean
convert_from-IsClean source target last [] n ascii = tt
convert_from-IsClean source target last (c ∷ s) n ascii =
    let ch = converted source target c in
    let rest = convert_from-IsClean source target (low_byte ch) s n ascii in
    elim (Bool-cases (ch == target && last == target)) [
      | inl skipped ↦
          let same_last : low_byte ch ≡ last = ground (arith, skipped) in
          rw skipped (
            subst (λ l. IsClean source target l (convert_from source target (low_byte ch) s))
              same_last rest)
      | inr kept ↦ rw kept (converted-ne-source source target c n, kept, rest)
    ]

convert_from-clean :
    (source target last : ℕ) (path : Text)
    → IsClean source target last path
    → convert_from source target last path ≡ path
unfolding convert_from IsClean
convert_from-clean source target last [] h = refl
convert_from-clean source target last (c ∷ s) h =
    ap
      (λ ch.
        if ch == target && last == target
        then convert_from source target (low_byte ch) s
        else ch ∷ convert_from source target (low_byte ch) s)
      (converted-same source target c h.0)
    ∙ ap
        (λ b.
          if b
          then convert_from source target (low_byte c) s
          else c ∷ convert_from source target (low_byte c) s)
        h.1
    ∙ ap (λ t. c ∷ t) (convert_from-clean source target (low_byte c) s h.2)

-- Where the two characters differ and the target is ASCII, `ConvertSlashes` leaves no source
-- character and no two target characters in a row, and converting its result again changes nothing.
pub convert_slashes_lem :
    (path : Text) (source target : ℕ)
    → source ≢ target
    → target < 128
    → IsSmooth source target 0 (convert_slashes path source target)
      × (convert_slashes (convert_slashes path source target) source target
          ≡ convert_slashes path source target)
unfolding convert_slashes
convert_slashes_lem path source target n ascii =
    let clean = convert_from-IsClean source target 0 path n ascii in
    (
      IsClean-IsSmooth source target 0 (convert_from source target 0 path) ascii clean,
      convert_from-clean source target 0 (convert_from source target 0 path) clean,
    )
