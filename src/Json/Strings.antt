-- ===== src/Json/Strings.antt =====
-- Texts on their way into a tree and out of it: `Add` with a wxString and `GetString` of
-- src/DebugAdapterProtocol/JSON.cpp.
use debugger_dap.Common.{
  ◌≡◌, refl, Bool, true, ◌&&◌, List, [], ◌∷◌, map, some, ◌==◌, ltb, if◌then◌else◌, arith,
}
use debugger_dap.Text.{Text}
use debugger_dap.Json.{Node, Json, text, array, read_items}

-- The conversions of wxWidgets: `mb_str(wxConvUTF8)`, and the wxString of a `char*` in the current
-- locale.
pub record Encoding : Type 0 where
  pub to_utf8 : Text → Text
  pub from_locale : Text → Text

-- What a `char*` shows of an array of bytes.
unfoldable pub until_nul : Text → Text
until_nul [] = []
until_nul (c ∷ s) = let rest = until_nul s in if c == 0 then [] else c ∷ rest

-- `cJSON_CreateString(value.mb_str(wxConvUTF8).data())`
abbrev pub string_to : Encoding → Text → Node
string_to encoding value = text (until_nul (encoding.to_utf8 value))

-- `GetString`
abbrev pub string_from : Encoding → Json → Text → Text
string_from encoding (some (text value)) default_value = encoding.from_locale value
string_from encoding _ default_value = default_value

-- `GetStringArray`
unfoldable pub strings_from : Encoding → Json → List Text
unfolding read_items
strings_from encoding (some (array items)) =
    map (λ value. string_from encoding value []) (read_items (some (array items)))
strings_from encoding _ = []

-- Characters of ASCII other than NUL.
abbrev pub is_plain : Text → Bool
is_plain [] = true
is_plain (c ∷ s) = ltb 0 c && (ltb c 128 && is_plain s)

abbrev pub IsPlain : Text → Type 0
IsPlain s = is_plain s ≡ true

-- Both conversions leave such texts alone, whatever the locale.
pub record EncodingLaws (encoding : Encoding) : Type 0 where
  pub to_utf8-plain : (s : Text) → IsPlain s → encoding.to_utf8 s ≡ s
  pub from_locale-plain : (s : Text) → IsPlain s → encoding.from_locale s ≡ s

until_nul-plain : (s : Text) → IsPlain s → until_nul s ≡ s
unfolding until_nul
until_nul-plain [] h = refl
until_nul-plain (c ∷ s) h = ground (arith, h, until_nul-plain s (ground (arith, h)))

pub string_back :
    (encoding : Encoding)
    → EncodingLaws encoding
    → (s : Text) → IsPlain s
    → encoding.from_locale (until_nul (encoding.to_utf8 s)) ≡ s
string_back encoding laws s h =
    rw (laws.to_utf8-plain s h, until_nul-plain s h) (laws.from_locale-plain s h)
