-- ===== src/Settings/Formats.antt =====
-- The formats of watches of Settings/Records, read back from their texts.
use debugger_dap.Common.{◌≡◌, refl, Bool, String, arith, map, if◌then◌else◌}
use debugger_dap.Text.{Text, codes, text_eq}
use debugger_dap.Settings.Xml.{Host}
use debugger_dap.Settings.Records.{
  format_text, format_from, WatchFormat, undefined, decimal, unsigned, hex, binary, char, float,
  last, any,
}
use debugger_dap.Settings.Reading.{lower, IsAscii, HostLaws}

-- GetWatchFormatFromwxString of a text, and which names it is told by.
format_by : (String → Bool) → WatchFormat
format_by is_name =
    if is_name "Undefined"
    then undefined
    else if is_name "Decimal"
    then decimal
    else if is_name "Unsigned"
    then unsigned
    else if is_name "Hex"
    then hex
    else if is_name "Binary"
    then binary
    else if is_name "Char"
    then char
    else if is_name "Float"
    then float
    else if is_name "Last"
    then last
    else if is_name "Any"
    then any
    else undefined

is_format_name : String → Text → Bool
is_format_name name t = text_eq (map lower t) (map lower (codes name))

format_text-IsAscii : (f : WatchFormat) → IsAscii (format_text f)
unfolding format_text
format_text-IsAscii undefined = ground arith
format_text-IsAscii decimal = ground arith
format_text-IsAscii unsigned = ground arith
format_text-IsAscii hex = ground arith
format_text-IsAscii binary = ground arith
format_text-IsAscii char = ground arith
format_text-IsAscii float = ground arith
format_text-IsAscii last = ground arith
format_text-IsAscii any = ground arith

format_from-IsAscii :
    (host : Host)
    → HostLaws host
    → (t : Text) → IsAscii t
    → format_from host t ≡ format_by (λ name. is_format_name name t)
unfolding format_from format_by is_format_name
format_from-IsAscii host laws t h =
    rw
      (
        laws.same_but_case_lem t (codes "Undefined") h (ground arith),
        laws.same_but_case_lem t (codes "Decimal") h (ground arith),
        laws.same_but_case_lem t (codes "Unsigned") h (ground arith),
        laws.same_but_case_lem t (codes "Hex") h (ground arith),
        laws.same_but_case_lem t (codes "Binary") h (ground arith),
        laws.same_but_case_lem t (codes "Char") h (ground arith),
        laws.same_but_case_lem t (codes "Float") h (ground arith),
        laws.same_but_case_lem t (codes "Last") h (ground arith),
        laws.same_but_case_lem t (codes "Any") h (ground arith),
      )
      refl

-- Under HostLaws, reading the text of a format of a watch gives back the format.
pub format_from-format_text :
    (host : Host) → HostLaws host → (f : WatchFormat) → format_from host (format_text f) ≡ f
unfolding format_text text_eq format_by is_format_name
format_from-format_text host laws undefined =
    format_from-IsAscii host laws (format_text undefined) (format_text-IsAscii undefined)
format_from-format_text host laws decimal =
    format_from-IsAscii host laws (format_text decimal) (format_text-IsAscii decimal)
format_from-format_text host laws unsigned =
    format_from-IsAscii host laws (format_text unsigned) (format_text-IsAscii unsigned)
format_from-format_text host laws hex =
    format_from-IsAscii host laws (format_text hex) (format_text-IsAscii hex)
format_from-format_text host laws binary =
    format_from-IsAscii host laws (format_text binary) (format_text-IsAscii binary)
format_from-format_text host laws char =
    format_from-IsAscii host laws (format_text char) (format_text-IsAscii char)
format_from-format_text host laws float =
    format_from-IsAscii host laws (format_text float) (format_text-IsAscii float)
format_from-format_text host laws last =
    format_from-IsAscii host laws (format_text last) (format_text-IsAscii last)
format_from-format_text host laws any =
    format_from-IsAscii host laws (format_text any) (format_text-IsAscii any)
