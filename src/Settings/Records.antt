-- ===== src/Settings/Records.antt =====
-- DAPBreakpoint and DAPWatch of src/DebugAdapterClient/definitions.cpp and definitions.h: what is
-- written of them and how it is read.
use debugger_dap.Common.{
  ℕ, zero, Bool, true, false, List, [], ◌∷◌, String, Option, none, some, if◌then◌else◌,
}
use debugger_dap.Common.Int.{ℤ, pos}
use debugger_dap.Text.{Text, codes}
use debugger_dap.Breakpoints.State.{DapBreakpoint, BreakpointType, code, function, data_access}
use debugger_dap.Settings.Xml.{
  Xml, Host, bool_to_text, add_child_nodes, hex_text, read_text, read_long, read_int, read_hex,
  read_bool,
}

infixl 5 ◌>>=◌
abbrev ◌>>=◌ : {A B : Type 0} → Option A → (A → Option B) → Option B
o >>= f = elim o [ none ↦ none | some a ↦ f a ]

-- GetTypewxString
unfoldable pub type_text : BreakpointType → Text
type_text code = codes "bptCode"
type_text function = codes "bptFunction"
type_text data_access = codes "bptData"

-- WatchFormat
pub data WatchFormat : Type 0 where
  undefined decimal unsigned hex binary char float last any : WatchFormat

-- GetWatchFormatTowxString
unfoldable pub format_text : WatchFormat → Text
format_text undefined = codes "Undefined"
format_text decimal = codes "Decimal"
format_text unsigned = codes "Unsigned"
format_text hex = codes "Hex"
format_text binary = codes "Binary"
format_text char = codes "Char"
format_text float = codes "Float"
format_text last = codes "Last"
format_text any = codes "Any"

-- The members that are written, read or tested; a project is told by a number.
pub record DapWatch : Type 0 where
  pub project : ℕ
  pub class_name : Text
  pub symbol : Text
  pub value : Text
  pub type : Text
  pub format : WatchFormat
  pub debug_string : Text
  pub has_been_expanded : Bool
  pub for_tooltip : Bool
  pub delete_on_collapse : Bool
  pub array_start : ℤ
  pub array_end : ℤ
  pub is_array : Bool
  pub is_for_tooltip : Bool

module _ (host : Host) where
  -- SetType
  unfoldable pub set_type : Text → BreakpointType → BreakpointType
  set_type name old =
      if host.same_but_case name (codes "bptCode")
      then code
      else if host.same_but_case name (codes "bptFunction")
      then function
      else if host.same_but_case name (codes "bptData")
      then data_access
      else old

  -- GetWatchFormatFromwxString
  unfoldable pub format_from : Text → WatchFormat
  format_from name =
      if host.same_but_case name (codes "Undefined")
      then undefined
      else if host.same_but_case name (codes "Decimal")
      then decimal
      else if host.same_but_case name (codes "Unsigned")
      then unsigned
      else if host.same_but_case name (codes "Hex")
      then hex
      else if host.same_but_case name (codes "Binary")
      then binary
      else if host.same_but_case name (codes "Char")
      then char
      else if host.same_but_case name (codes "Float")
      then float
      else if host.same_but_case name (codes "Last")
      then last
      else if host.same_but_case name (codes "Any")
      then any
      else undefined

  -- The children of a breakpoint; `title` is the project's.
  unfoldable pub breakpoint_children : Text → DapBreakpoint → List (String × Text)
  unfolding type_text bool_to_text hex_text
  breakpoint_children title b =
      ("type", type_text b.type)
      ∷ ("projectTitle", title)
      ∷ ("filename", b.filename)
      ∷ ("line", host.format_int b.line)
      ∷ ("temporary", bool_to_text b.temporary)
      ∷ ("enabled", bool_to_text b.enabled)
      ∷ ("active", bool_to_text b.active)
      ∷ ("useIgnoreCount", bool_to_text b.use_ignore_count)
      ∷ ("ignoreCount", host.format_int b.ignore_count)
      ∷ ("useCondition", bool_to_text b.use_condition)
      ∷ ("wantsCondition", bool_to_text b.wants_condition)
      ∷ ("condition", b.condition)
      ∷ ("function", b.function)
      ∷ ("address", hex_text host b.address)
      ∷ ("alreadySet", bool_to_text b.already_set)
      ∷ ("lineText", b.line_text)
      ∷ ("breakAddress", b.break_address)
      ∷ ("breakOnRead", bool_to_text b.break_on_read)
      ∷ ("breakOnWrite", bool_to_text b.break_on_write)
      ∷ []

  -- The children of a watch; `title` is the project's.
  unfoldable pub watch_children : Text → DapWatch → List (String × Text)
  unfolding format_text bool_to_text
  watch_children title w =
      ("DAPWatchClassName", w.class_name)
      ∷ ("projectTitle", title)
      ∷ ("symbol", w.symbol)
      ∷ ("type", w.type)
      ∷ ("format", format_text w.format)
      ∷ ("debug_string", w.debug_string)
      ∷ ("has_been_expanded", bool_to_text w.has_been_expanded)
      ∷ ("for_tooltip", bool_to_text w.for_tooltip)
      ∷ ("delete_on_collapse", bool_to_text w.delete_on_collapse)
      ∷ ("array_start", host.format_int w.array_start)
      ∷ ("array_end", host.format_int w.array_end)
      ∷ ("is_array", bool_to_text w.is_array)
      ∷ ("forTooltip", bool_to_text w.is_for_tooltip)
      ∷ []

-- The conversion of a `long` to `bool`
unfoldable pub is_set : ℤ → Bool
is_set (pos zero) = false
is_set _ = true

module _ {Node : Type 0} (xml : Xml Node) (host : Host) where
  -- The node that SaveBreakpointToXML adds.
  unfoldable pub save_breakpoint : Text → DapBreakpoint → Node
  unfolding breakpoint_children add_child_nodes
  save_breakpoint title b =
      add_child_nodes xml host (breakpoint_children host title b)
        (xml.new_element (codes "Breakpoint"))

  -- The members that LoadBreakpointFromXML sets, the first part of that function; `none` where one
  -- gets no value. Its last part, which adds the breakpoint to the plugin or the editor, is left out.
  unfoldable pub load_breakpoint : Node → DapBreakpoint → Option DapBreakpoint
  unfolding set_type read_text read_int read_hex read_bool
  load_breakpoint node b = do
    line ← read_int xml host node "line"
    ignore_count ← read_int xml host node "ignoreCount"
    address ← read_hex xml host node "address"
    some (record b {
      type = set_type host (read_text xml host node "type") b.type;
      filename = read_text xml host node "filename";
      line = line;
      temporary = read_bool xml host node "temporary";
      enabled = read_bool xml host node "enabled";
      active = read_bool xml host node "active";
      use_ignore_count = read_bool xml host node "useIgnoreCount";
      ignore_count = ignore_count;
      use_condition = read_bool xml host node "useCondition";
      wants_condition = read_bool xml host node "wantsCondition";
      condition = read_text xml host node "condition";
      function = read_text xml host node "function";
      address = address;
      already_set = read_bool xml host node "alreadySet";
      line_text = read_text xml host node "lineText";
      break_address = read_text xml host node "breakAddress";
      break_on_read = read_bool xml host node "breakOnRead";
      break_on_write = read_bool xml host node "breakOnWrite";
    })

  -- The node that SaveWatchToXML adds.
  unfoldable pub save_watch : Text → DapWatch → Node
  unfolding watch_children add_child_nodes
  save_watch title w =
      add_child_nodes xml host (watch_children host title w) (xml.new_element (codes "Watch"))

  -- LoadWatchFromXML; `none` where a member gets no value.
  unfoldable pub load_watch : Node → DapWatch → Option DapWatch
  unfolding format_from read_text read_long read_int read_bool
  load_watch node w = do
    array_start ← read_int xml host node "array_start"
    array_end ← read_long xml host node "array_end"
    is_array ← read_long xml host node "is_array"
    some (record w {
      class_name = read_text xml host node "DAPWatchClassName";
      symbol = read_text xml host node "symbol";
      value = read_text xml host node "value";
      type = read_text xml host node "type";
      format = format_from host (read_text xml host node "format");
      debug_string = read_text xml host node "debug_string";
      has_been_expanded = read_bool xml host node "has_been_expanded";
      for_tooltip = read_bool xml host node "for_tooltip";
      delete_on_collapse = read_bool xml host node "delete_on_collapse";
      array_start = array_start;
      array_end = array_end;
      is_array = is_set is_array;
      is_for_tooltip = read_bool xml host node "forTooltip";
    })
