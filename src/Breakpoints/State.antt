-- ===== src/Breakpoints/State.antt =====
-- The breakpoint objects (DAPBreakpoint in src/DebugAdapterClient/definitions.h) and the state of
-- DBG_DAP_Breakpoints (src/DebugAdapterClient/DAP_Breakpoints.h). The containers share the objects
-- through pointers, so the state has a store: a pointer is a number, and `objects` says what stands
-- there. An `int` is an integer; its overflow is not modelled.
use debugger_dap.Common.{ℕ, Bool, true, false, List, [], ◌++◌, Option, ◌==◌, if◌then◌else◌, map}
use debugger_dap.Common.Int.{ℤ, negsuc}
use debugger_dap.Text.{Text}
use debugger_dap.Client.State.{Client}
use debugger_dap.Client.Send.{Library, Effect}
use debugger_dap.Client.Api.{Command, perform}

-- `BreakpointType`
pub data BreakpointType : Type 0 where
  code function data_access : BreakpointType

-- The fields of the class but for the logger. A project is told by a number.
pub record DapBreakpoint : Type 0 where
  pub type : BreakpointType
  pub project : ℕ
  pub filename : Text
  pub line : ℤ
  pub id : ℤ
  pub temporary : Bool
  pub enabled : Bool
  pub active : Bool
  pub use_ignore_count : Bool
  pub ignore_count : ℤ
  pub use_condition : Bool
  pub wants_condition : Bool
  pub condition : Text
  pub function : Text
  pub address : ℕ
  pub already_set : Bool
  pub line_text : Text
  pub break_address : Text
  pub break_on_read : Bool
  pub break_on_write : Bool

-- -1
abbrev pub minus_one : ℤ
minus_one = negsuc 0

-- The constructor with a place.
unfoldable pub placed : ℕ → Text → ℤ → ℤ → DapBreakpoint
placed project filename line id = record {
  type = code;
  project = project;
  filename = filename;
  line = line;
  id = id;
  temporary = false;
  enabled = true;
  active = true;
  use_ignore_count = false;
  ignore_count = ℤ.pos 0;
  use_condition = false;
  wants_condition = false;
  condition = [];
  function = [];
  address = 0;
  already_set = false;
  line_text = [];
  break_address = [];
  break_on_read = false;
  break_on_write = true;
}

unfoldable pub location_of : BreakpointType → DapBreakpoint → Text
location_of code b = b.filename
location_of function b = b.filename
location_of data_access b = b.break_address

-- `GetLocation`
unfoldable pub get_location : DapBreakpoint → Text
unfolding location_of
get_location b = location_of b.type b

-- `eDebugTestingOptions`
pub data TestingOption : Type 0 where
  native_paths linux_paths_with_drive_letter linux_paths_with_no_colon : TestingOption
  linux_paths_with_no_drive_letter windows_paths_with_no_drive_letter : TestingOption
  relative_to_executable : TestingOption

-- `ResetDataType`
pub data ResetDataType : Type 0 where
  normal startup all_data : ResetDataType

-- The start types that the code asks for, and the others.
pub data StartType : Type 0 where
  unknown step_into other : StartType

-- What the code takes from Code::Blocks, wxWidgets and the settings.
pub record Host : Type 0 where
  pub library : Library
  -- the order of the keys of a std::map<wxString, …>
  pub key_less : Text → Text → Bool
  -- `FindProjectForFile`
  pub project_of : Text → ℕ
  -- `UnixFilename(name)` and `UnixFilename(name, wxPATH_UNIX)`
  pub unix_filename : Text → Text
  pub unix_path : Text → Text
  -- `wxFileName(name).Exists()`, and `MakeRelativeTo` the path of the first file
  pub exists : Text → Bool
  pub relative_to : Text → Text → Text
  -- `wxString::Format("%d", n)`, `ToLong` and `IsSameAs(…, false)`
  pub format_int : ℤ → Text
  pub to_long : Text → Option ℤ
  pub same_but_case : Text → Text → Bool
  -- `substr(start)`, where no start is `npos` and no text an exception
  pub substr : Text → Option ℕ → Option Text
  pub testing : TestingOption
  pub exception_catch : Bool
  pub exception_throw : Bool

-- What was done to the outside: by the client, or in the editor.
pub data Done : Type 0 where
  told : Effect → Done
  synced : Text → ℤ → Done

-- A std::map, in the order of its keys.
abbrev pub TextMap {ℓ} : Type ℓ → Type ℓ
TextMap A = List (Text × A)

-- The members of DBG_DAP_Breakpoints, the store, the word of the session's flags, the client that
-- `m_pDAPClient` points to, and what was done so far.
pub record State : Type 0 where
  pub objects : ℕ → DapBreakpoint
  pub fresh : ℕ
  pub breakpoints : List ℕ
  pub temporary_breakpoints : List ℕ
  pub file_map : TextMap (List ℕ)
  pub dap_names : TextMap Text
  pub debuggee : Text
  pub exception_filters : List Text
  pub start_type : StartType
  pub flags : ℕ
  pub client : Client
  pub trace : List Done

-- A store with another object under a pointer.
unfoldable pub write : (ℕ → DapBreakpoint) → ℕ → DapBreakpoint → ℕ → DapBreakpoint
write objects pointer b r = if r == pointer then b else objects r

unfoldable pub set_object : State → ℕ → DapBreakpoint → State
unfolding write
set_object s pointer b = record s { objects = write s.objects pointer b }

-- A call of the client.
unfoldable pub tell : Host → Command → State → State
tell host command s =
    let (c, effects) = perform host.library command s.client in
    record s { client = c; trace = s.trace ++ map told effects }
