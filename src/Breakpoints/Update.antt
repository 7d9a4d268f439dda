-- ===== src/Breakpoints/Update.antt =====
-- What the debugger is told: `UpdateDAPSetBreakpointsByFileName`
-- (src/DebugAdapterClient/DAP_Breakpoints.cpp). `none` is the read through `end()`.
use mathlib.Core.Option
use debugger_dap.Common.{
  ℕ, zero, suc, Bool, true, false, ◌&&◌, List, [], ◌∷◌, ◌++◌, Option, none, some, drop, take,
  if◌then◌else◌,
}
use debugger_dap.Text.{Text, find_char}
use debugger_dap.DebuggerState.{is_running, is_stopped}
use debugger_dap.Protocol.Requests.{SourceBreakpoint}
use debugger_dap.Client.Api.{set_breakpoints_file}
use debugger_dap.Breakpoints.State.{
  DapBreakpoint, Host, TextMap, State, tell, TestingOption, native_paths,
  linux_paths_with_drive_letter, linux_paths_with_no_colon, linux_paths_with_no_drive_letter,
  windows_paths_with_no_drive_letter, relative_to_executable,
}
use debugger_dap.Breakpoints.FileMap.{find_entry, insert_entry}

-- The lines of the enabled breakpoints of a container.
unfoldable pub enabled_lines : (ℕ → DapBreakpoint) → List ℕ → List SourceBreakpoint
enabled_lines objects [] = []
enabled_lines objects (r ∷ rest) =
    if (objects r).enabled
    then record { line = (objects r).line; condition = [] } ∷ enabled_lines objects rest
    else enabled_lines objects rest

-- The lines that are sent. With an empty map there are none; else the iterator that `find` returned
-- is read.
unfoldable pub lines_to_send :
    (ℕ → DapBreakpoint) → Text → TextMap (List ℕ) → Option (List SourceBreakpoint)
unfolding enabled_lines find_entry
lines_to_send objects filename [] = some []
lines_to_send objects filename (e ∷ m) =
    Option.map (enabled_lines objects) (find_entry filename (e ∷ m))

-- `fn.Find(':') == 1`
unfoldable pub has_drive : Option ℕ → Bool
has_drive (some (suc zero)) = true
has_drive _ = false

-- `fn.Remove(0, ColonLocation + 1)`
unfoldable pub without_drive : Text → Text
unfolding has_drive find_char
without_drive name = if has_drive (find_char b':' name) then drop 2 name else name

-- `fn.Remove(ColonLocation, 1); fn.Prepend("/")`
unfoldable pub without_colon : Text → Text
unfolding has_drive find_char
without_colon name =
    if has_drive (find_char b':' name) then b'/' ∷ take 1 name ++ drop 2 name else name

-- The switch over the testing option.
unfoldable pub name_by : TestingOption → Host → Text → Text → Text
unfolding without_drive without_colon
name_by native_paths host debuggee filename = host.unix_filename filename
name_by linux_paths_with_drive_letter host debuggee filename = host.unix_path filename
name_by linux_paths_with_no_colon host debuggee filename = without_colon (host.unix_path filename)
name_by linux_paths_with_no_drive_letter host debuggee filename =
    without_drive (host.unix_path filename)
name_by windows_paths_with_no_drive_letter host debuggee filename =
    without_drive (host.unix_filename filename)
name_by relative_to_executable host debuggee filename =
    let name = host.unix_filename filename in
    if host.exists name then host.relative_to debuggee name else name

unfoldable pub dap_name : Host → Text → Text → Text
unfolding name_by
dap_name host debuggee filename = name_by host.testing host debuggee filename

-- `m_map_fileSystemDap.insert`, where the file is not in the map yet
unfoldable pub note_name : Host → Text → Text → Option Text → TextMap Text → TextMap Text
unfolding insert_entry
note_name host filename name none names = insert_entry host.key_less filename name names
note_name host filename name (some known) names = names

unfoldable pub send_lines : Host → Text → List SourceBreakpoint → State → State
unfolding dap_name note_name tell
send_lines host filename lines s =
    let name = dap_name host s.debuggee filename in
    let noted : State = record s {
      dap_names = note_name host filename name (find_entry filename s.dap_names) s.dap_names;
    } in
    tell host (set_breakpoints_file name lines) noted

-- `UpdateDAPSetBreakpointsByFileName`
unfoldable pub update_dap : Host → Text → State → Option State
unfolding lines_to_send send_lines is_running is_stopped
update_dap host filename s =
    if is_running s.flags && is_stopped s.flags
    then Option.map (λ lines. send_lines host filename lines s)
        (lines_to_send s.objects filename s.file_map)
    else some s
