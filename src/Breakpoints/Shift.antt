-- ===== src/Breakpoints/Shift.antt =====
-- `ShiftAllFileBreakpoints` (src/DebugAdapterClient/DAP_Breakpoints.cpp), called when lines are added
-- to a file or taken from it in the editor.
use mathlib.Core.Option
use debugger_dap.Common.{ℕ, Bool, ◌&&◌, List, [], ◌∷◌, Option, some, ◌==◌, if◌then◌else◌}
use debugger_dap.Common.Int.{ℤ, pos, leb_ℤ, ltb_ℤ, ◌+ℤ◌, ◌-ℤ◌}
use debugger_dap.Text.{Text, text_eq}
use debugger_dap.Breakpoints.State.{DapBreakpoint, Host, State, set_object}
use debugger_dap.Breakpoints.Actions.{source_name, delete_breakpoint}

-- The last line of the lines that are taken out.
unfoldable pub end_line : ℤ → ℤ → ℤ
unfolding ◌-ℤ◌
end_line start_line lines = start_line -ℤ lines -ℤ pos 1

-- The breakpoints that the shift is about.
unfoldable pub is_behind : ℕ → Text → ℤ → DapBreakpoint → Bool
is_behind project filename start_line b =
    b.project == project && (text_eq b.filename filename && leb_ℤ start_line b.line)

-- A breakpoint on a line that is taken out.
unfoldable pub is_cut : ℤ → ℤ → DapBreakpoint → Bool
unfolding end_line
is_cut start_line lines b = ltb_ℤ lines (pos 0) && leb_ℤ b.line (end_line start_line lines)

-- `SetShiftLines`
unfoldable pub shifted : ℤ → DapBreakpoint → DapBreakpoint
unfolding ◌+ℤ◌
shifted lines b = record b { line = b.line +ℤ lines }

-- One round of the loop: the store after it.
unfoldable pub shift_object : ℕ → Text → ℤ → ℤ → ℕ → State → State
unfolding is_behind is_cut shifted set_object
shift_object project filename start_line lines r s =
    if is_behind project filename start_line (s.objects r)
    then if is_cut start_line lines (s.objects r)
      then s
      else set_object s r (shifted lines (s.objects r))
    else s

-- The loop over `m_breakpoints`, with the breakpoints that it marks for removal.
unfoldable pub shift_loop : ℕ → Text → ℤ → ℤ → List ℕ → State → List ℕ × State
unfolding is_behind is_cut shift_object
shift_loop project filename start_line lines [] s = ([], s)
shift_loop project filename start_line lines (r ∷ rest) s =
    let (cut, t) =
      shift_loop project filename start_line lines rest
        (shift_object project filename start_line lines r s) in
    let b = s.objects r in
    (
      if is_behind project filename start_line b && is_cut start_line lines b then r ∷ cut else cut,
      t,
    )

unfoldable pub delete_all : Host → List ℕ → State → Option State
unfolding delete_breakpoint
delete_all host [] s = some s
delete_all host (r ∷ rest) s = Option.bind (delete_breakpoint host r s) (delete_all host rest)

-- `ShiftAllFileBreakpoints`
unfoldable pub shift_all_file_breakpoints : Host → Text → ℤ → ℤ → State → Option State
unfolding shift_loop delete_all source_name
shift_all_file_breakpoints host filename start_line lines s =
    let file = source_name filename s.dap_names in
    let (cut, t) = shift_loop (host.project_of file) file start_line lines s.breakpoints s in
    delete_all host cut t
