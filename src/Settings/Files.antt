-- ===== src/Settings/Files.antt =====
-- The file of a project's state: SaveStateToFile of src/DebugAdapterClient/DAP_Breakpoints.cpp, of
-- DAP_Watches.cpp and of plugin.cpp.
use debugger_dap.Common.{
  ℕ, ◌≡◌, Bool, false, not, ◌&&◌, List, [], ◌∷◌, Option, some, length, filter, map, ◌==◌,
  if◌then◌else◌,
}
use debugger_dap.Text.{Text, codes, text_eq}
use debugger_dap.Breakpoints.State.{DapBreakpoint, State}
use debugger_dap.Settings.Xml.{Xml, Host, add_child_nodes}
use debugger_dap.Settings.Records.{DapWatch, save_breakpoint, save_watch}

-- What the code asks a project and its compiler.
pub record Project : Type 0 where
  pub number : ℕ
  pub filename : Text
  pub title : Text
  pub compiler_name : Text
  pub dbg_config : Text

-- The calls on files. `save_file` is XMLDocument::SaveFile of a document with one root, with its
-- error number; `held` is the root of the document that a file was written from.
pub record Files (Node Disk : Type 0) : Type 0 where
  pub state_path : Text → Text
  pub save_file : Text → Node → Disk → Disk × ℕ
  pub held : Text → Disk → Option Node

module _ {Node Disk : Type 0} (xml : Xml Node) (host : Host) (files : Files Node Disk) where
  -- The root, with what is known of the compiler.
  unfoldable pub state_root : Project → Node
  unfolding add_child_nodes
  state_root project = xml.insert_end_child (xml.new_element (codes "Debugger_layout_file")) (
      add_child_nodes xml host
        (("CompilerName", project.compiler_name) ∷ ("DBGconfig", project.dbg_config) ∷ [])
        (xml.new_element (codes "CompilerInfo")))

  unfoldable pub insert_all : List Node → Node → Node
  insert_all [] parent = parent
  insert_all (node ∷ rest) parent = insert_all rest (xml.insert_end_child parent node)

  -- A list with the number of all, of which those of the project are written.
  unfoldable pub list_element : Text → ℕ → List Node → Node
  unfolding insert_all
  list_element name count nodes =
      insert_all nodes (xml.set_attribute (codes "count") count (xml.new_element name))

  -- SaveFile, whose error is returned as a Boolean.
  unfoldable pub save_root : Project → Node → Disk → Disk × Bool
  save_root project root disk =
      let (after, error) = files.save_file (files.state_path project.filename) root disk in
      (after, not (error == 0))

  -- DBG_DAP_Breakpoints::SaveStateToFile
  unfoldable pub save_breakpoints : Project → State → Disk → Disk × Bool
  unfolding state_root list_element save_root save_breakpoint
  save_breakpoints project s disk =
      if text_eq project.filename []
      then (disk, false)
      else save_root project
          (xml.insert_end_child (state_root project) (
            list_element (codes "BreakpointsList") (length s.breakpoints) (
              map (λ r. save_breakpoint xml host project.title (s.objects r))
                (filter (λ r. DapBreakpoint.project (s.objects r) == project.number)
                  s.breakpoints))))
          disk

  abbrev pub is_saved : Project → DapWatch → Bool
  is_saved project w = w.project == project.number && not w.for_tooltip

  -- DBG_DAP_Watches::SaveStateToFile
  unfoldable pub save_watches : Project → List DapWatch → Disk → Disk × Bool
  unfolding state_root list_element save_root save_watch
  save_watches project watches disk =
      if text_eq project.filename []
      then (disk, false)
      else save_root project
          (xml.insert_end_child (state_root project) (
            list_element (codes "WatchesList") (length watches)
              (map (save_watch xml host project.title) (filter (is_saved project) watches))))
          disk

  -- Debugger_DAP::SaveStateToFile
  unfoldable pub save_state : Project → State → List DapWatch → Disk → Disk × Bool
  unfolding state_root save_root save_breakpoints save_watches
  save_state project s watches disk =
      if text_eq project.filename []
      then (disk, false)
      else let (with_breakpoints, _) = save_breakpoints project s disk in
        let (with_watches, _) = save_watches project watches with_breakpoints in
        save_root project (state_root project) with_watches

-- A file holds what it was written from, if it could be written.
abbrev pub FilesLaws : {Node Disk : Type 0} → Files Node Disk → Type 0
FilesLaws {Node} {Disk} files =
    (path : Text) (root : Node) (disk : Disk)
    → (files.save_file path root disk).1 ≡ 0
    → files.held path (files.save_file path root disk).0 ≡ some root
