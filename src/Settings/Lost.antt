-- ===== src/Settings/Lost.antt =====
-- What is left of a project's state when Debugger_DAP::SaveStateToFile returns.
use debugger_dap.Common.{
  ◌≡◌, ◌≢◌, refl, ap, ◌∙◌, Bool, false, not, ◌==◌, List, [], ◌∷◌, String, Option, none, some,
  if◌then◌else◌,
}
use debugger_dap.Text.{Text, codes, text_eq}
use debugger_dap.Breakpoints.State.{State}
use debugger_dap.Settings.Xml.{Xml, Host, add_child_node, add_child_nodes}
use debugger_dap.Settings.Records.{DapWatch}
use debugger_dap.Settings.Reading.{XmlLaws, or_else}
use debugger_dap.Settings.Files.{
  Project, Files, FilesLaws, state_root, save_root, save_breakpoints, save_watches, save_state,
}

not_empty : (t : Text) → t ≢ [] → text_eq t [] ≡ false
unfolding text_eq
not_empty [] h = absurd (h refl)
not_empty (c ∷ t) h = refl

module _ {Node Disk : Type 0} (xml : Xml Node) (host : Host) (laws : XmlLaws xml)
    (files : Files Node Disk) where
  name_of-add_child_nodes :
      (entries : List (String × Text)) (parent : Node)
      → xml.name_of (add_child_nodes xml host entries parent) ≡ xml.name_of parent
  unfolding add_child_nodes add_child_node
  name_of-add_child_nodes [] parent = refl
  name_of-add_child_nodes ((n, value) ∷ rest) parent =
      name_of-add_child_nodes rest (add_child_node xml host (codes n) value parent)
      ∙ laws.name-insert parent (xml.set_text (host.mb_str value) (xml.new_element (codes n)))

  -- The root without a list has one child, which has another name.
  state_root-no_list :
      (project : Project) (name : Text)
      → text_eq (codes "CompilerInfo") name ≡ false
      → xml.first_child_element (state_root xml host files project) name ≡ none
  unfolding state_root
  state_root-no_list project name other =
      let root = xml.new_element (codes "Debugger_layout_file") in
      let info =
        add_child_nodes xml host
          (("CompilerName", project.compiler_name) ∷ ("DBGconfig", project.dbg_config) ∷ [])
          (xml.new_element (codes "CompilerInfo")) in
      let found : Text → Option Node = λ t. if text_eq t name then some info else none in
      laws.first-insert root info name
      ∙ ap (λ o. or_else o (found (xml.name_of info)))
          (laws.first-new (codes "Debugger_layout_file") name)
      ∙ ap found (
          name_of-add_child_nodes
            (("CompilerName", project.compiler_name) ∷ ("DBGconfig", project.dbg_config) ∷ [])
            (xml.new_element (codes "CompilerInfo"))
          ∙ laws.name-new (codes "CompilerInfo"))
      ∙ ap (λ b. if b then some info else none) other

  -- The state is saved last of all.
  save_state-save_root :
      (project : Project) (s : State) (watches : List DapWatch) (disk : Disk)
      → project.filename ≢ []
      → (before : Disk) × (save_state xml host files project s watches disk
          ≡ save_root xml host files project (state_root xml host files project) before)
  unfolding save_state save_watches save_breakpoints
  save_state-save_root project s watches disk named =
      let before =
        (save_watches xml host files project watches
          (save_breakpoints xml host files project s disk).0).0 in
      (
        before,
        ap
            (λ b.
              if b
              then (disk, false)
              else save_root xml host files project (state_root xml host files project) before)
            (not_empty project.filename named),
      )

  -- Under XmlLaws and FilesLaws, where the project has a file name and files can be written, saving
  -- the state of a project returns false, and the file holds a root with neither a list of
  -- breakpoints nor one of watches, whatever breakpoints and watches there are.
  pub save_state-none :
      FilesLaws files
      → (project : Project) (s : State) (watches : List DapWatch) (disk : Disk)
      → project.filename ≢ []
      → ((path : Text) (root : Node) (d : Disk) → (files.save_file path root d).1 ≡ 0)
      → (root : Node) × (files.held
            (files.state_path project.filename)
            (save_state xml host files project s watches disk).0
          ≡ some root)
        × (xml.first_child_element root (codes "BreakpointsList") ≡ none)
        × (xml.first_child_element root (codes "WatchesList") ≡ none)
        × ((save_state xml host files project s watches disk).1 ≡ false)
  unfolding save_root
  save_state-none files_laws project s watches disk named written =
      let path = files.state_path project.filename in
      let root = state_root xml host files project in
      let (before, e) = save_state-save_root project s watches disk named in
      (
        root,
        ap (λ saved. let q : Disk × Bool = saved in files.held path q.0) e
            ∙ files_laws path root before (written path root before),
        state_root-no_list project (codes "BreakpointsList") (unfold text_eq in refl),
        state_root-no_list project (codes "WatchesList") (unfold text_eq in refl),
        ap (λ saved. let q : Disk × Bool = saved in q.1) e
            ∙ ap (λ error. not (error == 0)) (written path root before),
      )
