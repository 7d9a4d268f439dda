-- ===== src/Client/Queues/Pushed.antt =====
-- The queues under the entries that requests note (src/DebugAdapterProtocol/Client.cpp).
use debugger_dap.Common.{ℕ, ◌≡◌, refl, sym, [], ◌∷◌, ◌++◌, append-nil}
use debugger_dap.Common.Int.{ℤ}
use debugger_dap.Text.{Text}
use debugger_dap.Client.State.{Client, Context}
use debugger_dap.Client.Queues.{
  Queue, frames, scopes, variables, sources, evaluates, breakpoints, queue, nothing_noted,
  frame_note, scope_note, variable_note, source_note, evaluate_note, file_note, entry,
}

pub pushed-nothing : (q : Queue) (c : Client) → queue q c ≡ queue q c ++ entry q nothing_noted
pushed-nothing frames c = sym (append-nil c.frames_queue)
pushed-nothing q c = sym (append-nil (queue q c))

pub pushed-frames :
    (q : Queue) (c : Client) (id : ℤ)
    → queue q (record c { frames_queue = c.frames_queue ++ id ∷ [] })
      ≡ queue q c ++ entry q (frame_note id)
pushed-frames frames c id = refl
pushed-frames scopes c id = sym (append-nil c.scopes_queue)
pushed-frames q c id = sym (append-nil (queue q c))

pub pushed-scopes :
    (q : Queue) (c : Client) (id : ℤ)
    → queue q (record c { scopes_queue = c.scopes_queue ++ id ∷ [] })
      ≡ queue q c ++ entry q (scope_note id)
pushed-scopes scopes c id = refl
pushed-scopes frames c id = sym (append-nil c.frames_queue)
pushed-scopes q c id = sym (append-nil (queue q c))

pub pushed-variables :
    (q : Queue) (c : Client) (reference : ℤ) (context : Context)
    → queue q (record c { variables_queue = c.variables_queue ++ (reference, context) ∷ [] })
      ≡ queue q c ++ entry q (variable_note reference context)
pushed-variables variables c reference context = refl
pushed-variables frames c reference context = sym (append-nil c.frames_queue)
pushed-variables q c reference context = sym (append-nil (queue q c))

pub pushed-sources :
    (q : Queue) (c : Client) (callback : ℕ)
    → queue q (record c { sources_queue = c.sources_queue ++ callback ∷ [] })
      ≡ queue q c ++ entry q (source_note callback)
pushed-sources sources c callback = refl
pushed-sources frames c callback = sym (append-nil c.frames_queue)
pushed-sources q c callback = sym (append-nil (queue q c))

pub pushed-evaluates :
    (q : Queue) (c : Client) (callback : ℕ)
    → queue q (record c { evaluate_queue = c.evaluate_queue ++ callback ∷ [] })
      ≡ queue q c ++ entry q (evaluate_note callback)
pushed-evaluates evaluates c callback = refl
pushed-evaluates frames c callback = sym (append-nil c.frames_queue)
pushed-evaluates q c callback = sym (append-nil (queue q c))

pub pushed-breakpoints :
    (q : Queue) (c : Client) (file : Text)
    → queue q (record c { breakpoints_queue = c.breakpoints_queue ++ file ∷ [] })
      ≡ queue q c ++ entry q (file_note file)
pushed-breakpoints breakpoints c file = refl
pushed-breakpoints frames c file = sym (append-nil c.frames_queue)
pushed-breakpoints q c file = sym (append-nil (queue q c))
