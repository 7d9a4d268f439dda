-- ===== src/Client/Queues/Order.antt =====
-- The queues over a whole session (src/DebugAdapterProtocol/Client.cpp).
use debugger_dap.Common.{
  ◌≡◌, refl, sym, ap, ◌∙◌, true, List, [], ◌∷◌, ◌++◌, append-nil, append_assoc,
}
use debugger_dap.Client.State.{Client}
use debugger_dap.Client.Send.{Library, Effect}
use debugger_dap.Client.Core.{on_message-core}
use debugger_dap.Client.Sequence.{perform-transport}
use debugger_dap.Client.Queues.{
  Queue, Entry, queue, handed, handed_all, Conserves, Step, command, incoming, put, step, run,
  put_all,
}
use debugger_dap.Client.Queues.Messages.{on_message-Conserves}
use debugger_dap.Client.Queues.Commands.{perform-Conserves}

handed_all-append :
    (q : Queue) (es fs : List Effect) → handed_all q (es ++ fs) ≡ handed_all q es ++ handed_all q fs
handed_all-append q [] fs = refl
handed_all-append q (e ∷ es) fs =
    ap (λ l. handed q e ++ l) (handed_all-append q es fs)
    ∙ sym (append_assoc (handed q e) (handed_all q es) (handed_all q fs))

-- One step after another: what the first leaves is what the second begins with.
Conserves-append :
    (q : Queue) (c c' c'' : Client) (es fs : List Effect) (new later : List (Entry q))
    → Conserves q new c (c', es)
    → Conserves q later c' (c'', fs)
    → Conserves q (new ++ later) c (c'', es ++ fs)
Conserves-append q c c' c'' es fs new later h k =
    ap (λ l. l ++ queue q c'') (handed_all-append q es fs)
    ∙ append_assoc (handed_all q es) (handed_all q fs) (queue q c'')
    ∙ ap (λ l. handed_all q es ++ l) k
    ∙ sym (append_assoc (handed_all q es) (queue q c') later)
    ∙ ap (λ l. l ++ later) h
    ∙ append_assoc (queue q c) new later

module _ (library : Library) where
  step-Conserves :
      (q : Queue) (s : Step) (c : Client)
      → c.transport ≡ true
      → Conserves q (put q s c) c (step library s c)
  unfolding step
  step-Conserves q (command cmd) c e = perform-Conserves library q cmd c e
  step-Conserves q (incoming json) c e = on_message-Conserves library q json c

  step-transport :
      (s : Step) (c : Client) → c.transport ≡ true → (step library s c).0.transport ≡ true
  unfolding step
  step-transport (command cmd) c e = perform-transport library cmd c e
  step-transport (incoming json) c e = ap (λ k. k.transport) (on_message-core library json c) ∙ e

  -- In a session of commands and messages, in any order, with a transport: for each of the six
  -- queues, the entries handed back with events and callbacks, in the order of handing, and then
  -- those that still wait at the end, are exactly the entries that waited at the start and then
  -- those that the commands asked for, in the order of asking. No entry is lost, repeated or
  -- overtaken, whatever messages arrive.
  pub run-Conserves :
      (q : Queue) (steps : List Step) (c : Client)
      → c.transport ≡ true
      → Conserves q (put_all library q steps c) c (run library steps c)
  unfolding run put_all
  run-Conserves q [] c e = sym (append-nil (queue q c))
  run-Conserves q (s ∷ steps) c e =
      let r = step library s c in
      let last = run library steps r.0 in
      Conserves-append q c r.0 last.0 r.1 last.1 (put q s c) (put_all library q steps r.0)
        (step-Conserves q s c e) (run-Conserves q steps r.0 (step-transport s c e))
