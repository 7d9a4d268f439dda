-- ===== src/Client/Wire/Numbers.antt =====
-- The requests of a whole session and their numbers (src/DebugAdapterProtocol/Client.cpp).
use debugger_dap.Common.{
  ℕ, ◌+◌, ◌<◌, ◌≤◌, ◌≡◌, refl, sym, ap, ◌∙◌, subst, inl, inr, Bool, true, false, List, [], ◌∷◌,
  ◌++◌, map, arith,
}
use debugger_dap.Common.Int.{pos, int_of, int_of_lem, int_half}
use debugger_dap.Json.{Node}
use debugger_dap.Rpc.{frame}
use debugger_dap.Protocol.RoundTrip.{seq_of}
use debugger_dap.Client.State.{Client}
use debugger_dap.Client.Send.{Library, Effect}
use debugger_dap.Client.Api.{Command, perform}
use debugger_dap.Client.Transmit.{transmitted}
use debugger_dap.Client.Core.{on_message-core}
use debugger_dap.Client.Sequence.{perform-HasSent, perform-transport}
use debugger_dap.Client.Queues.{Step, command, incoming, step, run}
use debugger_dap.Client.Wire.{sent_bytes, sent_bytes-append, on_message-sends_nothing}

-- The trees have the counter's values, as ints, which ascend strictly above the first bound and up
-- to the second.
abbrev pub IsCounted : ℕ → List Node → ℕ → Type 0
IsCounted low [] high = low ≤ high
IsCounted low (tree ∷ trees) high =
    (n : ℕ) × (seq_of tree ≡ int_of n) × (low < n) × IsCounted n trees high

-- The numbers of the trees themselves ascend strictly.
abbrev pub IsAscending : ℕ → List Node → ℕ → Type 0
IsAscending low [] high = low ≤ high
IsAscending low (tree ∷ trees) high =
    (n : ℕ) × (seq_of tree ≡ pos n) × (low < n) × IsAscending n trees high

IsCounted-le : (low : ℕ) (trees : List Node) (high : ℕ) → IsCounted low trees high → low ≤ high
IsCounted-le low [] high h = h
IsCounted-le low (tree ∷ trees) high (n, e, above, rest) =
    omega (arith, IsCounted-le n trees high rest)

IsCounted-IsAscending :
    (low : ℕ) (trees : List Node) (high : ℕ)
    → high < int_half
    → IsCounted low trees high
    → IsAscending low trees high
IsCounted-IsAscending low [] high bound h = h
IsCounted-IsAscending low (tree ∷ trees) high bound (n, e, above, rest) =
    let below : n < int_half = omega (arith, IsCounted-le n trees high rest) in
    (n, e ∙ int_of_lem n below, above, IsCounted-IsAscending n trees high bound rest)

IsCounted-lower :
    (low n : ℕ) (trees : List Node) (high : ℕ)
    → n ≤ low
    → IsCounted low trees high
    → IsCounted n trees high
IsCounted-lower low n [] high h k = omega arith
IsCounted-lower low n (tree ∷ trees) high h (m, e, above, rest) = (m, e, omega arith, rest)

module _ (library : Library) where
  -- What was sent are the frames of requests whose numbers ascend from `low` to the counter.
  pub record IsNumbered (low : ℕ) (r : Client × List Effect) : Type 0 where
    pub trees : List Node
    pub frames : sent_bytes r.1 ≡ map (λ tree. frame (library.print tree)) trees
    pub counted : IsCounted low trees r.0.sequence

  sent_bytes-transmitted :
      (tree : Node) (b : Bool)
      → sent_bytes (transmitted library tree b) ≡ frame (library.print tree) ∷ []
  sent_bytes-transmitted tree true = refl
  sent_bytes-transmitted tree false = refl

  perform-IsNumbered :
      (cmd : Command) (c : Client)
      → c.transport ≡ true
      → IsNumbered c.sequence (perform library cmd c)
  perform-IsNumbered cmd c e = elim (perform-HasSent library cmd c e) [
    | inl same ↦
        subst (IsNumbered c.sequence) (sym same)
          (record { trees = []; frames = refl; counted = omega arith })
    | inr h ↦ record {
      trees = h.tree ∷ [];
      frames = ap sent_bytes h.effects ∙ sent_bytes-transmitted h.tree c.wants_log;
      counted = (
        c.sequence + 1,
        h.is_next,
        omega arith,
        omega (arith, ap (λ k. k.sequence) h.connection, h.is_taken),
      );
    }
  ]

  step-IsNumbered :
      (s : Step) (c : Client) → c.transport ≡ true → IsNumbered c.sequence (step library s c)
  unfolding step
  step-IsNumbered (command cmd) c e = perform-IsNumbered cmd c e
  step-IsNumbered (incoming json) c e = record {
    trees = [];
    frames = on_message-sends_nothing library json c;
    counted = omega (arith, ap (λ k. k.sequence) (on_message-core library json c));
  }

  step-linked : (s : Step) (c : Client) → c.transport ≡ true → (step library s c).0.transport ≡ true
  unfolding step
  step-linked (command cmd) c e = perform-transport library cmd c e
  step-linked (incoming json) c e = ap (λ k. k.transport) (on_message-core library json c) ∙ e

  IsCounted-append :
      (low middle high : ℕ) (xs ys : List Node)
      → IsCounted low xs middle
      → IsCounted middle ys high
      → IsCounted low (xs ++ ys) high
  IsCounted-append low middle high [] ys h k = IsCounted-lower middle low ys high h k
  IsCounted-append low middle high (x ∷ xs) ys (n, e, above, rest) k =
      (n, e, above, IsCounted-append n middle high xs ys rest k)

  map-frames :
      (xs ys : List Node)
      → map (λ tree. frame (library.print tree)) (xs ++ ys)
        ≡ map (λ tree. frame (library.print tree)) xs ++ map (λ tree. frame (library.print tree)) ys
  map-frames [] ys = refl
  map-frames (x ∷ xs) ys = ap (λ l. frame (library.print x) ∷ l) (map-frames xs ys)

  -- The numbers are the counter's, as ints.
  session-IsNumbered :
      (steps : List Step) (c : Client)
      → c.transport ≡ true
      → IsNumbered c.sequence (run library steps c)
  unfolding run
  session-IsNumbered [] c e = record { trees = []; frames = refl; counted = omega arith }
  session-IsNumbered (s ∷ steps) c e =
      let r = step library s c in
      let first = step-IsNumbered s c e in
      let rest = session-IsNumbered steps r.0 (step-linked s c e) in
      record {
        trees = first.trees ++ rest.trees;
        frames =
            sent_bytes-append r.1 (run library steps r.0).1
            ∙ ap (λ l. l ++ sent_bytes (run library steps r.0).1) first.frames
            ∙ ap (λ l. map (λ tree. frame (library.print tree)) first.trees ++ l) rest.frames
            ∙ sym (map-frames first.trees rest.trees);
        counted =
            IsCounted-append c.sequence r.0.sequence (run library steps r.0).0.sequence first.trees
              rest.trees first.counted rest.counted;
      }

  -- On a client with a transport, in a session of commands and messages that ends with a counter
  -- below 2^31, all that is sent are the frames of requests whose numbers ascend strictly, from
  -- above the counter at the start up to the counter at the end.
  pub run-IsNumbered :
      (steps : List Step) (c : Client)
      → c.transport ≡ true
      → (run library steps c).0.sequence < int_half
      → (trees : List Node) × (sent_bytes (run library steps c).1
          ≡ map (λ tree. frame (library.print tree)) trees)
        × IsAscending c.sequence trees (run library steps c).0.sequence
  run-IsNumbered steps c e bound =
      let h = session-IsNumbered steps c e in
      (
        h.trees,
        h.frames,
        IsCounted-IsAscending c.sequence h.trees (run library steps c).0.sequence bound h.counted,
      )
