-- ===== src/Client/Receive/Stream.antt =====
-- The client over the chunks of a sequence of frames (src/DebugAdapterProtocol/Client.cpp).
use debugger_dap.Common.{
  ℕ, zero, suc, ◌≡◌, refl, sym, ap, ◌∙◌, List, [], ◌∷◌, ◌++◌, Option, some, length, append_assoc,
  concat,
}
use debugger_dap.Text.{Text}
use debugger_dap.Json.{Node}
use debugger_dap.Rpc.{
  Host, HostLaws, Outcome, idle, fault, message, Run, Ending, quiet, faulted, exhausted,
  do_process_buffer, after_call, after_chunk, drain, process_buffer, on_data_read, feed, stream,
}
use debugger_dap.Rpc.Stream.{Carried, feed-stream}
use debugger_dap.Client.State.{Client}
use debugger_dap.Client.Send.{Library, Effect, Action}
use debugger_dap.Client.Dispatch.{on_message}
use debugger_dap.Client.Buffer.{with_buffer, on_message-buffer}
use debugger_dap.Client.Queues.{Step, incoming, step, run}
use debugger_dap.Client.Receive.{after_outcome, process_messages, read_data, receive}

-- The messages of the nodes.
abbrev pub arrivals : List Node → List Step
arrivals [] = []
arrivals (node ∷ nodes) = incoming (some node) ∷ arrivals nodes

arrivals-append : (xs ys : List Node) → arrivals (xs ++ ys) ≡ arrivals xs ++ arrivals ys
arrivals-append [] ys = refl
arrivals-append (x ∷ xs) ys = ap (λ l. incoming (some x) ∷ l) (arrivals-append xs ys)

module _ (host : Host) (library : Library) (parse : Text → Option Node) where
  -- What the client does with what the framing hands out.
  abbrev delivered : Run Node → Client → Client × List Effect
  delivered r c = with_buffer r.buffer (run library (arrivals r.messages) c)

  -- One more round, on a client that is given its buffer.
  round :
      (o : Outcome Node × Text) (b : Text) (c : Client) (again : Action) (f : Text → Run Node)
      → ((b : Text) (c : Client) → again (record c { buffer = b }) ≡ delivered (f b) c)
      → after_outcome host library parse o (record c { buffer = b }) again
        ≡ delivered (after_call host parse o f) c
  unfolding after_outcome after_call run step
  round (idle, rest) b c again f h = refl
  round (fault, rest) b c again f h = refl
  round (message node, rest) b c again f h =
      ap (λ r. ((again r.0).0, r.1 ++ (again r.0).1)) (on_message-buffer library rest (some node) c)
      ∙ ap (λ r. (r.0, (on_message library (some node) c).1 ++ r.1))
          (h rest (on_message library (some node) c).0)

  process_messages-drain :
      (fuel : ℕ) (b : Text) (c : Client)
      → process_messages host library parse fuel (record c { buffer = b })
        ≡ delivered (drain host parse fuel b) c
  unfolding process_messages drain run
  process_messages-drain zero b c = refl
  process_messages-drain (suc fuel) b c =
      round (do_process_buffer host parse b) b c (process_messages host library parse fuel)
        (drain host parse fuel) (λ b c. process_messages-drain fuel b c)

  read_data-on_data_read :
      (chunk b : Text) (c : Client)
      → read_data host library parse chunk (record c { buffer = b })
        ≡ delivered (on_data_read host parse b chunk) c
  unfolding read_data on_data_read process_buffer run
  read_data-on_data_read [] b c = refl
  read_data-on_data_read (x ∷ chunk) b c =
      process_messages-drain (suc (length (b ++ x ∷ chunk))) (b ++ x ∷ chunk) c

  run-append :
      (xs ys : List Step) (c : Client)
      → run library (xs ++ ys) c ≡ (
        (run library ys (run library xs c).0).0,
        (run library xs c).1 ++ (run library ys (run library xs c).0).1,
      )
  unfolding run
  run-append [] ys c = refl
  run-append (s ∷ xs) ys c =
      let r = step library s c in
      ap (λ t. (t.0, r.1 ++ t.1)) (run-append xs ys r.0)
      ∙ ap (λ l. ((run library ys (run library xs r.0).0).0, l))
          (sym (append_assoc r.1 (run library xs r.0).1 (run library ys (run library xs r.0).0).1))

  delivered-append :
      (xs ys : List Node) (b : Text) (c : Client)
      → (
        (run library (arrivals ys) (run library (arrivals xs) c).0).0,
        (run library (arrivals xs) c).1
            ++ (run library (arrivals ys) (run library (arrivals xs) c).0).1,
      )
        ≡ run library (arrivals (xs ++ ys)) c
  delivered-append xs ys b c =
      sym (run-append (arrivals xs) (arrivals ys) c)
      ∙ ap (λ l. run library l c) (sym (arrivals-append xs ys))

  -- A quiet end of several chunks: the first was quiet, and the rest goes on from its buffer.
  after_chunk-quiet :
      (r : Run Node) (again : Text → Run Node)
      → (after_chunk host parse r again).ending ≡ quiet
      → (after_chunk host parse r again
          ≡ record (again r.buffer) { messages = r.messages ++ (again r.buffer).messages })
        × ((again r.buffer).ending ≡ quiet)
  unfolding after_chunk
  after_chunk-quiet r again e = by_ending r.ending e
    where
      by_ending :
          (ending : Ending)
          → (after_chunk host parse (record r { ending = ending }) again).ending ≡ quiet
          → (after_chunk host parse (record r { ending = ending }) again
              ≡ record (again r.buffer) { messages = r.messages ++ (again r.buffer).messages })
            × ((again r.buffer).ending ≡ quiet)
      by_ending quiet e = (refl, e)
      by_ending faulted e = absurd (cc e)
      by_ending exhausted e = absurd (cc e)

  receive-feed :
      (chunks : List Text) (b : Text) (c : Client)
      → (feed host parse b chunks).ending ≡ quiet
      → receive host library parse chunks (record c { buffer = b })
        ≡ delivered (feed host parse b chunks) c
  unfolding receive feed run
  receive-feed [] b c e = refl
  receive-feed (chunk ∷ chunks) b c e =
      let r = on_data_read host parse b chunk in
      let first = run library (arrivals r.messages) c in
      let (joined, later) = after_chunk-quiet r (λ rest. feed host parse rest chunks) e in
      ap
        (λ t. (
          (receive host library parse chunks t.0).0,
          t.1 ++ (receive host library parse chunks t.0).1,
        ))
        (read_data-on_data_read chunk b c)
      ∙ ap (λ t. (t.0, first.1 ++ t.1)) (receive-feed chunks r.buffer first.0 later)
      ∙ ap (with_buffer (feed host parse r.buffer chunks).buffer)
          (delivered-append r.messages (feed host parse r.buffer chunks).messages b c)
      ∙ ap (λ t. delivered t c) (sym joined)

  -- However the bytes of a sequence of frames are cut into chunks, a client whose buffer is empty
  -- ends in the state, and has the effects, of the messages that the payloads are parsed to,
  -- arriving one by one in order. Each payload is not empty, is accepted by the parser, and has a
  -- frame whose length is a `long`.
  pub receive-stream :
      (laws : HostLaws host) (nodes : List Node) (payloads chunks : List Text) (c : Client)
      → Carried host parse nodes payloads
      → concat chunks ≡ stream payloads
      → receive host library parse chunks (record c { buffer = [] })
        ≡ with_buffer [] (run library (arrivals nodes) c)
  receive-stream laws nodes payloads chunks c k e =
      let fed = feed-stream host parse laws nodes payloads chunks k e in
      receive-feed chunks [] c (ap (λ r. r.ending) fed) ∙ ap (λ r. delivered r c) fed
