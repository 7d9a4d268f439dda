-- ===== src/Rpc/Stream.antt =====
-- `OnDataRead` over the chunks of a sequence of frames (src/DebugAdapterProtocol/Client.cpp and
-- JsonRPC.cpp).
use debugger_dap.Common.{
  ◌<◌, ◌≡◌, refl, sym, ap, ◌∙◌, List, [], ◌∷◌, ◌++◌, Option, length, concat, length-append,
  append_assoc, append-nil, append-eq-nil, append_split, lt-or-ge, inl, inr, arith,
}
use debugger_dap.Text.{Text}
use debugger_dap.Rpc.Defs.{
  Host, HostLaws, idle, message, Run, quiet, do_process_buffer, after_call, process_buffer,
  on_data_read, after_chunk, feed, frame, stream,
}
use debugger_dap.Rpc.Frame.{
  Carries, length-frame, do_process_buffer-frame, do_process_buffer_partial,
}
use debugger_dap.Rpc.Drain.{process_buffer_lem}

module _ (host : Host) {J : Type 0} (parse : Text → Option J) where
  -- Each payload of the sequence can be carried, and is parsed to the value at its place.
  abbrev pub Carried : List J → List Text → Type 0
  Carried [] [] = Unit
  Carried (json ∷ values) (payload ∷ payloads) =
      Carries host parse json payload × Carried values payloads
  Carried _ _ = ⊥

  -- What is in the buffer between two calls: less than the next frame.
  abbrev pub IsWaiting : Text → List Text → Type 0
  IsWaiting rest [] = rest ≡ []
  IsWaiting rest (payload ∷ payloads) = length rest < length (frame payload)

  abbrev pub done_run : List J → Text → Run J
  done_run values rest = record { messages = values; buffer = rest; ending = quiet }

  pub record Progress (values : List J) (b missing : Text) : Type 0 where
    pub done : List J
    pub later : List J
    pub ahead : List Text
    pub rest : Text
    pub splits : values ≡ done ++ later
    pub carried : Carried later ahead
    pub run : process_buffer host parse b ≡ done_run done rest
    pub remains : rest ++ missing ≡ stream ahead
    pub waits : IsWaiting rest ahead

  process_buffer_idle :
      (b : Text)
      → do_process_buffer host parse b ≡ (idle, b)
      → process_buffer host parse b ≡ done_run [] b
  process_buffer_idle b h = process_buffer_lem host parse b ∙ unfold after_call in rw h

  process_buffer_message :
      (b : Text) (json : J) (rest : Text) {done : List J} {left : Text}
      → do_process_buffer host parse b ≡ (message json, rest)
      → process_buffer host parse rest ≡ done_run done left
      → process_buffer host parse b ≡ done_run (json ∷ done) left
  process_buffer_message b json rest h k =
      process_buffer_lem host parse b ∙ unfold after_call in rw (h, k)

  Progress-cons :
      (json : J) {values : List J} {b missing : Text} (rest : Text)
      → do_process_buffer host parse b ≡ (message json, rest)
      → Progress values rest missing
      → Progress (json ∷ values) b missing
  Progress-cons json {b} rest h p = record {
    done = json ∷ p.done;
    later = p.later;
    ahead = p.ahead;
    rest = p.rest;
    splits = ap (◌∷◌ json) p.splits;
    carried = p.carried;
    run = process_buffer_message b json rest h p.run;
    remains = p.remains;
    waits = p.waits;
  }

  pub waiting_done :
      (values : List J) (payloads : List Text) (b : Text)
      → Carried values payloads
      → b ≡ stream payloads
      → IsWaiting b payloads
      → (values ≡ []) × (b ≡ [])
  waiting_done [] [] b c e w = (refl, w)
  waiting_done [] (payload ∷ payloads) b c e w = elim c [ ]
  waiting_done (json ∷ values) [] b c e w = elim c [ ]
  waiting_done (json ∷ values) (payload ∷ payloads) b c e w =
      absurd (omega (arith, ap length e, length-append (frame payload) (stream payloads)))

  feed_skip :
      (b : Text) (chunks : List Text) → feed host parse b ([] ∷ chunks) ≡ feed host parse b chunks
  unfolding feed after_chunk on_data_read
  feed_skip b chunks = refl

  module _ (laws : HostLaws host) where
    pub Progress-stream :
        (values : List J) (payloads : List Text) (b missing : Text)
        → Carried values payloads
        → b ++ missing ≡ stream payloads
        → Progress values b missing
    Progress-stream [] [] b missing c e =
        let empty = (append-eq-nil b missing e).0 in
        record {
          done = [];
          later = [];
          ahead = [];
          rest = b;
          splits = refl;
          carried = tt;
          run = rw empty (process_buffer_idle [] (unfold do_process_buffer in refl));
          remains = e;
          waits = empty;
        }
    Progress-stream [] (payload ∷ payloads) b missing c e = elim c [ ]
    Progress-stream (json ∷ values) [] b missing c e = elim c [ ]
    Progress-stream (json ∷ values) (payload ∷ payloads) b missing c e =
        elim (lt-or-ge (length b) (length (frame payload))) [
          | inl short ↦
              let (us, f, g) =
                append_split b missing (frame payload) (stream payloads) (sym e) (omega arith) in
              record {
                done = [];
                later = json ∷ values;
                ahead = payload ∷ payloads;
                rest = b;
                splits = refl;
                carried = c;
                run =
                    process_buffer_idle b
                      (do_process_buffer_partial host parse laws payload b us c.0 f short);
                remains = e;
                waits = short;
              }
          | inr whole ↦
              let (us, f, g) = append_split (frame payload) (stream payloads) b missing e whole in
              Progress-cons json us
                (ap (do_process_buffer host parse) f
                  ∙ do_process_buffer-frame host parse laws payload us c.0)
                (Progress-stream values payloads us missing c.1 g)
        ]

    feed-Progress :
        (values : List J) (b chunk : Text) (chunks : List Text)
        (p : Progress values (b ++ chunk) (concat chunks))
        → on_data_read host parse b chunk ≡ process_buffer host parse (b ++ chunk)
        → feed host parse p.rest chunks ≡ done_run p.later []
        → feed host parse b (chunk ∷ chunks) ≡ done_run values []
    unfolding feed after_chunk
    feed-Progress values b chunk chunks p read rec =
        rw (read, p.run) (rw rec (ap (λ v. done_run v []) (sym p.splits)))

    feed_waiting :
        (values : List J) (payloads : List Text) (b : Text) (chunks : List Text)
        → Carried values payloads
        → b ++ concat chunks ≡ stream payloads
        → IsWaiting b payloads
        → feed host parse b chunks ≡ done_run values []
    feed_waiting values payloads b [] c e w =
        let (none_left, empty) = waiting_done values payloads b c (sym (append-nil b) ∙ e) w in
        rw (none_left, empty) (unfold feed in refl)
    feed_waiting values payloads b ([] ∷ chunks) c e w =
        feed_skip b chunks ∙ feed_waiting values payloads b chunks c e w
    feed_waiting values payloads b ((x ∷ chunk) ∷ chunks) c e w =
        let p =
          Progress-stream values payloads (b ++ x ∷ chunk) (concat chunks) c
            (append_assoc b (x ∷ chunk) (concat chunks) ∙ e) in
        feed-Progress values b (x ∷ chunk) chunks p (unfold on_data_read in refl)
          (feed_waiting p.later p.ahead p.rest chunks p.carried p.remains p.waits)

    pub IsWaiting-nil : (payloads : List Text) → IsWaiting [] payloads
    IsWaiting-nil [] = refl
    IsWaiting-nil (payload ∷ payloads) = omega (arith, length-frame payload)

    -- However the bytes of a sequence of frames are cut into chunks, also inside a header or a
    -- separator and with several frames in a chunk, feeding the chunks to an empty buffer hands
    -- out exactly the values of the payloads, in order, and leaves the buffer empty. Each payload
    -- is not empty, is accepted by the parser, and has a frame whose length is a `long`.
    pub feed-stream :
        (values : List J) (payloads chunks : List Text)
        → Carried values payloads
        → concat chunks ≡ stream payloads
        → feed host parse [] chunks ≡ record { messages = values; buffer = []; ending = quiet }
    feed-stream values payloads chunks c e =
        feed_waiting values payloads [] chunks c e (IsWaiting-nil payloads)
