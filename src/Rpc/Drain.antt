-- ===== src/Rpc/Drain.antt =====
-- The loop of `ProcessBuffer` (src/DebugAdapterProtocol/JsonRPC.cpp) and its fuel.
use debugger_dap.Common.{
  ℕ, zero, suc, ◌+◌, ◌<◌, ◌≡◌, ◌≢◌, refl, ap, [], ◌∷◌, Option, none, some, length, length-drop,
  arith,
}
use debugger_dap.Common.Int.{ℤ, pos, negsuc}
use debugger_dap.Text.{Text}
use debugger_dap.Text.Decimal.{atol}
use debugger_dap.Rpc.Defs.{
  Host, Outcome, idle, fault, message, Run, exhausted, length_key, Headers, find_header,
  read_headers, by_length, by_header, by_headers, do_process_buffer, after_call, drain,
  process_buffer,
}

module _ (host : Host) {J : Type 0} (parse : Text → Option J) where
  by_length_shrinks :
      (b : Text) (size : ℕ) (len : ℤ) {json : J} {rest : Text}
      → by_length host parse b size len ≡ (message json, rest)
      → length rest < length b
  unfolding by_length
  by_length_shrinks b size (negsuc n) h = cc
  by_length_shrinks b size (pos zero) h = cc
  by_length_shrinks b size (pos (suc n)) h = ground (arith, length-drop (size + suc n) b)

  by_header_shrinks :
      (b : Text) (size : ℕ) (value : Option Text) {json : J} {rest : Text}
      → by_header host parse b size value ≡ (message json, rest)
      → length rest < length b
  unfolding by_header
  by_header_shrinks b size none h = cc
  by_header_shrinks b size (some value) h = by_length_shrinks b size (atol value) h

  by_headers_shrinks :
      (b : Text) (found : Option (Headers × ℕ)) {json : J} {rest : Text}
      → by_headers host parse b found ≡ (message json, rest)
      → length rest < length b
  unfolding by_headers
  by_headers_shrinks b none h = cc
  by_headers_shrinks b (some (headers, size)) h =
      by_header_shrinks b size (find_header length_key headers) h

  -- A call that hands out a message leaves a shorter buffer.
  pub do_process_buffer_shrinks :
      (b : Text) {json : J} {rest : Text}
      → do_process_buffer host parse b ≡ (message json, rest)
      → length rest < length b
  unfolding do_process_buffer
  do_process_buffer_shrinks [] h = cc
  do_process_buffer_shrinks (c ∷ b) h = by_headers_shrinks (c ∷ b) (read_headers host (c ∷ b)) h

  -- A run goes on only with a shorter buffer, so it needs to know its continuation only there.
  after_call-eq :
      (b : Text) (r : Outcome J × Text) (k l : Text → Run J)
      → do_process_buffer host parse b ≡ r
      → ((rest : Text) → length rest < length b → k rest ≡ l rest)
      → after_call host parse r k ≡ after_call host parse r l
  unfolding after_call
  after_call-eq b (idle, rest) k l h same = refl
  after_call-eq b (fault, rest) k l h same = refl
  after_call-eq b (message json, rest) k l h same =
      ap (λ (r : Run J). record r { messages = json ∷ r.messages })
        (same rest (do_process_buffer_shrinks b h))

  drain-eq :
      (f g : ℕ) (b : Text)
      → length b < f
      → length b < g
      → drain host parse f b ≡ drain host parse g b
  unfolding drain
  drain-eq zero g b h k = elim h [ ]
  drain-eq (suc f) zero b h k = elim k [ ]
  drain-eq (suc f) (suc g) b h k =
      after_call-eq b (do_process_buffer host parse b) (drain host parse f) (drain host parse g)
        refl (λ rest shorter. drain-eq f g rest (omega arith) (omega arith))

  -- `ProcessBuffer` calls `DoProcessBuffer` and goes on, with no bound on the rounds, until a call
  -- gives no message.
  pub process_buffer_lem :
      (b : Text)
      → process_buffer host parse b
        ≡ after_call host parse (do_process_buffer host parse b) (process_buffer host parse)
  unfolding process_buffer drain
  process_buffer_lem b =
      after_call-eq b (do_process_buffer host parse b) (drain host parse (length b))
        (process_buffer host parse) refl
        (λ rest shorter. drain-eq (length b) (suc (length rest)) rest shorter (omega arith))

  after_call_ends :
      (b : Text) (r : Outcome J × Text) (k : Text → Run J)
      → do_process_buffer host parse b ≡ r
      → ((rest : Text) → length rest < length b → (k rest).ending ≢ exhausted)
      → (after_call host parse r k).ending ≢ exhausted
  unfolding after_call
  after_call_ends b (idle, rest) k h ends = cc
  after_call_ends b (fault, rest) k h ends = cc
  after_call_ends b (message json, rest) k h ends = ends rest (do_process_buffer_shrinks b h)

  drain_ends : (f : ℕ) (b : Text) → length b < f → (drain host parse f b).ending ≢ exhausted
  unfolding drain
  drain_ends zero b h = elim h [ ]
  drain_ends (suc f) b h =
      after_call_ends b (do_process_buffer host parse b) (drain host parse f) refl
        (λ rest shorter. drain_ends f rest (omega arith))

  -- The loop of `ProcessBuffer` ends on every buffer: one more round than there are characters
  -- in the buffer is enough.
  pub process_buffer_ends : (b : Text) → (process_buffer host parse b).ending ≢ exhausted
  unfolding process_buffer
  process_buffer_ends b = drain_ends (suc (length b)) b (omega arith)
