-- ===== src/Socket.antt =====
-- `dap::Socket::Send` (src/DebugAdapterProtocol/Socket.cpp), over the answers of the operating
-- system.
use debugger_dap.Common.{
  ℕ, zero, suc, ◌+◌, ◌-◌, ◌≤◌, ◌≡◌, refl, ap, ◌∙◌, Bool, true, false, List, [], ◌∷◌, ◌++◌, length,
  take, drop, arith,
}
use debugger_dap.Text.{Text}

-- What `SelectWriteMS` and `::send` answer in a round: no time to write, an error (0 or less), or
-- the number of bytes that were taken.
pub data Answer : Type 0 where
  timeout error : Answer
  wrote : ℕ → Answer

-- How `Send` ends: it returns, it throws, or it still waits when the answers are at an end.
pub data SendEnding : Type 0 where
  returned thrown waiting : SendEnding

-- The loop: how it ends, and the bytes that were taken, in order.
unfoldable pub send_loop : List Answer → Text → ℕ → SendEnding × Text
send_loop answers bytes zero = (returned, [])
send_loop [] bytes (suc left) = (waiting, [])
send_loop (timeout ∷ answers) bytes (suc left) = send_loop answers bytes (suc left)
send_loop (error ∷ answers) bytes (suc left) = (thrown, [])
send_loop (wrote zero ∷ answers) bytes (suc left) = (thrown, [])
send_loop (wrote (suc n) ∷ answers) bytes (suc left) =
    let (ending, taken) = send_loop answers (drop (suc n) bytes) (left - n) in
    (ending, take (suc n) bytes ++ taken)

-- `Send` of a message on a socket that is or is not valid; `encode` is `mb_str(wxConvUTF8)`.
unfoldable pub send : (Text → Text) → Bool → List Answer → Text → SendEnding × Text
unfolding send_loop
send encode false answers msg = (thrown, [])
send encode true answers [] = (returned, [])
send encode true answers (c ∷ msg) = send_loop answers (encode (c ∷ msg)) (length (c ∷ msg))

-- The operating system takes all in the end: no error, and in each round at most what is left.
abbrev pub Serves : List Answer → ℕ → Type 0
Serves answers zero = Unit
Serves [] (suc left) = ⊥
Serves (timeout ∷ answers) (suc left) = Serves answers (suc left)
Serves (error ∷ answers) (suc left) = ⊥
Serves (wrote zero ∷ answers) (suc left) = ⊥
Serves (wrote (suc n) ∷ answers) (suc left) = (n ≤ left) × Serves answers (left - n)

take-nil : (m : ℕ) → take {A = ℕ} m [] ≡ []
take-nil zero = refl
take-nil (suc m) = refl

take-split :
    (n m k : ℕ) (bytes : Text) → k ≡ n + m → take n bytes ++ take m (drop n bytes) ≡ take k bytes
take-split zero m k bytes e = ap (λ k. take k bytes) (omega (arith, e))
take-split (suc n) m zero bytes e = absurd (omega (arith, e))
take-split (suc n) m (suc k) [] e = take-nil m
take-split (suc n) m (suc k) (b ∷ bytes) e =
    ap (λ l. b ∷ l) (take-split n m k bytes (omega (arith, e)))

send_loop-Serves :
    (answers : List Answer) (bytes : Text) (left : ℕ)
    → Serves answers left
    → send_loop answers bytes left ≡ (returned, take left bytes)
unfolding send_loop
send_loop-Serves answers bytes zero h = refl
send_loop-Serves [] bytes (suc left) h = elim h [ ]
send_loop-Serves (timeout ∷ answers) bytes (suc left) h =
    send_loop-Serves answers bytes (suc left) h
send_loop-Serves (error ∷ answers) bytes (suc left) h = elim h [ ]
send_loop-Serves (wrote zero ∷ answers) bytes (suc left) h = elim h [ ]
send_loop-Serves (wrote (suc n) ∷ answers) bytes (suc left) h =
    ap (λ r. (r.0, take (suc n) bytes ++ r.1))
      (send_loop-Serves answers (drop (suc n) bytes) (left - n) h.1)
    ∙ ap (λ l. (returned, l)) (take-split (suc n) (left - n) (suc left) bytes (omega (arith, h.0)))

-- On a valid socket, where the operating system takes all in the end, `Send` returns, and the
-- bytes that were taken are as many bytes of the encoded message, from its front, as the message
-- has characters: the whole only if no character takes more than one byte.
pub send-Serves :
    (encode : Text → Text) (answers : List Answer) (msg : Text)
    → Serves answers (length msg)
    → send encode true answers msg ≡ (returned, take (length msg) (encode msg))
unfolding send
send-Serves encode answers [] h = refl
send-Serves encode answers (c ∷ msg) h =
    send_loop-Serves answers (encode (c ∷ msg)) (length (c ∷ msg)) h
