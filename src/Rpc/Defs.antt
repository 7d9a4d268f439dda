-- ===== src/Rpc/Defs.antt =====
-- `dap::JsonRPC`: the buffer, its header section, the loop that hands out payloads, and the frame
-- that `Send` writes (src/DebugAdapterProtocol/JsonRPC.cpp, JsonRPC.hpp).
use debugger_dap.Common.{
  ℕ, zero, suc, ◌+◌, ◌≡◌, ◌≢◌, true, false, List, [], ◌∷◌, ◌++◌, Option, none, some, length, take,
  drop, concat, map, ltb, if◌then◌else◌,
}
use debugger_dap.Common.Int.{ℤ, pos, negsuc}
use debugger_dap.Text.{Text, codes, is_space, text_eq, find, before_first, after_first}
use debugger_dap.Text.Find.{Lacks}
use debugger_dap.Text.Decimal.{to_string, atol}

-- What the code takes from wxWidgets and from the platform.
pub record Host : Type 0 where
  -- `str.Trim()` and `str.Trim(false)`
  pub trim_right : Text → Text
  pub trim_left : Text → Text
  -- `wxStringTokenize(str, ch, wxTOKEN_STRTOK)`
  pub tokenize : Text → ℕ → List Text
  -- LONG_MAX
  pub long_max : ℕ

-- The documented behaviour of those functions, as far as the framing relies on it.
pub record HostLaws (host : Host) : Type 0 where
  pub trim_right_keep :
      (s : Text) (c : ℕ) → is_space c ≡ false → host.trim_right (s ++ c ∷ []) ≡ s ++ c ∷ []
  pub trim_left_keep : (c : ℕ) (s : Text) → is_space c ≡ false → host.trim_left (c ∷ s) ≡ c ∷ s
  pub trim_left_space :
      (c : ℕ) (s : Text) → is_space c ≡ true → host.trim_left (c ∷ s) ≡ host.trim_left s
  pub tokenize_single : (s : Text) (ch : ℕ) → s ≢ [] → Lacks ch s → host.tokenize s ch ≡ s ∷ []

-- "\r\n\r\n"
abbrev pub separator : Text
separator = 13 ∷ 10 ∷ 13 ∷ 10 ∷ []

-- "Content-Length"
abbrev pub length_key : Text
length_key = codes "Content-Length"

-- The map of headers, in the order of insertion.
abbrev pub Headers : Type 0
Headers = List (Text × Text)

-- `headers.find(name)`. `insert` keeps the first value of a name, so the first entry counts.
unfoldable pub find_header : Text → Headers → Option Text
find_header name [] = none
find_header name ((key, value) ∷ rest) =
    if text_eq key name then some value else find_header name rest

-- What one call of `DoProcessBuffer` gives: a `Json` that is not OK, a `Json` that is, or the
-- overflow of `headerSize + msglen`, which is undefined behaviour.
pub data Outcome (J : Type 0) : Type 0 where
  idle fault : Outcome J
  message : J → Outcome J

-- Why `ProcessBuffer` stopped; `exhausted` stands for fuel that did not suffice.
pub data Ending : Type 0 where
  quiet faulted exhausted : Ending

-- The payloads handed to the callback, in order, and the buffer that is left.
pub record Run (J : Type 0) : Type 0 where
  pub messages : List J
  pub buffer : Text
  pub ending : Ending

-- What `Send` writes for a payload.
unfoldable pub header_of : Text → Text
header_of payload = codes "Content-Length: " ++ to_string (length payload)

unfoldable pub frame : Text → Text
frame payload = header_of payload ++ (separator ++ payload)

-- The frames of a sequence of payloads, one behind the other.
abbrev pub stream : List Text → Text
stream payloads = concat (map frame payloads)

module _ (host : Host) where
  -- `DapStringUtils::Trim`
  unfoldable pub trim : Text → Text
  trim s = host.trim_left (host.trim_right s)

  -- The body of the loop over the lines of the header section.
  unfoldable pub read_header : Text → Text × Text
  unfolding trim
  read_header line =
      let header = trim line in (trim (before_first header b':'), trim (after_first header b':'))

  unfoldable pub header_section : Text → Option ℕ → Option (Headers × ℕ)
  header_section buffer none = none
  header_section buffer (some at) =
      some (map read_header (host.tokenize (take at buffer) b'\n'), at + 4)

  -- `ReadHeaders`: `none` stands for -1. The size is an `int` there, which it fits up to 2 GiB.
  unfoldable pub read_headers : Text → Option (Headers × ℕ)
  unfolding header_section
  read_headers buffer = header_section buffer (find separator buffer)

  module _ {J : Type 0} (parse : Text → Option J) where
    -- `Json::Parse`, whose result is OK if the parser made a tree.
    unfoldable pub parse_outcome : Option J → Outcome J
    parse_outcome none = idle
    parse_outcome (some json) = message json

    -- The part of `DoProcessBuffer` behind the reading of the number.
    unfoldable pub by_length : Text → ℕ → ℤ → Outcome J × Text
    unfolding parse_outcome
    by_length buffer size (negsuc n) = (idle, buffer)
    by_length buffer size (pos zero) = (idle, buffer)
    by_length buffer size (pos (suc n)) =
        let len = suc n in
        if ltb host.long_max (size + len)
        then (fault, buffer)
        else if ltb (length buffer) (size + len)
        then (idle, buffer)
        else (parse_outcome (parse (take len (drop size buffer))), drop (size + len) buffer)

    -- `m_buffer.erase(headerSize)` removes what stands from that position on.
    unfoldable pub by_header : Text → ℕ → Option Text → Outcome J × Text
    by_header buffer size none = (idle, take size buffer)
    by_header buffer size (some value) = by_length buffer size (atol value)

    unfoldable pub by_headers : Text → Option (Headers × ℕ) → Outcome J × Text
    unfolding by_header
    by_headers buffer none = (idle, buffer)
    by_headers buffer (some (headers, size)) =
        by_header buffer size (find_header length_key headers)

    -- `DoProcessBuffer`: the outcome and the buffer that is left.
    unfoldable pub do_process_buffer : Text → Outcome J × Text
    unfolding by_headers
    do_process_buffer [] = (idle, [])
    do_process_buffer (c ∷ s) = by_headers (c ∷ s) (read_headers (c ∷ s))

    unfoldable pub after_call : Outcome J × Text → (Text → Run J) → Run J
    after_call (idle, rest) again = record { messages = []; buffer = rest; ending = quiet }
    after_call (fault, rest) again = record { messages = []; buffer = rest; ending = faulted }
    after_call (message json, rest) again =
        let r = again rest in record r { messages = json ∷ r.messages }

    -- The loop of `ProcessBuffer`, on fuel.
    unfoldable pub drain : ℕ → Text → Run J
    unfolding after_call
    drain zero buffer = record { messages = []; buffer = buffer; ending = exhausted }
    drain (suc fuel) buffer = after_call (do_process_buffer buffer) (drain fuel)

    -- `ProcessBuffer`: a call that hands out a message shortens the buffer, so this fuel suffices.
    unfoldable pub process_buffer : Text → Run J
    process_buffer buffer = drain (suc (length buffer)) buffer

    -- `Client::OnDataRead`: an empty chunk is ignored.
    unfoldable pub on_data_read : Text → Text → Run J
    on_data_read buffer [] = record { messages = []; buffer = buffer; ending = quiet }
    on_data_read buffer (c ∷ chunk) = process_buffer (buffer ++ c ∷ chunk)

    unfoldable pub after_chunk : Run J → (Text → Run J) → Run J
    after_chunk r again = elim r.ending [
      | quiet ↦ let rest = again r.buffer in record rest { messages = r.messages ++ rest.messages }
      | _ ↦ r
    ]

    -- The calls of `OnDataRead` for the chunks that the reader thread posts, up to a fault.
    unfoldable pub feed : Text → List Text → Run J
    unfolding after_chunk
    feed buffer [] = record { messages = []; buffer = buffer; ending = quiet }
    feed buffer (chunk ∷ chunks) =
        after_chunk (on_data_read buffer chunk) (λ rest. feed rest chunks)
