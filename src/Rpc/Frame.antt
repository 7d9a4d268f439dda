-- ===== src/Rpc/Frame.antt =====
-- One call of `DoProcessBuffer` on a frame that `Send` wrote, whole or cut anywhere.
use debugger_dap.Common.{
  ℕ, zero, suc, ◌+◌, ◌≤◌, ◌<◌, ◌≡◌, ◌≢◌, refl, sym, ap, subst, ◌∙◌, [], ◌∷◌, ◌++◌, Option, none,
  some, length, take, drop, take-append, drop-append, length-append, append_assoc, append_split,
  All-prefix, le→ltb, lt→ltb, lt-or-ge, inl, inr, arith,
}
use debugger_dap.Common.Int.{pos}
use debugger_dap.Text.{Text, find, text_eq, begins_with}
use debugger_dap.Text.Find.{Lacks, find-Lacks, find-append_none, find_short}
use debugger_dap.Text.Decimal.{to_string, atol-to_string}
use debugger_dap.Rpc.Defs.{
  Host, HostLaws, separator, length_key, idle, message, Headers, find_header, read_headers,
  by_length, by_header, do_process_buffer, header_of, frame,
}
use debugger_dap.Rpc.Header.{header_of-Lacks_return, read_headers-header_of}

-- A payload that the framing carries: it is not empty, its frame's length is a `long`, and the
-- parser makes `json` of it.
pub record Carries (host : Host) {J : Type 0} (parse : Text → Option J) (json : J) (payload : Text)
    : Type 0 where
  pub not_empty : payload ≢ []
  pub fits : length (frame payload) ≤ host.long_max
  pub parsed : parse payload ≡ some json

pub length-frame :
    (payload : Text) → length (frame payload) ≡ length (header_of payload) + 4 + length payload
unfolding frame
length-frame payload = omega (arith, length-append (header_of payload) (separator ++ payload))

drop_header :
    (payload rest : Text)
    → drop (length (header_of payload) + 4) (header_of payload ++ (separator ++ rest)) ≡ rest
drop_header payload rest =
    ap (λ n. drop n (header_of payload ++ (separator ++ rest)))
      (sym (length-append (header_of payload) separator))
    ∙ ap (drop (length (header_of payload ++ separator)))
        (sym (append_assoc (header_of payload) separator rest))
    ∙ drop-append (header_of payload ++ separator) rest

frame-append :
    (payload rest : Text)
    → frame payload ++ rest ≡ header_of payload ++ (separator ++ (payload ++ rest))
unfolding frame
frame-append payload rest = append_assoc (header_of payload) (separator ++ payload) rest

frame_parts :
    (payload : Text) {s : Text}
    → frame payload ≡ s
    → header_of payload ++ (separator ++ payload) ≡ s
unfolding frame
frame_parts payload e = e

length-pos : (s : Text) → s ≢ [] → 0 < length s
length-pos [] h = absurd (h refl)
length-pos (c ∷ s) h = omega arith

find_header-length_key :
    (value : Text) → find_header length_key ((length_key, value) ∷ []) ≡ some value
unfolding find_header text_eq
find_header-length_key value = refl

module _ (host : Host) {J : Type 0} (parse : Text → Option J) where
  -- No header section yet: nothing is consumed.
  pub do_process_buffer-none :
      (b : Text) → find separator b ≡ none → do_process_buffer host parse b ≡ (idle, b)
  unfolding do_process_buffer read_headers
  do_process_buffer-none [] h = refl
  do_process_buffer-none (c ∷ b) h = rw h

  read_headers-nil : read_headers host [] ≡ none
  unfolding read_headers find begins_with
  read_headers-nil = refl

  pub do_process_buffer-some :
      (b : Text) {headers : Headers} {size : ℕ}
      → read_headers host b ≡ some (headers, size)
      → do_process_buffer host parse b
        ≡ by_header host parse b size (find_header length_key headers)
  unfolding do_process_buffer
  do_process_buffer-some [] h = absurd (cc (sym read_headers-nil ∙ h))
  do_process_buffer-some (c ∷ b) h = rw h

  by_length_short :
      (b : Text) (size n : ℕ)
      → size + n ≤ host.long_max
      → length b < size + n
      → by_length host parse b size (pos n) ≡ (idle, b)
  unfolding by_length
  by_length_short b size zero h k = refl
  by_length_short b size (suc n) h k =
      rw (le→ltb host.long_max (size + suc n) h, lt→ltb (length b) (size + suc n) k)

  by_length_whole :
      (b : Text) (size n : ℕ) {json : J}
      → 0 < n
      → size + n ≤ host.long_max
      → size + n ≤ length b
      → parse (take n (drop size b)) ≡ some json
      → by_length host parse b size (pos n) ≡ (message json, drop (size + n) b)
  unfolding by_length
  by_length_whole b size zero z h k e = absurd (omega arith)
  by_length_whole b size (suc n) z h k e =
      rw (le→ltb host.long_max (size + suc n) h, le→ltb (length b) (size + suc n) k, e)

  module _ (laws : HostLaws host) where
    -- Behind the header, everything turns on the payload's length.
    do_process_buffer-header_of :
        (payload rest : Text)
        → do_process_buffer host parse (header_of payload ++ (separator ++ rest))
          ≡ by_length host parse
              (header_of payload ++ (separator ++ rest))
              (length (header_of payload) + 4)
              (pos (length payload))
    do_process_buffer-header_of payload rest =
        do_process_buffer-some (header_of payload ++ (separator ++ rest))
          (read_headers-header_of host laws payload rest)
        ∙ ap (by_header host parse whole (length (header_of payload) + 4))
            (find_header-length_key (to_string (length payload)))
        ∙ number whole
      where
        whole : Text
        whole = header_of payload ++ (separator ++ rest)

        number :
            (b : Text)
            → by_header host parse b
                (length (header_of payload) + 4)
                (some (to_string (length payload)))
              ≡ by_length host parse b (length (header_of payload) + 4) (pos (length payload))
        number b = unfold by_header in rw (atol-to_string (length payload))

    -- A whole frame at the front of the buffer is handed out and removed.
    pub do_process_buffer-frame :
        (payload rest : Text) {json : J}
        → Carries host parse json payload
        → do_process_buffer host parse (frame payload ++ rest) ≡ (message json, rest)
    do_process_buffer-frame payload rest {json} c =
        let whole = header_of payload ++ (separator ++ (payload ++ rest)) in
        let size = length (header_of payload) + 4 in
        let same = frame-append payload rest in
        let count = length-frame payload in
        let cut : parse (take (length payload) (drop size whole)) ≡ some json =
          ap (λ s. parse (take (length payload) s)) (drop_header payload (payload ++ rest))
          ∙ ap parse (take-append payload rest)
          ∙ c.parsed in
        let left : drop (size + length payload) whole ≡ rest =
          ap (λ n. drop n whole) (sym count)
          ∙ ap (drop (length (frame payload))) (sym same)
          ∙ drop-append (frame payload) rest in
        ap (do_process_buffer host parse) same
        ∙ do_process_buffer-header_of payload (payload ++ rest)
        ∙ by_length_whole whole size (length payload) (length-pos payload c.not_empty)
            (omega (arith, c.fits, count))
            (omega (arith, count, ap length same, length-append (frame payload) rest)) cut
        ∙ ap (λ s. (message json, s)) left

    -- The header and a part of the payload.
    do_process_buffer_tail :
        (payload q missing : Text) {json : J}
        → Carries host parse json payload
        → length (header_of payload ++ (separator ++ q)) < length (frame payload)
        → do_process_buffer host parse (header_of payload ++ (separator ++ q))
          ≡ (idle, header_of payload ++ (separator ++ q))
    do_process_buffer_tail payload q missing c h =
        do_process_buffer-header_of payload q
        ∙ by_length_short (header_of payload ++ (separator ++ q)) (length (header_of payload) + 4)
            (length payload) (omega (arith, c.fits, length-frame payload))
            (omega (arith, length-frame payload))

    -- The header and some of what stands behind it.
    do_process_buffer_behind :
        (payload us missing : Text) {json : J}
        → Carries host parse json payload
        → us ++ missing ≡ separator ++ payload
        → length (header_of payload ++ us) < length (frame payload)
        → do_process_buffer host parse (header_of payload ++ us) ≡ (idle, header_of payload ++ us)
    do_process_buffer_behind payload us missing c e h = elim (lt-or-ge (length us) 4) [
      | inl short ↦ do_process_buffer-none (header_of payload ++ us) (
          find-append_none 13 (10 ∷ 13 ∷ 10 ∷ []) (header_of payload) us
            (header_of-Lacks_return payload) (find_short separator us (omega arith)))
      | inr long ↦
          let (q, f, g) = append_split separator payload us missing e (omega arith) in
          subst
            (λ us.
              do_process_buffer host parse (header_of payload ++ us)
              ≡ (idle, header_of payload ++ us))
            (sym f)
            (do_process_buffer_tail payload q missing c
              (subst (λ us. length (header_of payload ++ us) < length (frame payload)) f h))
    ]

    -- A frame that has not arrived whole is left alone.
    pub do_process_buffer_partial :
        (payload b missing : Text) {json : J}
        → Carries host parse json payload
        → frame payload ≡ b ++ missing
        → length b < length (frame payload)
        → do_process_buffer host parse b ≡ (idle, b)
    do_process_buffer_partial payload b missing c e h =
        elim (lt-or-ge (length b) (length (header_of payload))) [
          | inl before ↦
              let (us, f, g) =
                append_split b missing (header_of payload) (separator ++ payload)
                  (frame_parts payload e) (omega arith) in
              do_process_buffer-none b (
                find-Lacks 13 (10 ∷ 13 ∷ 10 ∷ []) b (
                  All-prefix (λ x. x ≢ 13) b us
                    (subst (Lacks 13) f (header_of-Lacks_return payload))))
          | inr behind ↦
              let (us, f, g) =
                append_split (header_of payload) (separator ++ payload) b missing
                  (sym (frame_parts payload e)) behind in
              subst (λ b. do_process_buffer host parse b ≡ (idle, b)) (sym f)
                (do_process_buffer_behind payload us missing c g
                  (subst (λ b. length b < length (frame payload)) f h))
        ]
