-- ===== src/Rpc/Blocked.antt =====
-- Header sections without a usable Content-Length, and `DoProcessBuffer` on them
-- (src/DebugAdapterProtocol/JsonRPC.cpp).
use debugger_dap.Common.{
  ℕ, zero, suc, ◌+◌, ◌≤◌, ◌≡◌, refl, sym, ap, ◌∙◌, subst, List, [], ◌∷◌, ◌++◌, Option, none, some,
  length, take, take_self, take-take, append-nil, arith,
}
use debugger_dap.Common.Int.{ℤ, pos, negsuc}
use debugger_dap.Text.{Text, find}
use debugger_dap.Text.Find.{find-take, find_fits}
use debugger_dap.Text.Decimal.{atol}
use debugger_dap.Rpc.Defs.{
  Host, Headers, idle, Run, quiet, separator, length_key, find_header, header_section, read_headers,
  by_length, by_header, after_call, process_buffer, on_data_read, after_chunk, feed,
}
use debugger_dap.Rpc.Frame.{do_process_buffer-some}
use debugger_dap.Rpc.Drain.{process_buffer_lem}

-- A value of Content-Length that `DoProcessBuffer` refuses.
abbrev pub IsNotPositive : ℤ → Type 0
IsNotPositive (pos zero) = Unit
IsNotPositive (pos (suc n)) = ⊥
IsNotPositive (negsuc n) = Unit

-- No Content-Length, or one that is refused.
abbrev pub IsUseless : Option Text → Type 0
IsUseless none = Unit
IsUseless (some value) = IsNotPositive (atol value)

module _ (host : Host) where
  -- The buffer begins with a complete header section that gives no usable length.
  pub record IsStuck (b : Text) : Type 0 where
    pub headers : Headers
    pub size : ℕ
    pub found : read_headers host b ≡ some (headers, size)
    pub useless : IsUseless (find_header length_key headers)

  header_section_inv :
      (b : Text) (at : Option ℕ) {headers : Headers} {size : ℕ}
      → header_section host b at ≡ some (headers, size)
      → (n : ℕ) × (at ≡ some n) × (size ≡ n + 4)
  unfolding header_section
  header_section_inv b none h = cc
  header_section_inv b (some n) h = (n, refl, cc)

  read_headers_inv :
      (b : Text) {headers : Headers} {size : ℕ}
      → read_headers host b ≡ some (headers, size)
      → (n : ℕ) × (find separator b ≡ some n) × (size ≡ n + 4)
  unfolding read_headers
  read_headers_inv b h = header_section_inv b (find separator b) h

  size-le-length :
      (b : Text) {headers : Headers} {size : ℕ}
      → read_headers host b ≡ some (headers, size)
      → size ≤ length b
  size-le-length b h =
      let (n, f, e) = read_headers_inv b h in omega (arith, find_fits separator b f)

  -- The headers depend on nothing behind the header section.
  pub read_headers-take :
      (b z : Text) (m : ℕ) {headers : Headers} {size : ℕ}
      → read_headers host b ≡ some (headers, size)
      → size ≤ m
      → read_headers host (take m b ++ z) ≡ some (headers, size)
  read_headers-take b z m h k =
      let (n, f, e) = read_headers_inv b h in
      same n f (find-take separator b z m f (omega arith))
        (take-take n m b z (omega arith) (omega (arith, find_fits separator b f)))
      ∙ h
    where
      same :
          (n : ℕ)
          → find separator b ≡ some n
          → find separator (take m b ++ z) ≡ some n
          → take n (take m b ++ z) ≡ take n b
          → read_headers host (take m b ++ z) ≡ read_headers host b
      same n f g t = unfold read_headers header_section in rw (f, g, t)

  IsStuck-take : (b z : Text) (m : ℕ) (s : IsStuck b) → s.size ≤ m → IsStuck (take m b ++ z)
  IsStuck-take b z m s k = record {
    headers = s.headers;
    size = s.size;
    found = read_headers-take b z m s.found k;
    useless = s.useless;
  }

  IsStuck-append : (b z : Text) → IsStuck b → IsStuck (b ++ z)
  IsStuck-append b z s =
      subst (λ x. IsStuck (x ++ z)) (take_self b)
        (IsStuck-take b z (length b) s (size-le-length b s.found))

  module _ {J : Type 0} (parse : Text → Option J) where
    -- Nothing was handed out, and the buffer is stuck.
    abbrev pub Silent : Run J → Type 0
    Silent r = (r.messages ≡ []) × (r.ending ≡ quiet) × IsStuck r.buffer

    by_length_useless :
        (b : Text) (size : ℕ) (len : ℤ)
        → IsNotPositive len
        → by_length host parse b size len ≡ (idle, b)
    unfolding by_length
    by_length_useless b size (pos zero) h = refl
    by_length_useless b size (pos (suc n)) h = elim h [ ]
    by_length_useless b size (negsuc n) h = refl

    by_header_useless :
        (b : Text) (s : IsStuck b) (value : Option Text)
        → IsUseless value
        → (rest : Text) × (by_header host parse b s.size value ≡ (idle, rest)) × IsStuck rest
    unfolding by_header
    by_header_useless b s none h = (
      take s.size b,
      refl,
      subst IsStuck (append-nil (take s.size b)) (IsStuck-take b [] s.size s (omega arith)),
    )
    by_header_useless b s (some value) h = (b, by_length_useless b s.size (atol value) h, s)

    process_buffer_stuck : (b : Text) → IsStuck b → Silent (process_buffer host parse b)
    process_buffer_stuck b s =
        let (rest, e, t) = by_header_useless b s (find_header length_key s.headers) s.useless in
        let run =
          process_buffer_lem host parse b
          ∙ ap (λ r. after_call host parse r (process_buffer host parse))
              (do_process_buffer-some host parse b s.found ∙ e) in
        subst Silent (sym run) (ended rest t)
      where
        ended :
            (rest : Text)
            → IsStuck rest
            → Silent (after_call host parse (idle, rest) (process_buffer host parse))
        ended rest t = unfold after_call in (refl, refl, t)

    on_data_read_stuck : (b chunk : Text) → IsStuck b → Silent (on_data_read host parse b chunk)
    unfolding on_data_read
    on_data_read_stuck b [] s = (refl, refl, s)
    on_data_read_stuck b (c ∷ chunk) s =
        process_buffer_stuck (b ++ c ∷ chunk) (IsStuck-append b (c ∷ chunk) s)

    after_chunk-Silent :
        (r : Run J) (again : Text → Run J)
        → Silent r
        → Silent (again r.buffer)
        → Silent (after_chunk host parse r again)
    unfolding after_chunk
    after_chunk-Silent r again s t = rw (s.1, s.0) t

    -- A complete header section at the front of the buffer that has no Content-Length header, or
    -- one whose value is 0 or negative, is never got past: whatever chunks arrive later, also
    -- whole correct frames, no message is ever handed out again.
    pub feed_stuck : (b : Text) (chunks : List Text) → IsStuck b → Silent (feed host parse b chunks)
    unfolding feed
    feed_stuck b [] s = (refl, refl, s)
    feed_stuck b (chunk ∷ chunks) s =
        let (m, q, t) = on_data_read_stuck b chunk s in
        after_chunk-Silent (on_data_read host parse b chunk) (λ rest. feed host parse rest chunks)
          (m, q, t) (feed_stuck (on_data_read host parse b chunk).buffer chunks t)
