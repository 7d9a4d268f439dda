-- ===== src/Rpc/Header.antt =====
-- What `ReadHeaders` finds in the header section that `Send` writes.
use debugger_dap.Common.{
  ℕ, ◌+◌, ◌≡◌, ◌≢◌, refl, sym, ap, ◌∙◌, true, false, [], ◌∷◌, ◌++◌, some, length, take-append,
  append_assoc, All-append, All-last, All-mono, last_cut, arith,
}
use debugger_dap.Text.{Text, codes, is_space, is_digit, find, before_first, after_first}
use debugger_dap.Text.Find.{
  Lacks, find-append_Lacks, before_first_lem, after_first_lem, begins_with-append,
}
use debugger_dap.Text.Decimal.{to_string, IsNumeral, to_string-IsNumeral}
use debugger_dap.Rpc.Defs.{
  Host, HostLaws, separator, length_key, trim, read_header, read_headers, header_of,
}

-- Neither the first nor the last character is white space.
record IsTight (s : Text) : Type 0 where
  first : ℕ
  others : Text
  is_cons : s ≡ first ∷ others
  first_shown : is_space first ≡ false
  front : Text
  last : ℕ
  is_snoc : s ≡ front ++ last ∷ []
  last_shown : is_space last ≡ false

digit_shown : (c : ℕ) → is_digit c ≡ true → is_space c ≡ false
digit_shown c h = ground arith

IsNumeral-IsTight : {s : Text} → IsNumeral s → IsTight s
IsNumeral-IsTight {s} m =
    let (front, last, e) = last_cut m.first m.others in
    let snoc = m.is_cons ∙ e in
    record {
      first = m.first;
      others = m.others;
      is_cons = m.is_cons;
      first_shown = digit_shown m.first (rw m.is_cons at m.all_digits).0;
      front = front;
      last = last;
      is_snoc = snoc;
      last_shown = digit_shown last (All-last _ front last (rw snoc at m.all_digits));
    }

-- Words in front of a tight text.
IsTight-prefix :
    (c : ℕ) (t : Text) {s : Text} → is_space c ≡ false → IsTight s → IsTight (c ∷ (t ++ s))
IsTight-prefix c t {s} h k = record {
  first = c;
  others = t ++ s;
  is_cons = refl;
  first_shown = h;
  front = c ∷ (t ++ k.front);
  last = k.last;
  is_snoc =
      ap (λ x. c ∷ (t ++ x)) k.is_snoc ∙ ap (◌∷◌ c) (sym (append_assoc t k.front (k.last ∷ [])));
  last_shown = k.last_shown;
}

numeral-Lacks : (ch : ℕ) (s : Text) → is_digit ch ≡ false → IsNumeral s → Lacks ch s
numeral-Lacks ch s h m = All-mono (λ c. is_digit c ≡ true) (λ c. c ≢ ch) differs s m.all_digits
  where
    differs : (c : ℕ) → is_digit c ≡ true → c ≢ ch
    differs c d e = cc (ap is_digit e)

module _ (payload : Text) where
  abbrev number : Text
  number = to_string (length payload)

  number-IsNumeral : IsNumeral number
  number-IsNumeral = to_string-IsNumeral (length payload)

  number-IsTight : IsTight number
  number-IsTight = IsNumeral-IsTight number-IsNumeral

  header_of-IsTight : IsTight (header_of payload)
  unfolding header_of
  header_of-IsTight = IsTight-prefix b'C' (codes "ontent-Length: ") refl number-IsTight

  pub header_of-Lacks :
      (ch : ℕ)
      → Lacks ch (codes "Content-Length: ")
      → is_digit ch ≡ false
      → Lacks ch (header_of payload)
  unfolding header_of
  header_of-Lacks ch h d =
      All-append (λ c. c ≢ ch) (codes "Content-Length: ") number h
        (numeral-Lacks ch number d number-IsNumeral)

  pub header_of-Lacks_return : Lacks 13 (header_of payload)
  header_of-Lacks_return = header_of-Lacks 13 (omega arith) refl

  header_of-ne-nil : header_of payload ≢ []
  unfolding header_of
  header_of-ne-nil e = cc

  -- The separator is found right behind the header.
  pub find-header_of :
      (rest : Text)
      → find separator (header_of payload ++ (separator ++ rest))
        ≡ some (length (header_of payload))
  find-header_of rest =
      find-append_Lacks 13 (10 ∷ 13 ∷ 10 ∷ []) (header_of payload) (separator ++ rest)
        header_of-Lacks_return (starts rest)
      ∙ ap some (omega arith)
    where
      starts : (rest : Text) → find separator (separator ++ rest) ≡ some 0
      starts rest = unfold find in rw (begins_with-append separator rest)

module _ (host : Host) (laws : HostLaws host) where
  trim_right-IsTight : (s : Text) → IsTight s → host.trim_right s ≡ s
  trim_right-IsTight s k = rw k.is_snoc (laws.trim_right_keep k.front k.last k.last_shown)

  trim_left-IsTight : (s : Text) → IsTight s → host.trim_left s ≡ s
  trim_left-IsTight s k = rw k.is_cons (laws.trim_left_keep k.first k.others k.first_shown)

  trim-IsTight : (s : Text) → IsTight s → trim host s ≡ s
  unfolding trim
  trim-IsTight s k = ap host.trim_left (trim_right-IsTight s k) ∙ trim_left-IsTight s k

  trim_right_space : (c : ℕ) (s : Text) → IsTight s → host.trim_right (c ∷ s) ≡ c ∷ s
  trim_right_space c s k = rw k.is_snoc (laws.trim_right_keep (c ∷ k.front) k.last k.last_shown)

  trim_space : (s : Text) → IsTight s → trim host (32 ∷ s) ≡ s
  unfolding trim
  trim_space s k =
      ap host.trim_left (trim_right_space 32 s k)
      ∙ laws.trim_left_space 32 s refl
      ∙ trim_left-IsTight s k

  key-IsTight : IsTight length_key
  key-IsTight = record {
    first = b'C';
    others = codes "ontent-Length";
    is_cons = refl;
    first_shown = refl;
    front = codes "Content-Lengt";
    last = b'h';
    is_snoc = refl;
    last_shown = refl;
  }

  module _ (payload : Text) where
    before-header_of : before_first (header_of payload) b':' ≡ length_key
    unfolding header_of
    before-header_of =
        before_first_lem b':' length_key (32 ∷ to_string (length payload)) (omega arith)

    after-header_of : after_first (header_of payload) b':' ≡ 32 ∷ to_string (length payload)
    unfolding header_of
    after-header_of =
        after_first_lem b':' length_key (32 ∷ to_string (length payload)) (omega arith)

    read_header-header_of :
        read_header host (header_of payload) ≡ (length_key, to_string (length payload))
    unfolding read_header
    read_header-header_of = rw (
      trim-IsTight (header_of payload) (header_of-IsTight payload),
      before-header_of,
      after-header_of,
      trim-IsTight length_key key-IsTight,
      trim_space (to_string (length payload)) (number-IsTight payload),
    )

    -- `ReadHeaders` finds the one header that `Send` writes, whatever stands behind it.
    pub read_headers-header_of :
        (rest : Text)
        → read_headers host (header_of payload ++ (separator ++ rest))
          ≡ some ((length_key, to_string (length payload)) ∷ [], length (header_of payload) + 4)
    unfolding read_headers
    read_headers-header_of rest = rw (
      find-header_of payload rest,
      take-append (header_of payload) (separator ++ rest),
      laws.tokenize_single (header_of payload) 10 (header_of-ne-nil payload)
          (header_of-Lacks payload 10 (omega arith) refl),
      read_header-header_of,
    )
