-- ===== src/Tests/Host.antt =====
-- Executable versions of the wxWidgets functions that the framing takes, with their laws.
use debugger_dap.Common.{
  ℕ, ◌≡◌, ◌≢◌, refl, sym, ap, ◌∙◌, Bool, true, false, ◌&&◌, ◌==◌, List, [], ◌∷◌, ◌++◌, append_assoc,
  append-nil, if◌then◌else◌, arith,
}
use debugger_dap.Text.{Text, is_space}
use debugger_dap.Text.Find.{Lacks}
use debugger_dap.Rpc.{Host, HostLaws}

unfoldable pub is_nil : Text → Bool
is_nil [] = true
is_nil (c ∷ s) = false

unfoldable pub right_trimmed : Text → Text
unfolding is_nil
right_trimmed [] = []
right_trimmed (c ∷ s) =
    let rest = right_trimmed s in if is_space c && is_nil rest then [] else c ∷ rest

unfoldable pub left_trimmed : Text → Text
left_trimmed [] = []
left_trimmed (c ∷ s) = let rest = left_trimmed s in if is_space c then rest else c ∷ s

unfoldable pub token : Text → List Text
token [] = []
token (c ∷ s) = (c ∷ s) ∷ []

unfoldable pub tokens_from : ℕ → Text → Text → List Text
unfolding token
tokens_from ch token_start [] = token token_start
tokens_from ch token_start (c ∷ s) =
    let closed = tokens_from ch [] s in
    let open_still = tokens_from ch (token_start ++ c ∷ []) s in
    if c == ch then token token_start ++ closed else open_still

abbrev pub example_host : Host
example_host = record {
  trim_right = right_trimmed;
  trim_left = left_trimmed;
  tokenize = λ s ch. tokens_from ch [] s;
  long_max = 0x7fffffff;
}

right_trimmed_keep :
    (s : Text) (c : ℕ) → is_space c ≡ false → right_trimmed (s ++ c ∷ []) ≡ s ++ c ∷ []
unfolding right_trimmed is_nil
right_trimmed_keep [] c h = ap (λ b. if b && true then [] else c ∷ []) h
right_trimmed_keep (d ∷ []) c h = rw (right_trimmed_keep [] c h) (keep (is_space d))
  where
    keep : (b : Bool) → (if b && false then [] else d ∷ c ∷ []) ≡ d ∷ c ∷ []
    keep true = refl
    keep false = refl
right_trimmed_keep (d ∷ e ∷ s) c h = rw (right_trimmed_keep (e ∷ s) c h) (keep (is_space d))
  where
    keep : (b : Bool) → (if b && false then [] else d ∷ e ∷ (s ++ c ∷ [])) ≡ d ∷ e ∷ (s ++ c ∷ [])
    keep true = refl
    keep false = refl

tokens_from_lacking :
    (ch : ℕ) (start s : Text) → Lacks ch s → tokens_from ch start s ≡ token (start ++ s)
unfolding tokens_from
tokens_from_lacking ch start [] h = ap token (sym (append-nil start))
tokens_from_lacking ch start (c ∷ s) h =
    ap (λ b. if b then token start ++ tokens_from ch [] s else tokens_from ch (start ++ c ∷ []) s)
      (test c ch h.0)
    ∙ tokens_from_lacking ch (start ++ c ∷ []) s h.1
    ∙ ap token (append_assoc start (c ∷ []) s)
  where
    test : (c ch : ℕ) → c ≢ ch → (c == ch) ≡ false
    test c ch n = ground (arith, n)

single : (s : Text) → s ≢ [] → token s ≡ s ∷ []
unfolding token
single [] n = absurd (n refl)
single (c ∷ s) n = refl

pub example_host-HostLaws : HostLaws example_host
unfolding left_trimmed
example_host-HostLaws = record {
  trim_right_keep = right_trimmed_keep;
  trim_left_keep = λ c s h. ap (λ b. if b then left_trimmed s else c ∷ s) h;
  trim_left_space = λ c s h. ap (λ b. if b then left_trimmed s else c ∷ s) h;
  tokenize_single = λ s ch n h. tokens_from_lacking ch [] s h ∙ single s n;
}
