-- ===== src/Text/Find.antt =====
-- The searches of Text/Defs: `find`, `StartsWith`, `BeforeFirst` and `AfterFirst`.
use mathlib.Core.Option
use debugger_dap.Common.{
  ◌⊎◌, ℕ, zero, suc, ◌+◌, ◌≤◌, ◌<◌, ◌≡◌, ◌≢◌, ◌↔◌, refl, ap, sym, ◌∙◌, subst, ltb, Bool, true,
  false, false, [], ◌∷◌, ◌++◌, Option, none, some, length, take, drop, length-append, take-append,
  arith, All, Bool-cases, Option-cases, inl, inr,
}
use debugger_dap.Text.Defs.{
  Text, text_eq, find_char, begins_with, starts_loop, starts_with, find, before_first, after_first,
}

pub text_eq_iff : (a b : Text) → (text_eq a b ≡ true) ↔ (a ≡ b)
unfolding text_eq
text_eq_iff (x ∷ a) (y ∷ b) = ground (arith, text_eq_iff a b)
text_eq_iff _ _ = ground arith

pub text_eq_refl : (a : Text) → text_eq a a ≡ true
text_eq_refl a = (text_eq_iff a a).1 refl

-- A character that does not occur in `s`.
abbrev pub Lacks : ℕ → Text → Type 0
Lacks ch = All (λ c. c ≢ ch)

pub find_char-Lacks : (ch : ℕ) (s : Text) → Lacks ch s → find_char ch s ≡ none
unfolding find_char
find_char-Lacks ch [] h = refl
find_char-Lacks ch (c ∷ s) h = ground (arith, find_char-Lacks ch s h.1, h.0)

pub find_char-append :
    (ch : ℕ) (s t : Text) → Lacks ch s → find_char ch (s ++ ch ∷ t) ≡ some (length s)
unfolding find_char
find_char-append ch [] t h = ground arith
find_char-append ch (c ∷ s) t h = ground (arith, find_char-append ch s t h.1, h.0)

pub before_first_lem : (ch : ℕ) (s t : Text) → Lacks ch s → before_first (s ++ ch ∷ t) ch ≡ s
unfolding before_first
before_first_lem ch s t h = rw (find_char-append ch s t h) (take-append s (ch ∷ t))

pub after_first_lem : (ch : ℕ) (s t : Text) → Lacks ch s → after_first (s ++ ch ∷ t) ch ≡ t
unfolding after_first
after_first_lem ch s t h = rw (find_char-append ch s t h) (step s)
  where
    step : (s : Text) → drop (suc (length s)) (s ++ ch ∷ t) ≡ t
    step [] = refl
    step (c ∷ s) = step s

-- A text that begins with the pattern is the pattern and a rest.
pub begins_with-append : (p s : Text) → begins_with (p ++ s) p ≡ true
unfolding begins_with
begins_with-append [] [] = refl
begins_with-append [] (c ∷ s) = refl
begins_with-append (c ∷ p) s = ground (arith, begins_with-append p s)

pub begins_with-eq : (s p : Text) → begins_with s p ≡ true → (t : Text) × (s ≡ p ++ t)
unfolding begins_with
begins_with-eq s [] h = (s, refl)
begins_with-eq [] (p ∷ ps) h = cc
begins_with-eq (c ∷ s) (p ∷ ps) h =
    let (t, e) = begins_with-eq s ps (ground arith) in (t, ground arith)

starts_loop_lem : (s p : Text) → length p ≤ length s → starts_loop s p ≡ some (begins_with s p)
unfolding starts_loop begins_with
starts_loop_lem s [] h = ground arith
starts_loop_lem [] (p ∷ ps) h = absurd (omega arith)
starts_loop_lem (c ∷ s) (p ∷ ps) h = ground (arith, starts_loop_lem s ps (omega arith))

-- StartsWith returns on all texts without reading behind the end, and is true exactly of the texts
-- that are the prefix and some rest.
pub starts_with_iff :
    (str prefix : Text)
    → (b : Bool) × (starts_with str prefix ≡ some b)
      × ((b ≡ true) ↔ ((t : Text) × (str ≡ prefix ++ t)))
unfolding starts_with
starts_with_iff str prefix = elim (Bool-cases (ltb (length str) (length prefix))) [
  | inl short ↦ (
    false,
    rw short refl,
    (λ h. absurd (cc), λ (t, e). absurd (ground (arith, ap length e, length-append prefix t))),
  )
  | inr long ↦
      let fits : length prefix ≤ length str = ground (arith, long) in
      (
        begins_with str prefix,
        rw long (starts_loop_lem str prefix fits),
        (
          begins_with-eq str prefix,
          λ (t, e). subst (λ s. begins_with s prefix ≡ true) (sym e) (begins_with-append prefix t),
        ),
      )
]

pub begins_with-take :
    (p b z : Text) (m : ℕ)
    → length p ≤ m
    → length p ≤ length b
    → begins_with (take m b ++ z) p ≡ begins_with b p
unfolding begins_with
begins_with-take [] b z m h k = refl
begins_with-take (p ∷ ps) [] z m h k = absurd (omega arith)
begins_with-take (p ∷ ps) (c ∷ b) z zero h k = absurd (omega arith)
begins_with-take (p ∷ ps) (c ∷ b) z (suc m) h k =
    rw (begins_with-take ps b z m (omega arith) (omega arith))

pub length-begins_with : (s p : Text) → begins_with s p ≡ true → length p ≤ length s
length-begins_with s p h =
    let (t, e) = begins_with-eq s p h in omega (arith, ap length e, length-append p t)

map-suc_inv :
    (o : Option ℕ) {w : ℕ} → Option.map suc o ≡ some w → (v : ℕ) × (o ≡ some v) × (w ≡ suc v)
map-suc_inv none h = cc
map-suc_inv (some v) h = (v, refl, cc)

-- Where the pattern is found in a text with one more character in front.
find-cons :
    (p b : Text) (c : ℕ) {w : ℕ}
    → find p (c ∷ b) ≡ some w
    → ((begins_with (c ∷ b) p ≡ true) × (w ≡ 0))
      ⊎ ((begins_with (c ∷ b) p ≡ false) × ((v : ℕ) × (find p b ≡ some v) × (w ≡ suc v)))
unfolding find
find-cons p b c h = elim (Bool-cases (begins_with (c ∷ b) p)) [
  | inl here ↦ inl (here, ground arith)
  | inr later ↦ inr (later, map-suc_inv (find p b) (rw later at h))
]

pub find_fits : (p b : Text) {w : ℕ} → find p b ≡ some w → w + length p ≤ length b
unfolding find
find_fits p [] h = ground (arith, length-begins_with [] p)
find_fits p (c ∷ b) h = elim (find-cons p b c h) [
  | inl (here, e) ↦ omega (arith, e, length-begins_with (c ∷ b) p here)
  | inr (later, (v, f, e)) ↦ omega (arith, e, find_fits p b f)
]

find-nil : (s : Text) → find [] s ≡ some 0
unfolding find begins_with
find-nil [] = refl
find-nil (c ∷ s) = refl

find_at-zero : (p b : Text) {w : ℕ} → find p b ≡ some w → w + length p ≤ 0 → (p ≡ []) × (w ≡ 0)
find_at-zero [] b h k = (refl, omega arith)
find_at-zero (p ∷ ps) b h k = absurd (omega arith)

find_here : (p b : Text) (c : ℕ) → begins_with (c ∷ b) p ≡ true → find p (c ∷ b) ≡ some 0
unfolding find
find_here p b c h = rw h

find_later :
    (p b : Text) (c : ℕ) {v : ℕ}
    → begins_with (c ∷ b) p ≡ false
    → find p b ≡ some v
    → find p (c ∷ b) ≡ some (suc v)
unfolding find
find_later p b c h e = rw (h, e)

-- A match is found again in any text that agrees with the first up to the end of the match.
pub find-take :
    (p b z : Text) (m : ℕ) {w : ℕ}
    → find p b ≡ some w
    → w + length p ≤ m
    → find p (take m b ++ z) ≡ some w
find-take p b z zero h k = let (e, f) = find_at-zero p b h k in rw (e, f) (find-nil z)
find-take p [] z (suc m) h k =
    let (e, f) = find_at-zero p [] h (find_fits p [] h) in rw (e, f) (find-nil z)
find-take p (c ∷ b) z (suc m) h k = elim (find-cons p b c h) [
  | inl (here, e) ↦
      let fits = length-begins_with (c ∷ b) p here in
      let again = begins_with-take p (c ∷ b) z (suc m) (omega arith) fits ∙ here in
      find_here p _ c again ∙ ap some (sym e)
  | inr (later, (v, f, e)) ↦
      let fits = find_fits p b f in
      let again = begins_with-take p (c ∷ b) z (suc m) (omega arith) (omega arith) ∙ later in
      find_later p _ c again (find-take p b z m f (omega arith)) ∙ ap some (sym e)
]

head_differs : (p : ℕ) (ps : Text) (c : ℕ) (s : Text) → c ≢ p → begins_with (c ∷ s) (p ∷ ps) ≡ false
unfolding begins_with
head_differs p ps c s h = ground (arith, h)

-- No match can begin in a part that lacks the pattern's first character.
pub find-append_Lacks :
    (p : ℕ) (ps s t : Text) {w : ℕ}
    → Lacks p s
    → find (p ∷ ps) t ≡ some w
    → find (p ∷ ps) (s ++ t) ≡ some (length s + w)
find-append_Lacks p ps [] t l h = h ∙ ap some (omega arith)
find-append_Lacks p ps (c ∷ s) t l h =
    find_later (p ∷ ps) (s ++ t) c (head_differs p ps c (s ++ t) l.0)
      (find-append_Lacks p ps s t l.1 h)
    ∙ ap some (omega arith)

pub find-append_none :
    (p : ℕ) (ps s t : Text) → Lacks p s → find (p ∷ ps) t ≡ none → find (p ∷ ps) (s ++ t) ≡ none
unfolding find begins_with
find-append_none p ps [] t l h = h
find-append_none p ps (c ∷ s) t l h = ground (arith, find-append_none p ps s t l.1 h, l.0)

pub find-Lacks : (p : ℕ) (ps s : Text) → Lacks p s → find (p ∷ ps) s ≡ none
unfolding find begins_with
find-Lacks p ps [] h = refl
find-Lacks p ps (c ∷ s) h = ground (arith, find-Lacks p ps s h.1, h.0)

-- A text shorter than the pattern does not hold it.
pub find_short : (p s : Text) → length s < length p → find p s ≡ none
find_short p s h = elim (Option-cases (find p s)) [
  | inl e ↦ e
  | inr (w, e) ↦ absurd (omega (arith, find_fits p s e))
]
