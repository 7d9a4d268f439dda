-- ===== src/Text/Decimal.antt =====
-- Decimal numbers: `std::to_string` of an unsigned number and `std::atol`, on numbers that a `long`
-- holds.
use debugger_dap.Common.{
  ℕ, zero, suc, ◌+◌, ◌-◌, ◌*◌, ◌/◌, ◌%◌, ◌<◌, ◌≡◌, ◌≢◌, refl, ap, ◌∙◌, true, [], ◌∷◌, ltb, ltb→lt,
  ltb→le, ◌==◌, if◌then◌else◌, arith, All, Bool-cases, inl, inr,
}
use debugger_dap.Common.Int.{ℤ, pos, negsuc, neg}
use debugger_dap.Text.Defs.{Text, is_space, is_digit}

-- The digits of `n`, in front of those already written. The fuel bounds the number of digits.
unfoldable pub digits : ℕ → ℕ → Text → Text
digits zero n acc = acc
digits (suc f) n acc =
    let rest = digits f (n / 10) ((48 + n % 10) ∷ acc) in if ltb n 10 then (48 + n) ∷ acc else rest

unfoldable pub to_string : ℕ → Text
unfolding digits
to_string n = digits (suc n) n []

-- The digits at the front of a text, after a value already read.
unfoldable pub read_digits : ℕ → Text → ℕ
read_digits acc [] = acc
read_digits acc (c ∷ s) =
    let rest = read_digits (acc * 10 + (c - 48)) s in if is_digit c then rest else acc

-- An optional sign and the digits behind it.
unfoldable pub read_signed : Text → ℤ
read_signed [] = pos 0
read_signed (c ∷ s) =
    if c == b'-'
    then neg (read_digits 0 s)
    else if c == b'+'
    then pos (read_digits 0 s)
    else pos (read_digits 0 (c ∷ s))

-- `std::atol`: white space, an optional sign, digits; 0 if there are none. Its value outside the
-- range of `long` is undefined in C: here it is the number that is written.
unfoldable pub atol : Text → ℤ
unfolding read_signed read_digits
atol [] = pos 0
atol (c ∷ s) = if is_space c then atol s else read_signed (c ∷ s)

IsDigits : Text → Type 0
IsDigits = All (λ c. is_digit c ≡ true)

is_digit-add : (n : ℕ) → n < 10 → is_digit (48 + n) ≡ true
is_digit-add n h = ground arith

digits-IsDigits : (f n : ℕ) (acc : Text) → IsDigits acc → IsDigits (digits f n acc)
unfolding digits IsDigits
digits-IsDigits zero n acc h = h
digits-IsDigits (suc f) n acc h = elim (Bool-cases (ltb n 10)) [
  | inl small ↦ rw small (is_digit-add n (ground arith), h)
  | inr large ↦ rw large (digits-IsDigits f (n / 10) _ (is_digit-add (n % 10) (omega arith), h))
]

digits-ne-nil : (f n : ℕ) (acc : Text) → acc ≢ [] → digits f n acc ≢ []
unfolding digits
digits-ne-nil zero n acc h = h
digits-ne-nil (suc f) n acc h = elim (Bool-cases (ltb n 10)) [
  | inl small ↦ rw small (λ e. cc)
  | inr large ↦ rw large (digits-ne-nil f (n / 10) _ (λ e. cc))
]

pub to_string-ne-nil : (n : ℕ) → to_string n ≢ []
unfolding to_string
to_string-ne-nil n = elim (Bool-cases (ltb n 10)) [
  | inl small ↦ rw small (λ e. cc)
  | inr large ↦ rw large (digits-ne-nil n (n / 10) _ (λ e. cc))
]

read_digits-digit :
    (v d : ℕ) (acc : Text) → d < 10 → read_digits v ((48 + d) ∷ acc) ≡ read_digits (v * 10 + d) acc
unfolding read_digits
read_digits-digit v d acc h =
    let e : v * 10 + (48 + d - 48) ≡ v * 10 + d = omega arith in rw (is_digit-add d h, e)

read_digits-digits :
    (f n : ℕ) (acc : Text) → n < f → read_digits 0 (digits f n acc) ≡ read_digits n acc
unfolding digits
read_digits-digits zero n acc h = elim h [ ]
read_digits-digits (suc f) n acc h = elim (Bool-cases (ltb n 10)) [
  | inl small ↦
      rw small
        (read_digits-digit 0 n acc (ltb→lt n 10 small) ∙ ap (λ k. read_digits k acc) (omega arith))
  | inr large ↦ rw large (
      read_digits-digits f (n / 10) _ (omega (arith, ltb→le n 10 large))
      ∙ read_digits-digit (n / 10) (n % 10) acc (omega arith)
      ∙ ap (λ k. read_digits k acc) (omega arith))
]

-- The text of a number is a digit and further digits, with no sign, no space and no separator.
pub record IsNumeral (s : Text) : Type 0 where
  pub first : ℕ
  pub others : Text
  pub is_cons : s ≡ first ∷ others
  pub all_digits : All (λ c. is_digit c ≡ true) s

to_string-IsDigits : (n : ℕ) → IsDigits (to_string n)
unfolding to_string IsDigits
to_string-IsDigits n = digits-IsDigits (suc n) n [] tt

IsDigits-IsNumeral : (s : Text) → s ≢ [] → IsDigits s → IsNumeral s
unfolding IsDigits
IsDigits-IsNumeral [] h k = absurd (h refl)
IsDigits-IsNumeral (c ∷ s) h k = record { first = c; others = s; is_cons = refl; all_digits = k }

pub to_string-IsNumeral : (n : ℕ) → IsNumeral (to_string n)
to_string-IsNumeral n = IsDigits-IsNumeral (to_string n) (to_string-ne-nil n) (to_string-IsDigits n)

atol_digit : (c : ℕ) (s : Text) → is_digit c ≡ true → atol (c ∷ s) ≡ pos (read_digits 0 (c ∷ s))
unfolding atol
atol_digit c s h = ground arith

atol-IsNumeral : (s : Text) → IsNumeral s → atol s ≡ pos (read_digits 0 s)
atol-IsNumeral [] m = absurd (cc (m.is_cons))
atol-IsNumeral (c ∷ s) m = atol_digit c s m.all_digits.0

read_digits-to_string : (n : ℕ) → read_digits 0 (to_string n) ≡ n
read_digits-to_string n =
    unfold to_string in read_digits-digits (suc n) n [] (omega arith) ∙ unfold read_digits in refl

-- `std::atol` reads back what `std::to_string` writes.
pub atol-to_string : (n : ℕ) → atol (to_string n) ≡ pos n
atol-to_string n =
    atol-IsNumeral (to_string n) (to_string-IsNumeral n) ∙ ap pos (read_digits-to_string n)

-- `std::atol` reads a minus sign in front of what `std::to_string` writes.
pub atol-minus : (n : ℕ) → atol (b'-' ∷ to_string (suc n)) ≡ negsuc n
unfolding atol read_signed
atol-minus n = ap neg (read_digits-to_string (suc n))
