-- ===== src/Prelude/Text.antt =====
-- Numbers as text, by the functions of the standard library that the program calls:
-- `std::to_string`, `std::stoul` and `std::stol`. A `long` has 32 bits on Windows.
use Prim.Native.Char.{Char, code}
use Prim.Native.String.{String}
use Prim.Native.String.{◌++◌ as str_append}
use text.Mathlib.TextLemmas.{nil-append, cons-append}
use tosdata_bridge.Prelude.{
  ℕ, zero, suc, ◌+◌, ◌-◌, ◌*◌, ◌/◌, ◌%◌, ◌^◌, ◌≤◌, ◌<◌, ◌≡◌, refl, ap, ◌∙◌, Bool, true, false, ◌&&◌,
  ◌||◌, Option, none, some, arith, ltb, leb, ◌==◌, if◌then◌else◌, Bool-cases, inl, inr,
}
use tosdata_bridge.Prelude.Int.{ℤ, pos, negsuc, sub_ℕ}

abbrev pub digit_char : ℕ → Char
digit_char zero = "0"
digit_char (suc zero) = "1"
digit_char (suc (suc zero)) = "2"
digit_char (suc (suc (suc zero))) = "3"
digit_char (suc (suc (suc (suc zero)))) = "4"
digit_char (suc (suc (suc (suc (suc zero))))) = "5"
digit_char (suc (suc (suc (suc (suc (suc zero)))))) = "6"
digit_char (suc (suc (suc (suc (suc (suc (suc zero))))))) = "7"
digit_char (suc (suc (suc (suc (suc (suc (suc (suc zero)))))))) = "8"
digit_char (suc (suc (suc (suc (suc (suc (suc (suc (suc n))))))))) = "9"

-- The digits of a number before a text; a number has at most as many digits as its value and one.
unfoldable pub digits : ℕ → ℕ → String → String
digits zero n out = out
digits (suc f) n out =
    let rest = digits f (n / 10) (String.◌∷◌ (digit_char (n % 10)) out) in
    if ltb n 10 then String.◌∷◌ (digit_char n) out else rest

unfoldable pub to_string : ℕ → String
unfolding digits
to_string n = digits (suc n) n String.[]

unfoldable pub to_string_ℤ : ℤ → String
to_string_ℤ (pos n) = to_string n
to_string_ℤ (negsuc n) = String.◌∷◌ "-" (to_string (suc n))

abbrev pub is_digit : ℕ → Bool
is_digit c = leb 48 c && leb c 57

-- `isspace` of the C locale.
abbrev pub is_space : ℕ → Bool
is_space c = (c == 32) || (leb 9 c && leb c 13)

-- The value of the digits that a text begins with, behind those that have been read.
pub scan : String → ℕ → ℕ
scan String.[] n = n
scan (String.◌∷◌ c s) n =
    let rest = scan s (n * 10 + (code c - 48)) in if is_digit (code c) then rest else n

unfoldable pub starts_with_digit : String → Bool
starts_with_digit String.[] = false
starts_with_digit (String.◌∷◌ c s) = is_digit (code c)

skip_spaces : String → String
skip_spaces String.[] = String.[]
skip_spaces (String.◌∷◌ c s) =
    let rest = skip_spaces s in if is_space (code c) then rest else String.◌∷◌ c s

-- The sign and what follows it.
split_sign : String → Bool × String
split_sign String.[] = (false, String.[])
split_sign (String.◌∷◌ c s) =
    if code c == 45 then (true, s) else if code c == 43 then (false, s) else (false, String.◌∷◌ c s)

-- Whether the number is negative, and its size; `none` is `std::invalid_argument`.
pub read_number : String → Option (Bool × ℕ)
unfolding skip_spaces split_sign starts_with_digit scan
read_number s =
    let (negative, rest) = split_sign (skip_spaces s) in
    if starts_with_digit rest then some (negative, scan rest 0) else none

-- `none` is an exception. A minus sign wraps around.
unfoldable pub stoul : String → Option ℕ
stoul s = elim (read_number s) [
  | none ↦ none
  | some (negative, n) ↦
      if ltb n (2 ^ 32) then some (if negative then (2 ^ 32 - n) % 2 ^ 32 else n) else none
]

unfoldable pub stol : String → Option ℤ
stol s = elim (read_number s) [
  | none ↦ none
  | some (negative, n) ↦
      if negative
      then (if leb n (2 ^ 31) then some (sub_ℕ 0 n) else none)
      else (if ltb n (2 ^ 31) then some (pos n) else none)
]

pub code-digit_char : (d : ℕ) → d < 10 → code (digit_char d) ≡ 48 + d
code-digit_char zero h = refl
code-digit_char (suc zero) h = refl
code-digit_char (suc (suc zero)) h = refl
code-digit_char (suc (suc (suc zero))) h = refl
code-digit_char (suc (suc (suc (suc zero)))) h = refl
code-digit_char (suc (suc (suc (suc (suc zero))))) h = refl
code-digit_char (suc (suc (suc (suc (suc (suc zero)))))) h = refl
code-digit_char (suc (suc (suc (suc (suc (suc (suc zero))))))) h = refl
code-digit_char (suc (suc (suc (suc (suc (suc (suc (suc zero)))))))) h = refl
code-digit_char (suc (suc (suc (suc (suc (suc (suc (suc (suc n))))))))) h = omega arith

starts-digits : (f n : ℕ) (out : String) → n < f → starts_with_digit (digits f n out) ≡ true
unfolding digits starts_with_digit
starts-digits zero n out h = absurd (omega arith)
starts-digits (suc f) n out h =
    ground
      (arith, code-digit_char n, starts-digits f (n / 10) (String.◌∷◌ (digit_char (n % 10)) out))

-- Reading the digits of a number gives it back.
scan-digits : (f n : ℕ) (out : String) → n < f → scan (digits f n out) 0 ≡ scan out n
unfolding digits scan
scan-digits zero n out h = absurd (omega arith)
scan-digits (suc f) n out h = ground (
  arith,
  code-digit_char n,
  code-digit_char (n % 10),
  scan-digits f (n / 10) (String.◌∷◌ (digit_char (n % 10)) out),
)

-- A text without spaces and signs in front is read as it is.
read_number-digits :
    (s : String) → starts_with_digit s ≡ true → read_number s ≡ some (false, scan s 0)
unfolding read_number starts_with_digit skip_spaces split_sign
read_number-digits String.[] h = cc
read_number-digits (String.◌∷◌ c s) h = ground arith

digits-append :
    (f n : ℕ) (s out : String) → str_append (digits f n s) out ≡ digits f n (str_append s out)
unfolding digits
digits-append zero n s out = refl
digits-append (suc f) n s out = elim (Bool-cases (ltb n 10)) [
  | inl h ↦ rw h (cons-append (digit_char n) s out)
  | inr h ↦ rw h (
      digits-append f (n / 10) (String.◌∷◌ (digit_char (n % 10)) s) out
      ∙ ap (digits f (n / 10)) (cons-append (digit_char (n % 10)) s out))
]

pub to_string-append : (n : ℕ) (out : String) → str_append (to_string n) out ≡ digits (suc n) n out
unfolding to_string
to_string-append n out =
    digits-append (suc n) n String.[] out ∙ ap (digits (suc n) n) (nil-append out)

scan-stop : (out : String) (n : ℕ) → starts_with_digit out ≡ false → scan out n ≡ n
unfolding scan starts_with_digit
scan-stop String.[] n h = refl
scan-stop (String.◌∷◌ c s) n h = ground (arith, h)

-- What `std::to_string` writes of a number is read back, whatever follows that is no digit.
pub read-to_string :
    (n : ℕ) (out : String)
    → starts_with_digit out ≡ false
    → read_number (str_append (to_string n) out) ≡ some (false, n)
read-to_string n out h =
    ap read_number (to_string-append n out)
    ∙ read_number-digits (digits (suc n) n out) (starts-digits (suc n) n out (omega arith))
    ∙ ap (λ k. some (false, k)) (scan-digits (suc n) n out (omega arith) ∙ scan-stop out n h)

pub stoul-to_string :
    (n : ℕ) (out : String)
    → n < 2 ^ 32
    → starts_with_digit out ≡ false
    → stoul (str_append (to_string n) out) ≡ some n
unfolding stoul
stoul-to_string n out h k = ground (arith, read-to_string n out)

read-minus :
    (s : String)
    → starts_with_digit s ≡ true
    → read_number (String.◌∷◌ "-" s) ≡ some (true, scan s 0)
unfolding read_number skip_spaces split_sign
read-minus s h = ground (arith, h)

read-negative :
    (n : ℕ) (out : String)
    → starts_with_digit out ≡ false
    → read_number (String.◌∷◌ "-" (str_append (to_string n) out)) ≡ some (true, n)
read-negative n out h =
    ap (λ t. read_number (String.◌∷◌ "-" t)) (to_string-append n out)
    ∙ read-minus (digits (suc n) n out) (starts-digits (suc n) n out (omega arith))
    ∙ ap (λ k. some (true, k)) (scan-digits (suc n) n out (omega arith) ∙ scan-stop out n h)

stol-negative :
    (n : ℕ) (out : String)
    → n < 2 ^ 31
    → starts_with_digit out ≡ false
    → stol (String.◌∷◌ "-" (str_append (to_string (suc n)) out)) ≡ some (negsuc n)
unfolding stol
stol-negative n out h k = ground (arith, read-negative (suc n) out)

stol-positive :
    (n : ℕ) (out : String)
    → n < 2 ^ 31
    → starts_with_digit out ≡ false
    → stol (str_append (to_string n) out) ≡ some (pos n)
unfolding stol
stol-positive n out h k = ground (arith, read-to_string n out)

-- The integers of an `int`.
abbrev pub FitsInt : ℤ → Type 0
FitsInt (pos n) = n < 2 ^ 31
FitsInt (negsuc n) = n < 2 ^ 31

pub stol-to_string_ℤ :
    (z : ℤ) (out : String)
    → FitsInt z
    → starts_with_digit out ≡ false
    → stol (str_append (to_string_ℤ z) out) ≡ some z
unfolding to_string_ℤ
stol-to_string_ℤ (pos n) out h k = stol-positive n out h k
stol-to_string_ℤ (negsuc n) out h k =
    ap stol (cons-append "-" (to_string (suc n)) out) ∙ stol-negative n out h k

-- No digit is a space, and a number has as many digits as its size allows.
abbrev pub count_chars : String → ℕ
count_chars String.[] = 0
count_chars (String.◌∷◌ c s) = suc (count_chars s)

digits-count :
    (k f n : ℕ) (out : String)
    → n < 10 ^ suc k
    → count_chars (digits f n out) ≤ count_chars out + suc k
unfolding digits
digits-count k zero n out h = omega arith
digits-count zero (suc f) n out h = ground (arith, h)
digits-count (suc k) (suc f) n out h =
    ground (arith, digits-count k f (n / 10) (String.◌∷◌ (digit_char (n % 10)) out))

pub to_string-count : (k n : ℕ) → n < 10 ^ suc k → count_chars (to_string n) ≤ suc k
unfolding to_string
to_string-count k n h = omega (arith, digits-count k (suc n) n String.[] h)
