-- ===== src/Ipc/Args.antt =====
-- src/main.cpp: `ParseArgs`, which splits a text at its spaces.
use Prim.Native.Char.{Char, code}
use Prim.Native.String.{String}
use Prim.Native.String.{◌++◌ as str_append}
use text.Mathlib.TextEquality.{Char-path}
use text.Mathlib.TextLemmas.{nil-append, cons-append, append-nil}
use tosdata_bridge.Prelude.{
  ℕ, zero, suc, ◌<◌, ◌≤◌, ◌≡◌, refl, sym, ap, subst, ◌∙◌, Bool, true, false, ◌&&◌, not, Option,
  none, some, List, [], ◌∷◌, arith, ◌==◌, if◌then◌else◌, Bool-cases, inl, inr,
}
use tosdata_bridge.Prelude.Text.{count_chars}

abbrev pub is_empty : String → Bool
is_empty String.[] = true
is_empty (String.◌∷◌ c s) = false

-- The text before the first space, and the text behind it, if there is a space.
unfoldable pub split_space : String → Option (String × String)
split_space String.[] = none
split_space (String.◌∷◌ c s) = if code c == 32 then some (String.[], s) else elim (split_space s) [
  | none ↦ none
  | some (before, after) ↦ some (String.◌∷◌ c before, after)
]

-- `ParseArgs`; `none` says that the fuel ran out.
unfoldable pub parse_args : ℕ → String → Option (List String)
parse_args zero s = none
parse_args (suc f) s = elim (split_space s) [
  | none ↦ some (if is_empty s then [] else s ∷ [])
  | some (before, after) ↦ elim (parse_args f after) [
    | none ↦ none
    | some args ↦ some (if is_empty before then args else before ∷ args)
  ]
]

abbrev pub has_no_space : String → Bool
has_no_space String.[] = true
has_no_space (String.◌∷◌ c s) = not (code c == 32) && has_no_space s

-- A text that `ParseArgs` takes for one argument.
abbrev pub IsWord : String → Type 0
IsWord s = (is_empty s ≡ false) × (has_no_space s ≡ true)

abbrev pub AllWords : List String → Type 0
AllWords [] = Unit
AllWords (w ∷ ws) = IsWord w × AllWords ws

-- So many spaces.
abbrev pub pad : ℕ → String
pad zero = String.[]
pad (suc n) = String.◌∷◌ " " (pad n)

-- Some words with so many spaces before each of them, and so many at the end.
abbrev pub spread : List (ℕ × String) → ℕ → String
spread [] m = pad m
spread ((n, w) ∷ l) m = str_append (pad n) (str_append w (spread l m))

abbrev pub words : List (ℕ × String) → List String
words [] = []
words ((n, w) ∷ l) = w ∷ words l

-- At least one space stands before each word, and before each but the first.
abbrev pub AllApart : List (ℕ × String) → Type 0
AllApart [] = Unit
AllApart ((n, w) ∷ l) = (1 ≤ n) × AllApart l

abbrev pub Apart : List (ℕ × String) → Type 0
Apart [] = Unit
Apart ((n, w) ∷ l) = AllApart l

-- One more space at the start.
abbrev more : List (ℕ × String) → List (ℕ × String)
more [] = []
more ((n, w) ∷ l) = (suc n, w) ∷ l

abbrev at_end : List (ℕ × String) → ℕ → ℕ
at_end [] m = suc m
at_end (_ ∷ l) m = m

spread-more :
    (l : List (ℕ × String)) (m : ℕ) → spread (more l) (at_end l m) ≡ String.◌∷◌ " " (spread l m)
spread-more [] m = refl
spread-more ((n, w) ∷ l) m = cons-append " " (pad n) (str_append w (spread l m))

words-more : (l : List (ℕ × String)) → words (more l) ≡ words l
words-more [] = refl
words-more ((n, w) ∷ l) = refl

more-AllApart : (l : List (ℕ × String)) → Apart l → AllApart (more l)
more-AllApart [] a = tt
more-AllApart ((n, w) ∷ l) a = (omega arith, a)

more-Apart : (l : List (ℕ × String)) → Apart l → Apart (more l)
more-Apart [] a = tt
more-Apart ((n, w) ∷ l) a = a

-- What `split_space` finds, and what it says of the text.
abbrev Splits : String → Option (String × String) → Type 0
Splits s none = has_no_space s ≡ true
Splits s (some (before, after)) =
    (has_no_space before ≡ true)
    × (s ≡ str_append before (String.◌∷◌ " " after))
    × (count_chars after < count_chars s)

Splits-cons :
    (c : Char) (s : String) (o : Option (String × String))
    → (code c == 32) ≡ false
    → Splits s o
    → Splits
        (String.◌∷◌ c s)
        (elim o [ none ↦ none | some (before, after) ↦ some (String.◌∷◌ c before, after) ])
Splits-cons c s none e h = rw e h
Splits-cons c s (some (before, after)) e h = (
  rw e h.0,
  ap (String.◌∷◌ c) h.1 ∙ sym (cons-append c before (String.◌∷◌ " " after)),
  omega (arith, h.2),
)

split_space-Splits : (s : String) → Splits s (split_space s)
unfolding split_space
split_space-Splits String.[] = refl
split_space-Splits (String.◌∷◌ c s) = elim (Bool-cases (code c == 32)) [
  | inl e ↦
      let q : c ≡ " " = Char-path c " " (ground (arith, e)) in
      rw e (refl, ap (λ d. String.◌∷◌ d s) q ∙ sym (nil-append (String.◌∷◌ " " s)), omega arith)
  | inr e ↦ rw e (Splits-cons c s (split_space s) e (split_space-Splits s))
]

-- What `ParseArgs` returns: words, which with spaces before, between and behind them are the text.
abbrev Parsed : String → Option (List String) → Type 0
Parsed s o =
    (l : List (ℕ × String)) × (m : ℕ) × (o ≡ some (words l))
    × (s ≡ spread l m)
    × AllWords (words l)
    × Apart l

Parsed-step :
    (b a s : String) (o : Option (List String))
    → Splits s (some (b, a))
    → Parsed a o
    → Parsed s (elim o [ none ↦ none | some args ↦ some (if is_empty b then args else b ∷ args) ])
Parsed-step String.[] a s o h (l, m, e, q, w, p) = (
  more l,
  at_end l m,
  rw e (ap some (sym (words-more l))),
  h.1 ∙ nil-append (String.◌∷◌ " " a) ∙ ap (String.◌∷◌ " ") q ∙ sym (spread-more l m),
  subst AllWords (sym (words-more l)) w,
  more-Apart l p,
)
Parsed-step (String.◌∷◌ c b) a s o h (l, m, e, q, w, p) = (
  (0, String.◌∷◌ c b) ∷ more l,
  at_end l m,
  rw e (ap (λ ws. some (String.◌∷◌ c b ∷ ws)) (sym (words-more l))),
  h.1
      ∙ ap (λ x. str_append (String.◌∷◌ c b) (String.◌∷◌ " " x)) q
      ∙ ap (str_append (String.◌∷◌ c b)) (sym (spread-more l m))
      ∙ sym (nil-append (str_append (String.◌∷◌ c b) (spread (more l) (at_end l m)))),
  ((refl, h.0), subst AllWords (sym (words-more l)) w),
  more-AllApart l p,
)

Parsed-last : (s : String) → Splits s none → Parsed s (some (if is_empty s then [] else s ∷ []))
Parsed-last String.[] h = ([], 0, refl, refl, tt, tt)
Parsed-last (String.◌∷◌ c s) h = (
  (0, String.◌∷◌ c s) ∷ [],
  0,
  refl,
  sym (nil-append (str_append (String.◌∷◌ c s) String.[]) ∙ append-nil (String.◌∷◌ c s)),
  ((refl, h), tt),
  tt,
)

parse_args-step :
    (f : ℕ) (s : String) (o : Option (String × String))
    → Splits s o
    → ((a : String) → count_chars a < f → Parsed a (parse_args f a))
    → count_chars s < suc f
    → Parsed s (elim o [
      | none ↦ some (if is_empty s then [] else s ∷ [])
      | some (before, after) ↦ elim (parse_args f after) [
        | none ↦ none
        | some args ↦ some (if is_empty before then args else before ∷ args)
      ]
    ])
parse_args-step f s none h rec l = Parsed-last s h
parse_args-step f s (some (b, a)) h rec l =
    Parsed-step b a s (parse_args f a) h (rec a (omega (arith, h, l)))

-- `ParseArgs` ends, within as many calls as the text has characters and one, and returns the parts
-- of the text between its spaces, in their order: words, none of them empty or with a space, such that
-- the text is these words with at least one space between neighbours, any number of spaces before the
-- first and behind the last, and nothing else.
pub parse_args_total :
    (f : ℕ) (s : String)
    → count_chars s < f
    → (l : List (ℕ × String)) × (m : ℕ) × (parse_args f s ≡ some (words l))
      × (s ≡ spread l m)
      × AllWords (words l)
      × Apart l
unfolding parse_args
parse_args_total zero s h = absurd (omega arith)
parse_args_total (suc f) s h =
    parse_args-step f s (split_space s) (split_space-Splits s) (parse_args_total f) h

-- A word that a space follows is the first argument.
split_space-word :
    (w rest : String)
    → has_no_space w ≡ true
    → split_space (str_append w (String.◌∷◌ " " rest)) ≡ some (w, rest)
unfolding split_space
split_space-word String.[] rest h = ap split_space (nil-append (String.◌∷◌ " " rest))
split_space-word (String.◌∷◌ c w) rest h =
    ap split_space (cons-append c w (String.◌∷◌ " " rest))
    ∙ ground (arith, h, split_space-word w rest)

split_space-last : (w : String) → has_no_space w ≡ true → split_space w ≡ none
unfolding split_space
split_space-last String.[] h = refl
split_space-last (String.◌∷◌ c w) h = ground (arith, h, split_space-last w)

pub parse_args-word :
    (f : ℕ) (w rest : String) (args : List String)
    → IsWord w
    → parse_args f rest ≡ some args
    → parse_args (suc f) (str_append w (String.◌∷◌ " " rest)) ≡ some (w ∷ args)
unfolding parse_args
parse_args-word f w rest args h g = ground (arith, split_space-word w rest h.1, h.0, g)

pub parse_args-last : (f : ℕ) (w : String) → IsWord w → parse_args (suc f) w ≡ some (w ∷ [])
unfolding parse_args
parse_args-last f w h = ground (arith, split_space-last w h.1, h.0)
