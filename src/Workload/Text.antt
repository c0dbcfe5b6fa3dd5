-- ===== src/Workload/Text.antt =====
-- sim/workload_trace.cpp: the tokens of a line and the numbers in them. A text is the list of its
-- bytes. `std::isspace` is that of the "C" locale.
use Prim.Native.Char.{code}
use Prim.Native.String
use programmable_retention_t.Prelude.{
  ℕ, ◌+◌, ◌-◌, ◌*◌, Bool, true, false, ◌&&◌, ◌||◌, List, [], ◌∷◌, ◌++◌, Option, none, some, ◌==◌,
  ltb, leb, if◌then◌else◌, infinite, sub64, String,
}
use mathlib.Core.Option
use programmable_retention_t.Prelude.Exceptions.{Attempt, returned, thrown, ◌>>=◌}

abbrev pub Text : Type 0
Text = List ℕ

-- The bytes of an ASCII literal.
abbrev pub codes : String → Text
codes String.[] = []
codes (String.◌∷◌ c s) = code c ∷ codes s

-- `==` of `std::string`
abbrev pub same_text : Text → Text → Bool
same_text [] [] = true
same_text [] (d ∷ t) = false
same_text (c ∷ s) [] = false
same_text (c ∷ s) (d ∷ t) = c == d && same_text s t

abbrev pub is_empty : Text → Bool
is_empty [] = true
is_empty (c ∷ s) = false

unfoldable pub is_space : ℕ → Bool
is_space c = c == 32 || leb 9 c && leb c 13

-- `input >> token`, over and over: `word` holds the bytes of the token that has begun.
unfoldable pub words : Text → Text → List Text
unfolding is_space
words word [] = if is_empty word then [] else word ∷ []
words word (c ∷ s) = elim (is_space c) [
  | true ↦ if is_empty word then words [] s else word ∷ words [] s
  | false ↦ words (word ++ c ∷ []) s
]

abbrev pub starts_comment : Text → Bool
starts_comment [] = false
starts_comment (c ∷ s) = c == b'#'

-- The loop stops at a token that starts with `#`.
unfoldable pub before_comment : List Text → List Text
before_comment [] = []
before_comment (word ∷ rest) = if starts_comment word then [] else word ∷ before_comment rest

unfoldable pub tokens : Text → List Text
unfolding words before_comment
tokens line = before_comment (words [] line)

-- `std::getline`, over and over: `line` holds the bytes of the line that has begun.
unfoldable pub text_lines : Text → Text → List Text
text_lines line [] = if is_empty line then [] else line ∷ []
text_lines line (c ∷ s) = elim (c == 10) [
  | true ↦ line ∷ text_lines [] s
  | false ↦ text_lines (line ++ c ∷ []) s
]

-- The value of a digit or letter, as `strtoull` reads it.
unfoldable pub digit_value : ℕ → ℕ → Option ℕ
digit_value base c =
    let value =
      if leb b'0' c && leb c b'9'
      then c - b'0'
      else (if leb b'a' c && leb c b'z'
          then c - b'a' + 10
          else (if leb b'A' c && leb c b'Z' then c - b'A' + 10 else base)) in
    if ltb value base then some value else none

-- The value of the longest run of digits, after the value so far, and the rest.
unfoldable pub read_digits : ℕ → ℕ → Text → ℕ × Text
read_digits base value [] = (value, [])
read_digits base value (c ∷ s) = elim (digit_value base c) [
  | none ↦ (value, c ∷ s)
  | some d ↦ read_digits base (value * base + d) s
]

abbrev pub drop_spaces : Text → Text
drop_spaces [] = []
drop_spaces (c ∷ s) = if is_space c then drop_spaces s else c ∷ s

-- The digits behind `0x`; without one, the prefix is the number 0 and an unread `x`.
unfoldable pub read_hex : Text → Text → ℕ × Text
unfolding read_digits
read_hex [] unread = (0, unread)
read_hex (c ∷ s) unread = elim (digit_value 16 c) [
  | none ↦ (0, unread)
  | some d ↦ read_digits 16 d s
]

-- `strtoull` with base 0 behind the spaces and the sign: the prefix of the text gives the base, and
-- `none` is "no conversion".
unfoldable pub read_unsigned : Text → Option (ℕ × Text)
unfolding read_hex
read_unsigned [] = none
read_unsigned (c ∷ []) = elim (digit_value 10 c) [ none ↦ none | some d ↦ some (d, []) ]
read_unsigned (c ∷ d ∷ s) =
    if c == b'0'
    then (if d == b'x' || d == b'X'
        then some (read_hex s (d ∷ s))
        else some (read_digits 8 0 (d ∷ s)))
    else elim (digit_value 10 c) [ none ↦ none | some v ↦ some (read_digits 10 v (d ∷ s)) ]

-- The sign: the value of a negative number is its opposite modulo 2 ^ 64.
unfoldable pub read_signed : Text → Option (Bool × ℕ × Text)
unfolding read_unsigned
read_signed [] = none
read_signed (c ∷ s) =
    if c == b'-'
    then Option.map (λ r. (true, r.0, r.1)) (read_unsigned s)
    else Option.map (λ r. (false, r.0, r.1))
        (if c == b'+' then read_unsigned s else read_unsigned (c ∷ s))

-- `std::stoull(text, &consumed, 0)`: the value and the rest of the text.
unfoldable pub stoull : Text → Attempt (ℕ × Text)
unfolding read_signed
stoull text = elim (read_signed (drop_spaces text)) [
  | none ↦ thrown "stoull"
  | some (negative, value, rest) ↦
      if ltb infinite value
      then thrown "stoull"
      else returned (if negative then sub64 0 value else value, rest)
]

abbrev pub starts_negative : Text → Bool
starts_negative [] = false
starts_negative (c ∷ s) = c == b'-'

unfoldable pub number : Text → String → Attempt ℕ
unfolding stoull
number text field =
    if is_empty text || starts_negative text
    then thrown (String.◌++◌ "invalid " field)
    else stoull text >>= λ r.
        if is_empty r.1 then returned r.0 else thrown (String.◌++◌ "invalid " field)

unfoldable pub number32 : Text → String → Attempt ℕ
unfolding number
number32 text field = number text field >>= λ value.
    if ltb 0xffff_ffff value then thrown (String.◌++◌ field " exceeds 32 bits") else returned value
