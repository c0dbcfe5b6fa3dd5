-- ===== src/Workload/Tokens.antt =====
-- The rows of a trace: src/trace_writer.cpp puts a space between two fields and a line feed behind the
-- last, and sim/workload_trace.cpp takes them apart.
use programmable_retention_t.Prelude.{
  ℕ, zero, suc, ◌+◌, ◌/◌, ◌%◌, ◌<◌, false, List, [], ◌∷◌, ◌++◌, map, ◌≡◌, refl, sym, ap, ◌∙◌, arith,
  inl, inr, Bool-cases, ltb, ◌==◌, RetentionClass, ephemeral, epoch, durable,
}
use mathlib.Core.List.{append_assoc, append-nil}
use programmable_retention_t.Workload.Text.{
  Text, is_empty, is_space, words, starts_comment, before_comment, tokens, text_lines,
}
use programmable_retention_t.Workload.Writer.{
  decimal, decimal_digits, spaced, class_text, safe_byte, safe_name,
}

-- No byte is a space.
abbrev pub IsDark : Text → Type 0
IsDark [] = Unit {0}
IsDark (c ∷ s) = (is_space c ≡ false) × IsDark s

-- A token that is no comment.
abbrev pub IsWord : Text → Type 0
IsWord s = (is_empty s ≡ false) × (starts_comment s ≡ false) × IsDark s

abbrev pub AreWords : List Text → Type 0
AreWords [] = Unit {0}
AreWords (field ∷ fields) = IsWord field × AreWords fields

words-dark : (w word s : Text) → IsDark w → words word (w ++ s) ≡ words (word ++ w) s
unfolding words
words-dark [] word s d = ap (λ x. words x s) (sym (append-nil word))
words-dark (c ∷ w) word s d =
    rw (words, d.0)
      (words-dark w (word ++ c ∷ []) s d.1 ∙ ap (λ x. words x s) (append_assoc word (c ∷ []) w))

words-word : (w : Text) → is_empty w ≡ false → words w [] ≡ w ∷ []
unfolding words
words-word w h = ground (arith, h)

words-space : (w s : Text) → is_empty w ≡ false → words w (32 ∷ s) ≡ w ∷ words [] s
unfolding words is_space
words-space w s h = ground (arith, h)

words-spaced : (fields : List Text) → AreWords fields → words [] (spaced fields) ≡ fields
unfolding spaced words
words-spaced [] h = refl
words-spaced (field ∷ []) h =
    ap (words []) (sym (append-nil field)) ∙ words-dark field [] [] h.0.2 ∙ words-word field h.0.0
words-spaced (field ∷ next ∷ rest) h =
    words-dark field [] (32 ∷ spaced (next ∷ rest)) h.0.2
    ∙ words-space field (spaced (next ∷ rest)) h.0.0
    ∙ ap (λ x. field ∷ x) (words-spaced (next ∷ rest) h.1)

before_comment-words : (fields : List Text) → AreWords fields → before_comment fields ≡ fields
unfolding before_comment
before_comment-words [] h = refl
before_comment-words (field ∷ rest) h = rw (h.0.1, before_comment-words rest h.1) refl

pub tokens-spaced : (fields : List Text) → AreWords fields → tokens (spaced fields) ≡ fields
unfolding tokens
tokens-spaced fields h = ap before_comment (words-spaced fields h) ∙ before_comment-words fields h

-- No line feed.
abbrev pub IsRow : Text → Type 0
IsRow [] = Unit {0}
IsRow (c ∷ s) = ((c == 10) ≡ false) × IsRow s

IsRow-append : (s t : Text) → IsRow s → IsRow t → IsRow (s ++ t)
IsRow-append [] t h k = k
IsRow-append (c ∷ s) t h k = (h.0, IsRow-append s t h.1 k)

IsDark-IsRow : (s : Text) → IsDark s → IsRow s
unfolding is_space
IsDark-IsRow [] h = tt
IsDark-IsRow (c ∷ s) h = (ground (arith, h.0), IsDark-IsRow s h.1)

pub spaced-IsRow : (fields : List Text) → AreWords fields → IsRow (spaced fields)
unfolding spaced
spaced-IsRow [] h = tt
spaced-IsRow (field ∷ []) h = IsDark-IsRow field h.0.2
spaced-IsRow (field ∷ next ∷ rest) h =
    IsRow-append field (32 ∷ spaced (next ∷ rest)) (IsDark-IsRow field h.0.2)
      (refl, spaced-IsRow (next ∷ rest) h.1)

text_lines-append :
    (row line s : Text)
    → IsRow row
    → text_lines line (row ++ 10 ∷ s) ≡ (line ++ row) ∷ text_lines [] s
unfolding text_lines
text_lines-append [] line s h = ap (λ x. x ∷ text_lines [] s) (sym (append-nil line))
text_lines-append (c ∷ row) line s h =
    rw (text_lines, h.0)
      (text_lines-append row (line ++ c ∷ []) s h.1
        ∙ ap (λ x. x ∷ text_lines [] s) (append_assoc line (c ∷ []) row))

-- A row with its line feed is the first line.
pub text_lines-row :
    (row s : Text) → IsRow row → text_lines [] (row ++ 10 ∷ s) ≡ row ∷ text_lines [] s
text_lines-row row s h = text_lines-append row [] s h

-- The fields that the writer prints are words.
IsDark-append : (s t : Text) → IsDark s → IsDark t → IsDark (s ++ t)
IsDark-append [] t h k = k
IsDark-append (c ∷ s) t h k = (h.0, IsDark-append s t h.1 k)

IsWord-snoc : (s : Text) (c : ℕ) → IsWord s → is_space c ≡ false → IsWord (s ++ c ∷ [])
IsWord-snoc [] c h k = ground (arith, h.0)
IsWord-snoc (d ∷ s) c h k = (refl, h.1, IsDark-append (d ∷ s) (c ∷ []) h.2 (k, tt))

decimal_digits-IsWord : (rounds n : ℕ) → n < rounds → IsWord (decimal_digits rounds n)
unfolding decimal_digits is_space
decimal_digits-IsWord zero n h = absurd (omega arith)
decimal_digits-IsWord (suc rounds) n h = elim (Bool-cases (ltb n 10)) [
  | inl one ↦ rw one (ground (arith, one))
  | inr more ↦ rw more (
      IsWord-snoc (decimal_digits rounds (n / 10)) (b'0' + n % 10)
        (decimal_digits-IsWord rounds (n / 10) (ground (arith, more))) (ground arith))
]

pub decimal-IsWord : (n : ℕ) → IsWord (decimal n)
unfolding decimal
decimal-IsWord n = decimal_digits-IsWord (suc n) n (omega arith)

pub class_text-IsWord : (c : RetentionClass) → IsWord (class_text c)
unfolding is_space
class_text-IsWord ephemeral = ground arith
class_text-IsWord epoch = ground arith
class_text-IsWord durable = ground arith

map-safe_byte-IsDark : (s : Text) → IsDark (map safe_byte s)
unfolding safe_byte is_space
map-safe_byte-IsDark [] = tt
map-safe_byte-IsDark (c ∷ s) = (ground arith, map-safe_byte-IsDark s)

pub safe_name-IsWord : (name : Text) → IsWord (safe_name name)
unfolding safe_name safe_byte is_space
safe_name-IsWord [] = ground arith
safe_name-IsWord (c ∷ s) = (refl, ground arith, map-safe_byte-IsDark (c ∷ s))
