-- ===== src/Workload/Numbers.antt =====
-- The numbers of a trace: src/trace_writer.cpp prints them in decimal, and sim/workload_trace.cpp reads
-- them with a base that the first digits give.
use programmable_retention_t.Prelude.{
  ℕ, zero, suc, ◌-◌, ◌*◌, Option-cases, ◌+◌, ◌/◌, ◌%◌, ◌≤◌, ◌<◌, [], ◌∷◌, ◌++◌, some, ◌≡◌, refl,
  ◌∙◌, arith, inl, inr, Bool-cases, ltb, infinite, String,
}
use programmable_retention_t.Prelude.Exceptions.{returned}
use programmable_retention_t.Workload.Text.{
  Text, is_space, digit_value, read_digits, read_unsigned, read_signed, stoull, number, number32,
}
use programmable_retention_t.Workload.Writer.{decimal, decimal_digits}

digit_value-decimal : (c : ℕ) → b'0' ≤ c → c ≤ b'9' → digit_value 10 c ≡ some (c - b'0')
unfolding digit_value
digit_value-decimal c h k = ground arith

read_digits-append :
    (base v x : ℕ) (s t : Text)
    → read_digits base v s ≡ (x, [])
    → read_digits base v (s ++ t) ≡ read_digits base x t
unfolding read_digits
read_digits-append base v x [] t h = ground (arith, h)
read_digits-append base v x (c ∷ s) t h = elim (Option-cases (digit_value base c)) [
  | inl e ↦ absurd (ground (arith, h, e))
  | inr (d, e) ↦ ground (arith, h, e, read_digits-append base (v * base + d) x s t)
]

read_digits-decimal_digits :
    (rounds n : ℕ) → n < rounds → read_digits 10 0 (decimal_digits rounds n) ≡ (n, [])
unfolding decimal_digits read_digits
read_digits-decimal_digits zero n h = absurd (omega arith)
read_digits-decimal_digits (suc rounds) n h = elim (Bool-cases (ltb n 10)) [
  | inl one ↦ rw one (ground (arith, one, digit_value-decimal (b'0' + n)))
  | inr more ↦ rw more (
      read_digits-append 10 0 (n / 10) (decimal_digits rounds (n / 10)) ((b'0' + n % 10) ∷ [])
        (read_digits-decimal_digits rounds (n / 10) (ground (arith, more)))
      ∙ ground (arith, digit_value-decimal (b'0' + n % 10)))
]

-- The first digit of a positive number is not 0.
decimal_digits-head :
    (rounds n : ℕ)
    → n < rounds
    → 0 < n
    → (c : ℕ) × (s : Text) × (decimal_digits rounds n ≡ c ∷ s) × (b'1' ≤ c) × (c ≤ b'9')
unfolding decimal_digits
decimal_digits-head zero n h k = absurd (omega arith)
decimal_digits-head (suc rounds) n h k = elim (Bool-cases (ltb n 10)) [
  | inl one ↦ (b'0' + n, [], ground (arith, one), omega arith, ground (arith, one))
  | inr more ↦
      let (c, s, e, low, high) =
        decimal_digits-head rounds (n / 10) (ground (arith, more)) (ground (arith, more)) in
      (c, s ++ (b'0' + n % 10) ∷ [], ground (arith, more, e), low, high)
]

read_unsigned-digits :
    (c n : ℕ) (s : Text)
    → b'1' ≤ c
    → c ≤ b'9'
    → read_digits 10 0 (c ∷ s) ≡ (n, [])
    → read_unsigned (c ∷ s) ≡ some (n, [])
unfolding read_unsigned read_digits
read_unsigned-digits c n [] h k e = ground (arith, e, digit_value-decimal c)
read_unsigned-digits c n (d ∷ s) h k e = ground (arith, e, digit_value-decimal c)

number-digits :
    (c n : ℕ) (s : Text) (field : String)
    → b'1' ≤ c
    → c ≤ b'9'
    → n ≤ infinite
    → read_unsigned (c ∷ s) ≡ some (n, [])
    → number (c ∷ s) field ≡ returned n
unfolding number stoull read_signed is_space
number-digits c n s field h k word e = ground (arith, e)

number-zero : (field : String) → number (b'0' ∷ []) field ≡ returned 0
unfolding number stoull read_signed read_unsigned digit_value is_space
number-zero field = refl

pub number-decimal : (n : ℕ) (field : String) → n ≤ infinite → number (decimal n) field ≡ returned n
unfolding decimal
number-decimal zero field word = number-zero field
number-decimal (suc n) field word =
    let (c, s, e, low, high) =
      decimal_digits-head (suc (suc n)) (suc n) (omega arith) (omega arith) in
    let digits = read_digits-decimal_digits (suc (suc n)) (suc n) (omega arith) in
    rw e (
      number-digits c (suc n) s field low high word
        (read_unsigned-digits c (suc n) s low high (rw e at digits)))

pub number32-decimal :
    (n : ℕ) (field : String) → n ≤ 0xffff_ffff → number32 (decimal n) field ≡ returned n
unfolding number32
number32-decimal n field word = ground (arith, number-decimal n field)
