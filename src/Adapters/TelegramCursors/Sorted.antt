-- ===== src/Adapters/TelegramCursors/Sorted.antt =====
-- The order of the padded texts is that of the numbers.
use carbon_runtime.Common.{
  ℕ, zero, suc, ◌+◌, ◌-◌, ◌*◌, ◌/◌, ◌%◌, ◌<◌, ◌≡◌, refl, sym, ap, ap₂, ◌∙◌, true, ◌&&◌, ◌||◌, [],
  ◌∷◌, ◌++◌, arith, Text, text_lt, text_eq, ltb, ◌==◌, length, length-append, Bool-cases, inl, inr,
}
use mathlib.Core.List.{append_assoc}
use carbon_runtime.Stream.Paths.{decimal, decimal_fuel}
use carbon_runtime.Adapters.TelegramCursors.{zeros, pad_start, chat_position_of, offset_position_of}

abbrev pub pow10 : ℕ → ℕ
pow10 zero = 1
pow10 (suc k) = 10 * pow10 k

-- The lowest digits of a number, the leading zeros included.
digits : ℕ → ℕ → Text
digits zero n = []
digits (suc k) n = digits k (n / 10) ++ (0x30 + n % 10) ∷ []

length-digits : (k n : ℕ) → length (digits k n) ≡ k
unfolding digits
length-digits zero n = refl
length-digits (suc k) n =
    omega
      (arith, length-append (digits k (n / 10)) ((0x30 + n % 10) ∷ []), length-digits k (n / 10))

zeros-snoc : (k : ℕ) → zeros k ++ 0x30 ∷ [] ≡ zeros (suc k)
unfolding zeros
zeros-snoc zero = refl
zeros-snoc (suc k) = ap (λ s. 0x30 ∷ s) (zeros-snoc k)

digits-zero : (k : ℕ) → digits k 0 ≡ zeros k
unfolding digits zeros
digits-zero zero = refl
digits-zero (suc k) = ap (λ s. s ++ 0x30 ∷ []) (digits-zero k) ∙ zeros-snoc k

text_lt-snoc :
    (u v : Text) (a b : ℕ)
    → length u ≡ length v
    → text_lt (u ++ a ∷ []) (v ++ b ∷ []) ≡ (text_lt u v || (text_eq u v && ltb a b))
unfolding text_lt text_eq
text_lt-snoc [] [] a b h = ground arith
text_lt-snoc [] (y ∷ v) a b h = absurd (omega arith)
text_lt-snoc (x ∷ u) [] a b h = absurd (omega arith)
text_lt-snoc (x ∷ u) (y ∷ v) a b h = ground (arith, text_lt-snoc u v a b (omega arith))

text_eq-snoc :
    (u v : Text) (a b : ℕ)
    → length u ≡ length v
    → text_eq (u ++ a ∷ []) (v ++ b ∷ []) ≡ (text_eq u v && a == b)
unfolding text_eq
text_eq-snoc [] [] a b h = ground arith
text_eq-snoc [] (y ∷ v) a b h = absurd (omega arith)
text_eq-snoc (x ∷ u) [] a b h = absurd (omega arith)
text_eq-snoc (x ∷ u) (y ∷ v) a b h = ground (arith, text_eq-snoc u v a b (omega arith))

same_length : (k n m : ℕ) → length (digits k n) ≡ length (digits k m)
same_length k n m = length-digits k n ∙ sym (length-digits k m)

below-tenth : (k n : ℕ) → n < 10 * k → n / 10 < k
below-tenth k n h = omega arith

text_eq-digits :
    (k n m : ℕ) → n < pow10 k → m < pow10 k → text_eq (digits k n) (digits k m) ≡ (n == m)
unfolding digits text_eq
text_eq-digits zero n m p q = ground arith
text_eq-digits (suc k) n m p q =
    text_eq-snoc (digits k (n / 10)) (digits k (m / 10)) (0x30 + n % 10) (0x30 + m % 10)
      (same_length k (n / 10) (m / 10))
    ∙ rw
        (text_eq-digits k (n / 10) (m / 10) (below-tenth (pow10 k) n p) (below-tenth (pow10 k) m q))
        (ground arith)

text_lt-digits :
    (k n m : ℕ) → n < pow10 k → m < pow10 k → text_lt (digits k n) (digits k m) ≡ ltb n m
unfolding digits text_lt
text_lt-digits zero n m p q = ground arith
text_lt-digits (suc k) n m p q =
    text_lt-snoc (digits k (n / 10)) (digits k (m / 10)) (0x30 + n % 10) (0x30 + m % 10)
      (same_length k (n / 10) (m / 10))
    ∙ rw
        (
          text_eq-digits k (n / 10) (m / 10) (below-tenth (pow10 k) n p)
              (below-tenth (pow10 k) m q),
          text_lt-digits k (n / 10) (m / 10) (below-tenth (pow10 k) n p)
              (below-tenth (pow10 k) m q),
        )
        (ground arith)

pad_start-snoc :
    (k : ℕ) (s : Text) (d : ℕ) → pad_start (suc k) (s ++ d ∷ []) ≡ pad_start k s ++ d ∷ []
unfolding pad_start
pad_start-snoc k s d =
    let shorter : suc k - length (s ++ d ∷ []) ≡ k - length s =
      omega (arith, length-append s (d ∷ [])) in
    rw shorter (sym (append_assoc (zeros (k - length s)) s (d ∷ [])))

pad_start-single : (k d : ℕ) → pad_start (suc k) (d ∷ []) ≡ zeros k ++ d ∷ []
unfolding pad_start
pad_start-single k d =
    let shorter : suc k - 1 ≡ k = omega arith in ap (λ j. zeros j ++ d ∷ []) shorter

pad_start-digit : (k n : ℕ) → n < 10 → pad_start (suc k) ((0x30 + n) ∷ []) ≡ digits (suc k) n
unfolding digits
pad_start-digit k n h =
    let no_tens : 0 ≡ n / 10 = omega arith in
    let one_digit : n ≡ n % 10 = omega arith in
    pad_start-single k (0x30 + n)
    ∙ ap (λ s. s ++ (0x30 + n) ∷ []) (sym (digits-zero k))
    ∙ ap₂ (λ q r. digits k q ++ (0x30 + r) ∷ []) no_tens one_digit

-- The padded decimal digits of a number that is small enough.
pad_start-decimal_fuel :
    (k fuel n : ℕ)
    → n < fuel
    → n < pow10 (suc k)
    → pad_start (suc k) (decimal_fuel fuel n) ≡ digits (suc k) n
unfolding decimal_fuel digits
pad_start-decimal_fuel k zero n f p = absurd (omega arith)
pad_start-decimal_fuel zero (suc fuel) n f p =
    let small : ltb n 10 ≡ true = ground arith in rw small (pad_start-digit zero n p)
pad_start-decimal_fuel (suc k) (suc fuel) n f p = elim (Bool-cases (ltb n 10)) [
  | inl b ↦ rw b (pad_start-digit (suc k) n (ground arith))
  | inr b ↦ rw b (
      pad_start-snoc (suc k) (decimal_fuel fuel (n / 10)) (0x30 + n % 10)
      ∙ ap (λ s. s ++ (0x30 + n % 10) ∷ [])
          (pad_start-decimal_fuel k fuel (n / 10) (ground arith) (below-tenth (pow10 (suc k)) n p)))
]

pad_start-decimal : (k n : ℕ) → n < pow10 (suc k) → pad_start (suc k) (decimal n) ≡ digits (suc k) n
unfolding decimal
pad_start-decimal k n h = pad_start-decimal_fuel k (n + 1) n (omega arith) h

text_lt-pad_start :
    (k n m : ℕ)
    → n < pow10 (suc k)
    → m < pow10 (suc k)
    → text_lt (pad_start (suc k) (decimal n)) (pad_start (suc k) (decimal m)) ≡ ltb n m
text_lt-pad_start k n m p q =
    ap₂ text_lt (pad_start-decimal k n p) (pad_start-decimal k m q) ∙ text_lt-digits (suc k) n m p q

-- Two message ids of at most twelve digits stand in the order of their positions, compared as texts.
pub text_lt-chat_position_of :
    (n m : ℕ)
    → n < 1000000000000
    → m < 1000000000000
    → text_lt (chat_position_of n) (chat_position_of m) ≡ ltb n m
unfolding chat_position_of
text_lt-chat_position_of n m p q = text_lt-pad_start 11 n m p q

-- Two update ids of at most sixteen digits stand in the order of their positions, compared as texts.
pub text_lt-offset_position_of :
    (n m : ℕ)
    → n < 10000000000000000
    → m < 10000000000000000
    → text_lt (offset_position_of n) (offset_position_of m) ≡ ltb n m
unfolding offset_position_of
text_lt-offset_position_of n m p q = text_lt-pad_start 15 n m p q
