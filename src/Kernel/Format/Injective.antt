-- ===== src/Kernel/Format/Injective.antt =====
-- Ids of one prefix are as different as their numbers.
use Prim.Native.Char.{code}
use Prim.Native.String.{◌++◌, count}
use text.Mathlib.TextLemmas.{
  append-eq-nil_iff, append_inj, append_cancel_left, length-append, length-cons, length-nil,
  concat-ne-nil, head-eq_of_cons-eq,
}
use voxelcraft_ai.Prelude.{
  ◌∙◌, false, str_eq, eq_iff, ℕ, zero, suc, ◌+◌, ◌*◌, ◌/◌, ◌%◌, ◌-◌, ◌<◌, ◌≡◌, ◌≢◌, refl, ap, sym,
  inl, inr, Bool-cases, ◌&&◌, ◌==◌, String, arith, word,
}
use voxelcraft_ai.Kernel.Format.{digit, digit_char, digits, numbered}

code-digit_char : (d : ℕ) → d < 10 → code (digit_char d) ≡ 48 + d
unfolding digit_char
code-digit_char zero h = refl
code-digit_char (suc zero) h = refl
code-digit_char (suc (suc zero)) h = refl
code-digit_char (suc (suc (suc zero))) h = refl
code-digit_char (suc (suc (suc (suc zero)))) h = refl
code-digit_char (suc (suc (suc (suc (suc zero))))) h = refl
code-digit_char (suc (suc (suc (suc (suc (suc zero)))))) h = refl
code-digit_char (suc (suc (suc (suc (suc (suc (suc zero))))))) h = refl
code-digit_char (suc (suc (suc (suc (suc (suc (suc (suc zero)))))))) h = refl
code-digit_char (suc (suc (suc (suc (suc (suc (suc (suc (suc zero))))))))) h = refl
code-digit_char (suc (suc (suc (suc (suc (suc (suc (suc (suc (suc d)))))))))) h =
    absurd (omega arith)

digit_injective : (m n : ℕ) → m < 10 → n < 10 → digit m ≡ digit n → m ≡ n
unfolding digit
digit_injective m n hm hn e =
    omega (arith, code-digit_char m hm, code-digit_char n hn, ap code (head-eq_of_cons-eq e))

count-digit : (d : ℕ) → count (digit d) ≡ 1
unfolding digit
count-digit d = omega (arith, length-cons (digit_char d) String.[], length-nil)

-- The last digit and what stands before it.
last_digit :
    (s t : String) (m n : ℕ) → m < 10 → n < 10 → s ++ digit m ≡ t ++ digit n → (s ≡ t) × (m ≡ n)
last_digit s t m n hm hn e =
    let (front, back) = append_inj e (
      omega (
        arith,
        ap count e,
        length-append s (digit m),
        length-append t (digit n),
        count-digit m,
        count-digit n,
      )) in
    (front, digit_injective m n hm hn back)

-- What so many digits can say.
abbrev capacity : ℕ → ℕ
capacity zero = 1
capacity (suc fuel) = 10 * capacity fuel

nonempty : (s : String) (m : ℕ) → String.[] ≢ s ++ digit m
unfolding digit
nonempty s m e = concat-ne-nil (digit_char m) s (sym e)

digits_injective :
    (fuel width m n : ℕ)
    → m < capacity fuel
    → n < capacity fuel
    → digits fuel width m ≡ digits fuel width n
    → m ≡ n
unfolding digits
digits_injective zero width m n hm hn e = omega arith
digits_injective (suc fuel) width m n hm hn e = elim (Bool-cases (m == 0 && width == 0)) [
  | inl a ↦ elim (Bool-cases (n == 0 && width == 0)) [
    | inl b ↦ ground arith
    | inr b ↦ absurd (nonempty _ _ (rw (a, b) at e))
  ]
  | inr a ↦ elim (Bool-cases (n == 0 && width == 0)) [
    | inl b ↦ absurd (nonempty _ _ (sym (rw (a, b) at e)))
    | inr b ↦
        let (front, back) =
          last_digit _ _ (m % 10) (n % 10) (omega arith) (omega arith) (rw (a, b) at e) in
        let tens =
          digits_injective fuel (width - 1) (m / 10) (n / 10) (omega arith) (omega arith) front in
        omega arith
  ]
]

-- Different 64-bit numbers give different ids.
pub numbered_injective :
    (prefix : String) (m n : ℕ)
    → m < word
    → n < word
    → numbered prefix m ≡ numbered prefix n
    → m ≡ n
unfolding numbered
numbered_injective prefix m n hm hn e =
    digits_injective 20 6 m n (omega arith) (omega arith) (append_cancel_left prefix _ _ e)

-- An id with a prefix is not the empty text.
pub numbered_named :
    (prefix : String) (n : ℕ) → str_eq prefix "" ≡ false → str_eq (numbered prefix n) "" ≡ false
unfolding numbered
numbered_named prefix n h = elim (Bool-cases (str_eq (prefix ++ digits 20 6 n) "")) [
  | inr other ↦ other
  | inl empty ↦
      let all = append-eq-nil_iff {p = prefix} {q = digits 20 6 n} in
      let parts = all.0 ((eq_iff (prefix ++ digits 20 6 n) "").0 empty) in
      cc (sym h ∙ (eq_iff prefix "").1 parts.0)
]
