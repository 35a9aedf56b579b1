-- ===== src/Trace/Decimal.antt =====
-- How long the decimal text of a number is.
use distributed_system.Base.{
  ℕ, zero, suc, ◌+◌, ◌/◌, ◌%◌, ◌^◌, ◌≤◌, ◌<◌, ◌≡◌, false, [], ◌∷◌, arith, ltb, length,
  length-append,
}
use distributed_system.Trace.Write.{decimal, digits}

length-digits : (k n j : ℕ) → n < 10 ^ suc j → length (digits k n) ≤ suc j
unfolding digits
length-digits zero n j h = omega arith
length-digits (suc k) n zero h = ground arith
length-digits (suc k) n (suc j) h = ground (
  arith,
  length-digits k (n / 10) j (omega (arith, h)),
  length-append (digits k (n / 10)) ((48 + n % 10) ∷ []),
)

pub length-decimal : (n j : ℕ) → n < 10 ^ suc j → length (decimal n) ≤ suc j
unfolding decimal
length-decimal n j h = length-digits 20 n j h

pub one_digit : (k n : ℕ) → 1 ≤ length (digits (suc k) n)
unfolding digits
one_digit k n = ground (arith, length-append (digits k (n / 10)) ((48 + n % 10) ∷ []))

two_digits : (k n : ℕ) → 10 ≤ n → 2 ≤ length (digits (suc (suc k)) n)
unfolding digits
two_digits k n h =
    let small : ltb n 10 ≡ false = ground (arith, h) in
    rw small (
      omega
        (arith, length-append (digits (suc k) (n / 10)) ((48 + n % 10) ∷ []), one_digit k (n / 10)))

three_digits : (k n : ℕ) → 100 ≤ n → 3 ≤ length (digits (suc (suc (suc k))) n)
unfolding digits
three_digits k n h =
    let small : ltb n 10 ≡ false = ground (arith, h) in
    rw small (
      omega (
        arith,
        length-append (digits (suc (suc k)) (n / 10)) ((48 + n % 10) ∷ []),
        two_digits k (n / 10) (omega (arith, h)),
      ))

pub decimal-three : (n : ℕ) → 100 ≤ n → 3 ≤ length (decimal n)
unfolding decimal
decimal-three n h = three_digits 17 n h
