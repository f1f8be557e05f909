-- ===== src/Prelude/Int.antt =====
-- The C `int` as an integer: `%d` of `printf`, and `atoi`.
use Prim.Native.Nat.{ℕ, zero, suc, ◌+◌, ◌-◌, ◌*◌, ◌/◌, ◌%◌, ◌≤◌, ◌<◌}
use mathlib.Core.Path.{◌≡◌, refl, ◌∙◌}
use mathlib.Core.Logic.{◌↔◌}
use mathlib.Core.Bool.{Bool, true, false, ◌&&◌, ◌||◌}
use mathlib.Core.List.{[], ◌∷◌, ◌++◌}
use native.Mathlib.Omega.{arith}
use octopusd.Prelude.Tests.{ltb, leb, ◌==◌, if◌then◌else◌}
use octopusd.Prelude.Lists.{length, All}
use octopusd.Prelude.Bytes.{Bytes}

-- `negsuc n` is -(n + 1).
pub data ℤ : Type 0 where
  pos : ℕ → ℤ
  negsuc : ℕ → ℤ

-- The integer, or 0 below 0.
abbrev pub pos_part : ℤ → ℕ
pos_part (pos n) = n
pos_part (negsuc n) = 0

unfoldable pub int_eq : ℤ → ℤ → Bool
int_eq (pos a) (pos b) = a == b
int_eq (pos a) (negsuc b) = false
int_eq (negsuc a) (pos b) = false
int_eq (negsuc a) (negsuc b) = a == b

pub int_eq_iff : (a b : ℤ) → (int_eq a b ≡ true) ↔ (a ≡ b)
unfolding int_eq
int_eq_iff (pos a) (pos b) = ground arith
int_eq_iff (pos a) (negsuc b) = ground arith
int_eq_iff (negsuc a) (pos b) = ground arith
int_eq_iff (negsuc a) (negsuc b) = ground arith

-- The digits of `n` in front of `out`; as many rounds as `n` is large are enough.
put_digits : ℕ → ℕ → Bytes → Bytes
put_digits zero n out = (48 + n % 10) ∷ out
put_digits (suc f) n out =
    let rest = put_digits f (n / 10) ((48 + n % 10) ∷ out) in
    if ltb n 10 then (48 + n % 10) ∷ out else rest

unfoldable pub decimal : ℕ → Bytes
unfolding put_digits
decimal n = put_digits n n []

-- `sprintf(s, "%d", z)`.
unfoldable pub int_str : ℤ → Bytes
unfolding decimal
int_str (pos n) = decimal n
int_str (negsuc n) = b'-' ∷ decimal (n + 1)

unfoldable pub is_digit : ℕ → Bool
is_digit c = leb 48 c && leb c 57

-- The leading digits of a text, behind the number `n`.
scan_digits : ℕ → Bytes → ℕ
scan_digits n [] = n
scan_digits n (c ∷ s) =
    let rest = scan_digits (n * 10 + (c - 48)) s in if is_digit c then rest else n

to_neg : ℕ → ℤ
to_neg zero = pos 0
to_neg (suc n) = negsuc n

is_space : ℕ → Bool
is_space c = c == 32 || (leb 9 c && leb c 13)

signed_digits : Bytes → ℤ
signed_digits [] = pos 0
signed_digits (c ∷ s) =
    if c == b'-'
    then to_neg (scan_digits 0 s)
    else if c == b'+'
    then pos (scan_digits 0 s)
    else pos (scan_digits 0 (c ∷ s))

-- `atoi`: white space, a sign, digits; 0 where there are none.
unfoldable pub atoi : Bytes → ℤ
unfolding signed_digits is_space scan_digits is_digit to_neg
atoi [] = pos 0
atoi (c ∷ s) = let rest = atoi s in if is_space c then rest else signed_digits (c ∷ s)

-- What an `int` keeps of a number that was read: `strtol` stops at the ends of 64 bits, and the 32
-- lowest bits are the `int`.
unfoldable pub int_of_word : ℕ → ℤ
int_of_word w = if ltb w 2147483648 then pos w else negsuc (4294967295 - w)

unfoldable pub limit_long : ℕ → ℕ
limit_long n = if ltb 9223372036854775807 n then 9223372036854775807 else n

unfoldable pub as_int : ℤ → ℤ
unfolding int_of_word limit_long
as_int (pos n) = int_of_word (limit_long n % 4294967296)
as_int (negsuc n) = int_of_word (4294967295 - limit_long n % 4294967296)

scan-put_digits :
    (f n : ℕ) (out : Bytes) → n ≤ f → scan_digits 0 (put_digits f n out) ≡ scan_digits n out
unfolding scan_digits put_digits is_digit
scan-put_digits zero n out h = ground arith
scan-put_digits (suc f) n out h = ground (arith, scan-put_digits f (n / 10) ((48 + n % 10) ∷ out))

-- The text begins with a digit.
StartsDigit : Bytes → Type 0
StartsDigit [] = ⊥
StartsDigit (c ∷ s) = (48 ≤ c) × (c ≤ 57)

put_digits-StartsDigit : (f n : ℕ) (out : Bytes) → StartsDigit (put_digits f n out)
unfolding put_digits StartsDigit
put_digits-StartsDigit zero n out = omega arith
put_digits-StartsDigit (suc f) n out =
    ground (arith, put_digits-StartsDigit f (n / 10) ((48 + n % 10) ∷ out))

put_digits-append : (f n : ℕ) (out t : Bytes) → put_digits f n out ++ t ≡ put_digits f n (out ++ t)
unfolding put_digits
put_digits-append zero n out t = refl
put_digits-append (suc f) n out t =
    ground (arith, put_digits-append f (n / 10) ((48 + n % 10) ∷ out) t)

-- A digit at the head is no sign and no white space.
atoi_digits : (s : Bytes) → StartsDigit s → atoi s ≡ pos (scan_digits 0 s)
unfolding atoi StartsDigit
atoi_digits [] h = refl
atoi_digits (c ∷ s) h = ground arith

atoi-put_digits : (n : ℕ) (out : Bytes) → atoi (put_digits n n out) ≡ pos (scan_digits n out)
atoi-put_digits n out =
    rw (atoi_digits _ (put_digits-StartsDigit n n out), scan-put_digits n n out (omega arith))

-- Reading a printed number that is not negative gives it back,
pub atoi-int_str : (n : ℕ) → atoi (int_str (pos n)) ≡ pos n
unfolding int_str scan_digits
atoi-int_str n = atoi-put_digits n []

-- and so it does where the text goes on with something that is no digit.
pub atoi-int_str-append :
    (n c : ℕ) (s : Bytes) → is_digit c ≡ false → atoi (int_str (pos n) ++ c ∷ s) ≡ pos n
unfolding int_str scan_digits
atoi-int_str-append n c s h =
    rw (put_digits-append n n [] (c ∷ s)) (atoi-put_digits n (c ∷ s) ∙ ground arith)

-- A printed number consists of digits, at most three below 1000.
put_digits-All :
    (f n : ℕ) (out : Bytes)
    → All (λ c. is_digit c ≡ true) out
    → All (λ c. is_digit c ≡ true) (put_digits f n out)
unfolding put_digits is_digit
put_digits-All zero n out h = (ground arith, h)
put_digits-All (suc f) n out h =
    elim (ltb n 10)
      as (λ b.
        All (λ c. is_digit c ≡ true)
          (if b then (48 + n % 10) ∷ out else put_digits f (n / 10) ((48 + n % 10) ∷ out))) [
            | true ↦ (ground arith, h)
            | false ↦ put_digits-All f (n / 10) ((48 + n % 10) ∷ out) (ground arith, h)
          ]

pub decimal-digits : (n : ℕ) → All (λ c. is_digit c ≡ true) (decimal n)
unfolding decimal
decimal-digits n = put_digits-All n n [] tt

one_digit : (f n : ℕ) (out : Bytes) → n < 10 → length (put_digits f n out) ≤ 1 + length out
unfolding put_digits
one_digit zero n out h = omega arith
one_digit (suc f) n out h = ground arith

two_digits : (f n : ℕ) (out : Bytes) → n < 100 → length (put_digits f n out) ≤ 2 + length out
unfolding put_digits
two_digits zero n out h = omega arith
two_digits (suc f) n out h = ground (arith, one_digit f (n / 10) ((48 + n % 10) ∷ out))

three_digits : (f n : ℕ) (out : Bytes) → n < 1000 → length (put_digits f n out) ≤ 3 + length out
unfolding put_digits
three_digits zero n out h = omega arith
three_digits (suc f) n out h = ground (arith, two_digits f (n / 10) ((48 + n % 10) ∷ out))

pub length-decimal : (n : ℕ) → n < 1000 → length (decimal n) ≤ 3
unfolding decimal
length-decimal n h = three_digits n n [] h
