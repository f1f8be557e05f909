-- ===== src/Text/Ip.antt =====
-- sharelib/ComFun.cpp: `convertSIP2UIIP` and `checkIP`, on addresses as text.
use octopusd.Prelude.{
  ℕ, ◌+◌, ◌-◌, ◌*◌, ◌%◌, ◌≡◌, ◌≤◌, ◌<◌, refl, ap, ◌∙◌, Bool, true, false, ◌||◌, [], ◌∷◌, ◌++◌,
  Option, none, some, arith, ltb, ◌==◌, if◌then◌else◌, length, length-append, All,
}
use octopusd.Prelude.Bytes.{Bytes}
use octopusd.Prelude.Int.{
  ℤ, pos, negsuc, decimal, int_str, is_digit, atoi, atoi-int_str, decimal-digits, length-decimal,
}
use octopusd.Text.Flag.{get_flag_str, Lacks, get_flag_str-append}

-- An `int` that is stored in a `char`.
unfoldable pub char_of : ℤ → ℕ
char_of (pos n) = n % 256
char_of (negsuc n) = 255 - n % 256

-- One octet and its dot; -1 is `none`.
unfoldable pub octet_then : Option (Bytes × Bytes) → (ℕ → Bytes → Option ℕ) → Option ℕ
unfolding char_of atoi
octet_then none go_on = none
octet_then (some (s, rest)) go_on = go_on (char_of (atoi s)) rest

-- The four octets, the first one highest, as `ntohl` has it.
unfoldable pub four_octets : Bytes → Option ℕ
unfolding octet_then get_flag_str
four_octets s = octet_then (get_flag_str s b'.') (λ a s1. octet_then (get_flag_str s1 b'.') (λ b s2.
    octet_then (get_flag_str s2 b'.')
      (λ c s3. some (((a * 256 + b) * 256 + c) * 256 + char_of (atoi s3)))))

-- CComFun::convertSIP2UIIP.
unfoldable pub convert_sip2uiip : Bytes → Option ℕ
unfolding four_octets
convert_sip2uiip s = if length s == 0 || ltb 15 (length s) then none else four_octets s

unfoldable pub is_some : Option ℕ → Bool
is_some none = false
is_some (some n) = true

-- CComFun::checkIP: true for its 0.
unfoldable pub check_ip : Bytes → Bool
unfolding convert_sip2uiip is_some
check_ip s = if length s == 0 || ltb 15 (length s) then false else is_some (convert_sip2uiip s)

-- Four texts with dots between them.
abbrev pub dotted : Bytes → Bytes → Bytes → Bytes → Bytes
dotted a b c d = a ++ b'.' ∷ (b ++ b'.' ∷ (c ++ b'.' ∷ d))

four_octets-dotted :
    (a b c d : Bytes)
    → Lacks b'.' a
    → Lacks b'.' b
    → Lacks b'.' c
    → four_octets (dotted a b c d)
      ≡ some (
          ((char_of (atoi a) * 256 + char_of (atoi b)) * 256 + char_of (atoi c)) * 256
          + char_of (atoi d))
unfolding four_octets octet_then
four_octets-dotted a b c d h k l =
    rw
      (
        get_flag_str-append a (b ++ b'.' ∷ (c ++ b'.' ∷ d)) b'.' h,
        get_flag_str-append b (c ++ b'.' ∷ d) b'.' k,
        get_flag_str-append c d b'.' l,
      )
      refl

length-dotted :
    (a b c d : Bytes) → length (dotted a b c d) ≡ length a + length b + length c + length d + 3
length-dotted a b c d = omega (
  arith,
  length-append {0} a (b'.' ∷ (b ++ b'.' ∷ (c ++ b'.' ∷ d))),
  length-append {0} b (b'.' ∷ (c ++ b'.' ∷ d)),
  length-append {0} c (b'.' ∷ d),
)

in_range : (n : ℕ) → 0 < n → n ≤ 15 → (n == 0 || ltb 15 n) ≡ false
in_range n h k = ground arith

convert_sip2uiip-dotted :
    (a b c d : Bytes)
    → length a + length b + length c + length d ≤ 12
    → Lacks b'.' a
    → Lacks b'.' b
    → Lacks b'.' c
    → convert_sip2uiip (dotted a b c d)
      ≡ some (
          ((char_of (atoi a) * 256 + char_of (atoi b)) * 256 + char_of (atoi c)) * 256
          + char_of (atoi d))
unfolding convert_sip2uiip
convert_sip2uiip-dotted a b c d n h k l =
    rw
      (in_range (length (dotted a b c d)) (omega (arith, length-dotted a b c d))
        (omega (arith, length-dotted a b c d)))
      (four_octets-dotted a b c d h k l)

digit_no_dot : (s : Bytes) → All (λ c. is_digit c ≡ true) s → Lacks b'.' s
unfolding is_digit
digit_no_dot [] h = tt
digit_no_dot (c ∷ s) h = (ground (arith, h.0), digit_no_dot s h.1)

char_of-decimal : (n : ℕ) → n < 256 → char_of (atoi (decimal n)) ≡ n
unfolding char_of int_str
char_of-decimal n h = ap char_of (atoi-int_str n) ∙ omega (arith, h)

-- An address that is printed as four numbers below 256 is read as the number that they make.
pub convert_sip2uiip-decimal :
    (a b c d : ℕ)
    → a < 256
    → b < 256
    → c < 256
    → d < 256
    → convert_sip2uiip (dotted (decimal a) (decimal b) (decimal c) (decimal d))
      ≡ some (((a * 256 + b) * 256 + c) * 256 + d)
convert_sip2uiip-decimal a b c d ha hb hc hd =
    convert_sip2uiip-dotted (decimal a) (decimal b) (decimal c) (decimal d)
      (omega (
        arith,
        length-decimal a (omega (arith, ha)),
        length-decimal b (omega (arith, hb)),
        length-decimal c (omega (arith, hc)),
        length-decimal d (omega (arith, hd)),
      ))
      (digit_no_dot (decimal a) (decimal-digits a)) (digit_no_dot (decimal b) (decimal-digits b))
      (digit_no_dot (decimal c) (decimal-digits c))
    ∙ rw (char_of-decimal a ha, char_of-decimal b hb, char_of-decimal c hc, char_of-decimal d hd)
        refl

-- Any four texts of at most 12 bytes together, the first three without a dot, pass as an address
-- with dots between them.
pub check_ip_accepts :
    (a b c d : Bytes)
    → length a + length b + length c + length d ≤ 12
    → Lacks b'.' a
    → Lacks b'.' b
    → Lacks b'.' c
    → check_ip (dotted a b c d) ≡ true
unfolding check_ip is_some
check_ip_accepts a b c d n h k l =
    rw
      (in_range (length (dotted a b c d)) (omega (arith, length-dotted a b c d))
        (omega (arith, length-dotted a b c d)))
      (ap is_some (four_octets-dotted a b c d h k l))
