-- ===== src/Text/Words.antt =====
-- sharelib/ComFun.cpp: `getSubStrByWord`, which cuts a short message into pieces of so many
-- characters, where a Chinese character is two bytes.
use octopusd.Prelude.{
  ℕ, ◌+◌, ◌<◌, ◌≡◌, ◌≢◌, ◌⊎◌, refl, sym, ap, ◌∙◌, Bool, true, false, not, ◌&&◌, List, [], ◌∷◌, ◌++◌,
  Option, none, some, arith, leb, ◌==◌, ==-false, if◌then◌else◌, length, All, append_assoc,
  append-nil, Bool-cases, inl, inr,
}
use octopusd.Prelude.Bytes.{Bytes}

-- The test on two bytes in a row.
unfoldable pub is_chinese : ℕ → ℕ → Bool
is_chinese c d = (leb 0x81 c && leb c 0xfe) && (leb 0x40 d && (leb d 0xfe && not (d == 0x7f)))

-- A piece that is not empty at the end.
abbrev last_piece : Bytes → List Bytes
last_piece [] = []
last_piece (c ∷ s) = (c ∷ s) ∷ []

-- The end of a turn: `cur` is one character longer, and a full piece is put away.
abbrev turn : ℕ → ℕ → Bytes → (ℕ → Bytes → List Bytes) → List Bytes
turn n count cur go_on = if count + 1 == n then cur ∷ go_on 0 [] else go_on (count + 1) cur

-- The loop: `count` characters are in the piece `cur`. It ends before the last byte, unless that
-- is the second one of a character.
unfoldable pub word_loop : ℕ → Bytes → ℕ → Bytes → List Bytes
unfolding is_chinese
word_loop n [] count cur = last_piece cur
word_loop n (c ∷ []) count cur = last_piece cur
word_loop n (c ∷ d ∷ s) count cur =
    let two = turn n count (cur ++ c ∷ d ∷ []) (word_loop n s) in
    let one = turn n count (cur ++ c ∷ []) (word_loop n (d ∷ s)) in
    if is_chinese c d then two else one

-- CComFun::getSubStrByWord, with the pieces in the order of their numbers; `none` stands for -1.
-- A negative number is treated as 0 is.
unfoldable pub get_sub_str_by_word : Bytes → ℕ → Option (List Bytes)
unfolding word_loop
get_sub_str_by_word s n =
    if n == 0 then none else if leb (length s) n then some (s ∷ []) else some (word_loop n s 0 [])

-- The pieces one behind the other.
unfoldable pub flatten : List Bytes → Bytes
flatten [] = []
flatten (p ∷ ps) = p ++ flatten ps

flatten-last_piece : (s : Bytes) → flatten (last_piece s) ≡ s
unfolding flatten
flatten-last_piece [] = refl
flatten-last_piece (c ∷ s) = append-nil (c ∷ s)

-- The pieces, with the byte that may be left over, spell what was read and what was not.
abbrev pub Spells : List Bytes → Bytes → Type 0
Spells ps t = (flatten ps ≡ t) ⊎ ((e : ℕ) × (flatten ps ++ e ∷ [] ≡ t))

Spells-cons : (p : Bytes) (ps : List Bytes) (t : Bytes) → Spells ps t → Spells (p ∷ ps) (p ++ t)
unfolding flatten
Spells-cons p ps t (inl h) = inl (ap (◌++◌ p) h)
Spells-cons p ps t (inr (e, h)) = inr (e, append_assoc p (flatten ps) (e ∷ []) ∙ ap (◌++◌ p) h)

-- One turn, where the loop goes on with the text `t`.
Spells-turn :
    (n count : ℕ) (cur t : Bytes) (go_on : ℕ → Bytes → List Bytes)
    → ((count' : ℕ) (cur' : Bytes) → Spells (go_on count' cur') (cur' ++ t))
    → Spells (turn n count cur go_on) (cur ++ t)
Spells-turn n count cur t go_on h =
    elim (count + 1 == n)
      as (λ b. Spells (if b then cur ∷ go_on 0 [] else go_on (count + 1) cur) (cur ++ t)) [
        | true ↦ Spells-cons cur (go_on 0 []) t (h 0 [])
        | false ↦ h (count + 1) cur
      ]

word_loop-Spells :
    (n : ℕ) (s : Bytes) (count : ℕ) (cur : Bytes) → Spells (word_loop n s count cur) (cur ++ s)
unfolding word_loop
word_loop-Spells n [] count cur = inl (flatten-last_piece cur ∙ sym (append-nil cur))
word_loop-Spells n (c ∷ []) count cur = inr (c, ap (λ t. t ++ c ∷ []) (flatten-last_piece cur))
word_loop-Spells n (c ∷ d ∷ s) count cur =
    let two = Spells-turn n count (cur ++ c ∷ d ∷ []) s (word_loop n s) (word_loop-Spells n s) in
    let one =
      Spells-turn n count (cur ++ c ∷ []) (d ∷ s) (word_loop n (d ∷ s))
        (word_loop-Spells n (d ∷ s)) in
    elim (Bool-cases (is_chinese c d)) [
      | inl e ↦ rw e (rw (append_assoc cur (c ∷ d ∷ []) s) at two)
      | inr e ↦ rw e (rw (append_assoc cur (c ∷ []) (d ∷ s)) at one)
    ]

-- The pieces of a text, one behind the other, are the text, or the text without its last byte.
abbrev pub AllButLast : Option (List Bytes) → Bytes → Type 0
AllButLast none s = ⊥
AllButLast (some ps) s = Spells ps s

-- For a number of characters that is not 0, the pieces one behind the other are the text, or the
-- text without its last byte.
pub get_sub_str_by_word-Spells :
    (s : Bytes) (n : ℕ) → n ≢ 0 → AllButLast (get_sub_str_by_word s n) s
unfolding get_sub_str_by_word
get_sub_str_by_word-Spells s n h = rw (==-false h) (elim (Bool-cases (leb (length s) n)) [
  | inl e ↦ rw e (inl (unfold flatten in append-nil s))
  | inr e ↦ rw e (word_loop-Spells n s 0 [])
])

abbrev pub Loses : List Bytes → Bytes → Type 0
Loses ps t = (e : ℕ) × (flatten ps ++ e ∷ [] ≡ t)

Loses-turn :
    (n count : ℕ) (cur t : Bytes) (go_on : ℕ → Bytes → List Bytes)
    → ((count' : ℕ) (cur' : Bytes) → Loses (go_on count' cur') (cur' ++ t))
    → Loses (turn n count cur go_on) (cur ++ t)
unfolding flatten
Loses-turn n count cur t go_on h =
    elim (count + 1 == n)
      as (λ b. Loses (if b then cur ∷ go_on 0 [] else go_on (count + 1) cur) (cur ++ t)) [
        | true ↦
            let (b, k) = h 0 [] in
            (b, append_assoc cur (flatten (go_on 0 [])) (b ∷ []) ∙ ap (◌++◌ cur) k)
        | false ↦ h (count + 1) cur
      ]

-- A text of single bytes.
abbrev pub IsAscii : Bytes → Type 0
IsAscii = All (λ c. c < 0x81)

single_byte : (c d : ℕ) → c < 0x81 → is_chinese c d ≡ false
unfolding is_chinese
single_byte c d h = ground arith

longer : (m n : ℕ) → n < m → leb m n ≡ false
longer m n h = ground arith

word_loop-Loses :
    (n c : ℕ) (s : Bytes) (count : ℕ) (cur : Bytes)
    → IsAscii (c ∷ s)
    → Loses (word_loop n (c ∷ s) count cur) (cur ++ c ∷ s)
unfolding word_loop
word_loop-Loses n c [] count cur h = (c, ap (λ t. t ++ c ∷ []) (flatten-last_piece cur))
word_loop-Loses n c (d ∷ s) count cur h =
    let one =
      Loses-turn n count (cur ++ c ∷ []) (d ∷ s) (word_loop n (d ∷ s))
        (λ count' cur'. word_loop-Loses n d s count' cur' h.1) in
    rw (single_byte c d h.0) (rw (append_assoc cur (c ∷ []) (d ∷ s)) at one)

-- The pieces lack the last byte of the text.
abbrev pub LosesLast : Option (List Bytes) → Bytes → Type 0
LosesLast none s = ⊥
LosesLast (some ps) s = Loses ps s

-- The pieces of a text of single bytes (below 0x81) that is longer than a piece, of at least one
-- character, lack the text's last byte.
pub get_sub_str_by_word-Loses :
    (s : Bytes) (n : ℕ) → n ≢ 0 → n < length s → IsAscii s → LosesLast (get_sub_str_by_word s n) s
unfolding get_sub_str_by_word
get_sub_str_by_word-Loses [] n h long a = elim long [ ]
get_sub_str_by_word-Loses (c ∷ s) n h long a =
    rw (==-false h, longer (length (c ∷ s)) n long) (word_loop-Loses n c s 0 [] a)
