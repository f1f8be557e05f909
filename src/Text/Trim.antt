-- ===== src/Text/Trim.antt =====
-- sharelib/ComFun.cpp: `trimString`. Where a text is empty or all blank, the source's second
-- pointer runs off the front of its buffer, and the answer is the empty text.
use octopusd.Prelude.{
  ℕ, ◌≡◌, refl, ◌∙◌, sym, ap, append-nil, Bool, true, false, ◌&&◌, ◌||◌, [], ◌∷◌, ◌++◌, arith, ◌==◌,
  if◌then◌else◌, Bool-cases, inl, inr,
}
use octopusd.Prelude.Bytes.{Bytes}

unfoldable pub is_blank : ℕ → Bool
is_blank c = c == b' ' || c == 9

-- `p1` runs to the first byte that is no blank.
unfoldable pub trim_front : Bytes → Bytes
unfolding is_blank
trim_front [] = []
trim_front (c ∷ s) = let rest = trim_front s in if is_blank c then rest else c ∷ s

-- `p2` runs back to the last byte that is no blank.
abbrev keep_blank : ℕ → Bytes → Bytes
keep_blank c [] = if is_blank c then [] else c ∷ []
keep_blank c (d ∷ s) = c ∷ d ∷ s

unfoldable pub trim_end : Bytes → Bytes
unfolding is_blank
trim_end [] = []
trim_end (c ∷ s) = keep_blank c (trim_end s)

unfoldable pub all_blank : Bytes → Bool
unfolding is_blank
all_blank [] = true
all_blank (c ∷ s) = is_blank c && all_blank s

-- CComFun::trimString, by `iMode`: both ends, the front, or else the end.
unfoldable pub trim_string : Bytes → ℕ → Bytes
unfolding trim_front trim_end all_blank
trim_string s mode =
    if all_blank s
    then []
    else if mode == 0
    then trim_end (trim_front s)
    else if mode == 1
    then trim_front s
    else trim_end s

-- No blank stands at the front; none stands at the end.
unfoldable pub head_blank : Bytes → Bool
head_blank [] = false
head_blank (c ∷ s) = is_blank c

unfoldable pub last_blank : Bytes → Bool
last_blank [] = false
last_blank (c ∷ []) = is_blank c
last_blank (c ∷ d ∷ s) = last_blank (d ∷ s)

trim_front-head : (s : Bytes) → head_blank (trim_front s) ≡ false
unfolding trim_front head_blank
trim_front-head [] = refl
trim_front-head (c ∷ s) = ground (arith, trim_front-head s)

keep_blank-last : (c : ℕ) (s : Bytes) → last_blank s ≡ false → last_blank (keep_blank c s) ≡ false
unfolding last_blank
keep_blank-last c [] h = ground arith
keep_blank-last c (d ∷ s) h = h

trim_end-last : (s : Bytes) → last_blank (trim_end s) ≡ false
unfolding trim_end last_blank
trim_end-last [] = refl
trim_end-last (c ∷ s) = keep_blank-last c (trim_end s) (trim_end-last s)

keep_blank-head : (c : ℕ) (s t : Bytes) → is_blank c ≡ false → head_blank (keep_blank c t) ≡ false
unfolding head_blank
keep_blank-head c s [] h = ground arith
keep_blank-head c s (d ∷ t) h = h

trim_end-head : (s : Bytes) → head_blank s ≡ false → head_blank (trim_end s) ≡ false
unfolding trim_end head_blank
trim_end-head [] h = refl
trim_end-head (c ∷ s) h = keep_blank-head c s (trim_end s) h

-- What was cut off.
trim_front-split : (s : Bytes) → (a : Bytes) × (s ≡ a ++ trim_front s) × (all_blank a ≡ true)
unfolding trim_front all_blank
trim_front-split [] = ([], refl, refl)
trim_front-split (c ∷ s) = elim (Bool-cases (is_blank c)) [
  | inl e ↦ let (a, h, k) = trim_front-split s in (c ∷ a, rw e (ap (◌∷◌ c) h), rw e k)
  | inr e ↦ ([], rw e refl, refl)
]

trim_end-split : (s : Bytes) → (b : Bytes) × (s ≡ trim_end s ++ b) × (all_blank b ≡ true)
unfolding trim_end all_blank
trim_end-split [] = ([], refl, refl)
trim_end-split (c ∷ s) = let (b, h, k) = trim_end-split s in step c s (trim_end s) b h k
  where
    step :
        (c : ℕ) (s t b : Bytes)
        → s ≡ t ++ b
        → all_blank b ≡ true
        → (b' : Bytes) × (c ∷ s ≡ keep_blank c t ++ b') × (all_blank b' ≡ true)
    step c s [] b h k = elim (Bool-cases (is_blank c)) [
      | inl e ↦ (c ∷ b, rw e (ap (◌∷◌ c) h), rw e k)
      | inr e ↦ (b, rw e (ap (◌∷◌ c) h), k)
    ]
    step c s (d ∷ t) b h k = (b, ap (◌∷◌ c) h, k)

-- The text is blanks, the trimmed text, and blanks, and the trimmed text has none at its ends.
unfoldable pub Trimmed : Bytes → Bytes → Type 0
Trimmed s r =
    ((a : Bytes) × (b : Bytes) × (s ≡ a ++ (r ++ b)) × (all_blank a ≡ true) × (all_blank b ≡ true))
    × (head_blank r ≡ false)
    × (last_blank r ≡ false)

-- Trimming both ends takes off the blanks there and nothing else.
pub trim_string-Trimmed : (s : Bytes) → Trimmed s (trim_string s 0)
unfolding Trimmed trim_string
trim_string-Trimmed s = elim (Bool-cases (all_blank s)) [
  | inl e ↦ rw e (
    (s, [], sym (append-nil s), e, unfold all_blank in refl),
    unfold head_blank in refl,
    unfold last_blank in refl,
  )
  | inr e ↦
      let (a, h, k) = trim_front-split s in
      let (b, h', k') = trim_end-split (trim_front s) in
      rw e (
        (a, b, h ∙ ap (◌++◌ a) h', k, k'),
        trim_end-head (trim_front s) (trim_front-head s),
        trim_end-last (trim_front s),
      )
]
