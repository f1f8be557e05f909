-- ===== src/Text/Replace.antt =====
-- sharelib/ComFun.cpp: `find8Replace`, which replaces a text in a text, once or everywhere.
use octopusd.Prelude.{
  ℕ, zero, suc, ◌<◌, ◌≡◌, ◌≢◌, refl, sym, ap, ◌∙◌, [], ◌∷◌, ◌++◌, Option, none, some, arith, ◌==◌,
  if◌then◌else◌, length, length-append, append_assoc,
}
use octopusd.Prelude.Bytes.{Bytes}

-- The text behind a prefix.
unfoldable pub strip_prefix : Bytes → Bytes → Option Bytes
strip_prefix [] s = some s
strip_prefix (p ∷ ps) [] = none
strip_prefix (p ∷ ps) (c ∷ s) = if p == c then strip_prefix ps s else none

abbrev pub cons_before : ℕ → Option (Bytes × Bytes) → Option (Bytes × Bytes)
cons_before c none = none
cons_before c (some (a, b)) = some (c ∷ a, b)

-- `find` of `std::string`: what stands before the first place where the text is found, and what
-- stands behind it. The empty text is found at once.
unfoldable pub find_first : Bytes → Bytes → Option (Bytes × Bytes)
unfolding strip_prefix
find_first pat [] = elim (strip_prefix pat []) [ none ↦ none | some rest ↦ some ([], rest) ]
find_first pat (c ∷ s) = elim (strip_prefix pat (c ∷ s)) [
  | none ↦ cons_before c (find_first pat s)
  | some rest ↦ some ([], rest)
]

-- The loop of the type 2: `done` is the text up to `lastPos` and `s` the rest. `none` means that
-- the fuel ran out.
unfoldable pub replace_loop : ℕ → Bytes → Bytes → Bytes → Bytes → Option Bytes
unfolding find_first
replace_loop zero pat rep done s = none
replace_loop (suc f) pat rep done s = elim (find_first pat s) [
  | none ↦ some (done ++ s)
  | some (a, b) ↦ replace_loop f pat rep (done ++ (a ++ rep)) b
]

-- The type 1: the first place alone.
unfoldable pub replace_first : Bytes → Bytes → Bytes → Bytes
unfolding find_first
replace_first pat rep s = elim (find_first pat s) [ none ↦ s | some (a, b) ↦ a ++ (rep ++ b) ]

-- CComFun::find8Replace on so much fuel, by `iReplaceType`; any other type changes nothing.
unfoldable pub find8replace : ℕ → Bytes → Bytes → Bytes → ℕ → Option Bytes
unfolding replace_loop replace_first
find8replace fuel s pat rep type =
    if type == 2
    then replace_loop fuel pat rep [] s
    else if type == 1
    then some (replace_first pat rep s)
    else some s

-- What is found is there.
abbrev Found : Bytes → Bytes → Option (Bytes × Bytes) → Type 0
Found pat s none = Unit {0}
Found pat s (some (a, b)) = s ≡ a ++ (pat ++ b)

abbrev Stripped : Bytes → Bytes → Option Bytes → Type 0
Stripped pat s none = Unit {0}
Stripped pat s (some r) = s ≡ pat ++ r

strip_prefix-Stripped : (pat s : Bytes) → Stripped pat s (strip_prefix pat s)
unfolding strip_prefix
strip_prefix-Stripped [] s = refl
strip_prefix-Stripped (p ∷ ps) [] = tt
strip_prefix-Stripped (p ∷ ps) (c ∷ s) =
    step p c ps s (strip_prefix ps s) (strip_prefix-Stripped ps s)
  where
    step :
        (p c : ℕ) (ps s : Bytes) (r : Option Bytes)
        → Stripped ps s r
        → Stripped (p ∷ ps) (c ∷ s) (if p == c then r else none)
    step p c ps s none h = ground arith
    step p c ps s (some r) h = ground arith

Found-cons :
    (c : ℕ) (pat s : Bytes) (r : Option (Bytes × Bytes))
    → Found pat s r
    → Found pat (c ∷ s) (cons_before c r)
Found-cons c pat s none h = tt
Found-cons c pat s (some (a, b)) h = ap (◌∷◌ c) h

Found-step :
    (pat s : Bytes) (c : ℕ)
    → Found pat s (find_first pat s)
    → (r : Option Bytes) → Stripped pat (c ∷ s) r
    → Found pat
        (c ∷ s)
        (elim r [ none ↦ cons_before c (find_first pat s) | some rest ↦ some ([], rest) ])
Found-step pat s c ih none h = Found-cons c pat s (find_first pat s) ih
Found-step pat s c ih (some rest) h = h

find_first-Found : (pat s : Bytes) → Found pat s (find_first pat s)
unfolding find_first
find_first-Found [] [] = refl
find_first-Found (p ∷ pat) [] = tt
find_first-Found pat (c ∷ s) =
    Found-step pat s c (find_first-Found pat s) (strip_prefix pat (c ∷ s))
      (strip_prefix-Stripped pat (c ∷ s))

-- A text that is not empty and is found leaves a shorter rest.
shorter_rest : (pat s a b : Bytes) → pat ≢ [] → s ≡ a ++ (pat ++ b) → length b < length s
shorter_rest [] s a b h e = elim (h refl) [ ]
shorter_rest (p ∷ pat) s a b h e =
    rw e (omega (arith, length-append {0} a (p ∷ (pat ++ b)), length-append {0} pat b))

-- The loop on more fuel than the rest is long puts back what it takes out.
abbrev PutsBack : ℕ → Bytes → Type 0
PutsBack f pat =
    (before s : Bytes) → length s < f → replace_loop f pat pat before s ≡ some (before ++ s)

PutsBack-step :
    (f : ℕ) (pat before s : Bytes) (r : Option (Bytes × Bytes))
    → PutsBack f pat
    → pat ≢ []
    → length s < suc f
    → find_first pat s ≡ r
    → Found pat s r
    → replace_loop (suc f) pat pat before s ≡ some (before ++ s)
unfolding replace_loop
PutsBack-step f pat before s none ih n h e k = rw (e, replace_loop) refl
PutsBack-step f pat before s (some (a, b)) ih n h e k =
    rw (e, replace_loop)
      (ih (before ++ (a ++ pat)) b (omega (arith, shorter_rest pat s a b n k))
        ∙ ap some
            (append_assoc before (a ++ pat) b ∙ ap (◌++◌ before) (append_assoc a pat b ∙ sym k)))

replace_loop-PutsBack : (f : ℕ) (pat : Bytes) → pat ≢ [] → PutsBack f pat
replace_loop-PutsBack zero pat n before s h = elim h [ ]
replace_loop-PutsBack (suc f) pat n before s h =
    PutsBack-step f pat before s (find_first pat s) (replace_loop-PutsBack f pat n) n h refl
      (find_first-Found pat s)

-- To replace a text that is not empty by itself everywhere gives the text back, and the loop ends
-- on as much fuel as the text is long and one.
pub find8replace_itself :
    (pat s : Bytes) → pat ≢ [] → find8replace (suc (length s)) s pat pat 2 ≡ some s
unfolding find8replace
find8replace_itself pat s n = replace_loop-PutsBack (suc (length s)) pat n [] s (omega arith)

found_at_once : (s : Bytes) → find_first [] s ≡ some ([], s)
unfolding find_first strip_prefix
found_at_once [] = refl
found_at_once (c ∷ s) = refl

never_ends : (fuel : ℕ) (rep before s : Bytes) → replace_loop fuel [] rep before s ≡ none
unfolding replace_loop
never_ends zero rep before s = refl
never_ends (suc f) rep before s =
    rw (found_at_once s, replace_loop) (never_ends f rep (before ++ rep) s)

-- Where the text to look for is empty and all places are replaced, the loop ends on no fuel.
pub find8replace_empty : (fuel : ℕ) (s rep : Bytes) → find8replace fuel s [] rep 2 ≡ none
unfolding find8replace
find8replace_empty fuel s rep = never_ends fuel rep [] s
