-- ===== src/Text/Flag.antt =====
-- sharelib/ComFun.cpp: `getFlagStr`, which cuts a text at a separator, and `divideupStr`, which
-- cuts it at every separator and leaves empty parts out.
use octopusd.Prelude.{
  ℕ, zero, suc, ◌<◌, ◌≡◌, ◌≢◌, refl, ◌∙◌, sym, ap, List, [], ◌∷◌, ◌++◌, Option, none, some, arith,
  ◌==◌, if◌then◌else◌, length, All, append-nil, append_assoc, length-append,
}
use octopusd.Prelude.Bytes.{Bytes}

abbrev pub cons_first : ℕ → Option (Bytes × Bytes) → Option (Bytes × Bytes)
cons_first c none = none
cons_first c (some (a, b)) = some (c ∷ a, b)

-- CComFun::getFlagStr: the text before the first separator and the text behind it; `none` stands
-- for -1, where there is no separator.
unfoldable pub get_flag_str : Bytes → ℕ → Option (Bytes × Bytes)
get_flag_str [] flag = none
get_flag_str (c ∷ s) flag = if c == flag then some ([], s) else cons_first c (get_flag_str s flag)

-- `push_back`, unless the part is empty.
unfoldable pub push_part : List Bytes → Bytes → List Bytes
push_part parts [] = parts
push_part parts (c ∷ s) = parts ++ (c ∷ s) ∷ []

-- The loop of `divideupStr`, on fuel; `none` means that the fuel ran out.
unfoldable pub divide_loop : ℕ → Bytes → ℕ → List Bytes → Option (List Bytes)
unfolding get_flag_str push_part
divide_loop zero s flag parts = none
divide_loop (suc f) s flag parts = elim (get_flag_str s flag) [
  | none ↦ some (push_part parts s)
  | some (a, b) ↦ divide_loop f b flag (push_part parts a)
]

-- CComFun::divideupStr. Each round shortens the text.
unfoldable pub divideup_str : Bytes → ℕ → Option (List Bytes)
unfolding divide_loop
divideup_str s flag = divide_loop (suc (length s)) s flag []

-- A text without the byte.
abbrev pub Lacks : ℕ → Bytes → Type 0
Lacks c = All (λ d. d ≢ c)

-- What `getFlagStr` answers: the parts spell the text with the separator between them, and the
-- first holds none; or the text holds none.
abbrev pub Cut : Bytes → ℕ → Option (Bytes × Bytes) → Type 0
Cut s flag none = Lacks flag s
Cut s flag (some (a, b)) = (s ≡ a ++ flag ∷ b) × Lacks flag a

cons_first-Cut :
    (c : ℕ) (s : Bytes) (flag : ℕ) (r : Option (Bytes × Bytes))
    → c ≢ flag
    → Cut s flag r
    → Cut (c ∷ s) flag (cons_first c r)
cons_first-Cut c s flag none n h = (n, h)
cons_first-Cut c s flag (some (a, b)) n h = (rw h.0 refl, (n, h.1))

-- A text is cut at its first separator, into the part before it, which holds none, and the rest;
-- or it holds none and the answer is -1.
pub get_flag_str-Cut : (s : Bytes) (flag : ℕ) → Cut s flag (get_flag_str s flag)
unfolding get_flag_str
get_flag_str-Cut [] flag = tt
get_flag_str-Cut (c ∷ s) flag =
    ground (arith, cons_first-Cut c s flag (get_flag_str s flag), get_flag_str-Cut s flag)

-- A text that begins with a part and a separator is cut there.
pub get_flag_str-append :
    (a b : Bytes) (flag : ℕ) → Lacks flag a → get_flag_str (a ++ flag ∷ b) flag ≡ some (a, b)
unfolding get_flag_str
get_flag_str-append [] b flag h = ground arith
get_flag_str-append (c ∷ a) b flag h = ground (arith, get_flag_str-append a b flag h.1)

-- The parts of a text between its separators, one more than there are separators.
abbrev cons_head : ℕ → List Bytes → List Bytes
cons_head c [] = (c ∷ []) ∷ []
cons_head c (p ∷ ps) = (c ∷ p) ∷ ps

unfoldable pub parts_of : Bytes → ℕ → List Bytes
parts_of [] flag = [] ∷ []
parts_of (c ∷ s) flag = if c == flag then [] ∷ parts_of s flag else cons_head c (parts_of s flag)

-- Without the empty ones.
unfoldable pub non_empty : List Bytes → List Bytes
non_empty [] = []
non_empty ([] ∷ ps) = non_empty ps
non_empty ((c ∷ p) ∷ ps) = (c ∷ p) ∷ non_empty ps

parts_of-append :
    (a b : Bytes) (flag : ℕ) → Lacks flag a → parts_of (a ++ flag ∷ b) flag ≡ a ∷ parts_of b flag
unfolding parts_of
parts_of-append [] b flag h = ground arith
parts_of-append (c ∷ a) b flag h = ground (arith, parts_of-append a b flag h.1)

parts_of-Lacks : (s : Bytes) (flag : ℕ) → Lacks flag s → parts_of s flag ≡ s ∷ []
unfolding parts_of
parts_of-Lacks [] flag h = refl
parts_of-Lacks (c ∷ s) flag h = ground (arith, parts_of-Lacks s flag h.1)

push_part-non_empty :
    (parts : List Bytes) (p : Bytes) (ps : List Bytes)
    → push_part parts p ++ non_empty ps ≡ parts ++ non_empty (p ∷ ps)
unfolding push_part non_empty
push_part-non_empty parts [] ps = refl
push_part-non_empty parts (c ∷ p) ps = append_assoc parts ((c ∷ p) ∷ []) (non_empty ps)

length_behind : (s a b : Bytes) (flag : ℕ) → s ≡ a ++ flag ∷ b → length b < length s
length_behind s a b flag h = rw h (omega (arith, length-append {0} a (flag ∷ b)))

-- The loop with so much fuel gives the parts, for each text that is shorter.
abbrev Divides : ℕ → ℕ → Type 0
Divides f flag =
    (s : Bytes) (parts : List Bytes)
    → length s < f
    → divide_loop f s flag parts ≡ some (parts ++ non_empty (parts_of s flag))

divide_step :
    (f : ℕ) (s : Bytes) (flag : ℕ) (parts : List Bytes) (r : Option (Bytes × Bytes))
    → Divides f flag
    → length s < suc f
    → get_flag_str s flag ≡ r
    → Cut s flag r
    → divide_loop (suc f) s flag parts ≡ some (parts ++ non_empty (parts_of s flag))
unfolding divide_loop non_empty
divide_step f s flag parts none ih h e lacks =
    rw (e, divide_loop)
      (ap some (
        sym (append-nil (push_part parts s))
        ∙ push_part-non_empty parts s []
        ∙ ap (λ l. parts ++ non_empty l) (sym (parts_of-Lacks s flag lacks))))
divide_step f s flag parts (some (a, b)) ih h e (spelled, lacks) =
    rw (e, divide_loop)
      (ih b (push_part parts a) (omega (arith, length_behind s a b flag spelled))
        ∙ ap some (
            push_part-non_empty parts a (parts_of b flag)
            ∙ ap (λ l. parts ++ non_empty l)
                (sym (parts_of-append a b flag lacks) ∙ ap (λ t. parts_of t flag) (sym spelled))))

-- With more fuel than the text is long the loop ends, with the parts that are not empty.
divide_loop-parts_of : (f flag : ℕ) → Divides f flag
divide_loop-parts_of zero flag s parts h = elim h [ ]
divide_loop-parts_of (suc f) flag s parts h =
    divide_step f s flag parts (get_flag_str s flag) (divide_loop-parts_of f flag) h refl
      (get_flag_str-Cut s flag)

-- The cut of every text ends, and gives the parts between the separators that are not empty, in
-- their order.
pub divideup_str-parts_of :
    (s : Bytes) (flag : ℕ) → divideup_str s flag ≡ some (non_empty (parts_of s flag))
unfolding divideup_str
divideup_str-parts_of s flag = divide_loop-parts_of (suc (length s)) flag s [] (omega arith)
