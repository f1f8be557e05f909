-- ===== src/ConfigFile/Blanks.antt =====
-- sharelib/Config.cpp: a line with the name of a section and a blank behind it.
use octopusd.Prelude.{ℕ, ◌≡◌, ◌≢◌, refl, false, [], ◌∷◌, ◌++◌, none, arith, All, ==-false}
use octopusd.Prelude.Bytes.{Bytes}
use octopusd.Text.Flag.{get_flag_str, Lacks}
use octopusd.Text.Trim.{is_blank}
use octopusd.ConfigFile.{bad, ends_section, read_line, read_full_line, read_item_line, cut_item}
use octopusd.ConfigFile.RoundTrip.{Inside, read_line_full, All-text}

ends_section_blank : (s : Bytes) (c : ℕ) → ends_section (c ∷ (s ++ (b']' ∷ (b' ' ∷ [])))) ≡ false
unfolding ends_section
ends_section_blank [] c = refl
ends_section_blank (d ∷ s) c = ends_section_blank s d

get_flag_str-Lacks : (s : Bytes) (flag : ℕ) → Lacks flag s → get_flag_str s flag ≡ none
unfolding get_flag_str
get_flag_str-Lacks [] flag h = refl
get_flag_str-Lacks (c ∷ s) flag h = rw (==-false h.0, get_flag_str-Lacks s flag h.1) refl

read_item_line-Lacks : (cur s : Bytes) → Lacks b'=' s → read_item_line cur s ≡ bad
unfolding read_item_line cut_item
read_item_line-Lacks [] s h = refl
read_item_line-Lacks (c ∷ cur) s h = rw (get_flag_str-Lacks s b'=' h) refl

-- A line with a name between square brackets and a blank behind them is a bad line, in whatever
-- section it stands, if the name has no equals sign.
read_line_blank :
    (cur name : Bytes)
    → All Inside name
    → Lacks b'=' name
    → read_line cur (b'[' ∷ ((name ++ (b']' ∷ (b' ' ∷ []))) ++ (10 ∷ []))) ≡ bad
unfolding read_full_line
read_line_blank cur name inside lacks =
    let text = name ++ (b']' ∷ (b' ' ∷ [])) in
    let all : All Inside (b'[' ∷ text) =
      (omega arith, All-text Inside name (b' ' ∷ []) b']' inside (omega arith) (omega arith, tt)) in
    let none_there : Lacks b'=' (b'[' ∷ text) = (
      omega arith,
      All-text (λ d. d ≢ b'=') name (b' ' ∷ []) b']' lacks (omega arith) (omega arith, tt),
    ) in
    rw (read_line_full cur b'[' text (unfold is_blank in refl) all, ends_section_blank name b'[')
      (read_item_line-Lacks cur (b'[' ∷ text) none_there)
