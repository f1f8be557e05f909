-- ===== src/ConfigFile/RoundTrip.antt =====
-- sharelib/Config.cpp: files of sections and items, and what the reader makes of them.
use octopusd.Prelude.{
  ℕ, zero, suc, ◌+◌, ◌≡◌, ◌≢◌, ◌≤◌, ◌<◌, refl, ap, ◌∙◌, Bool, true, false, ◌&&◌, List, [], ◌∷◌,
  ◌++◌, Option, none, some, arith, if◌then◌else◌, length, length-append, All, All-append, ==-false,
  Bool-cases, Option-cases, inl, inr,
}
use octopusd.Prelude.Bytes.{Bytes, bytes_eq, bytes_eq_iff}
use octopusd.Prelude.Map.{find, insert, get_or, find-insert, bytes_key}
use octopusd.Text.Flag.{get_flag_str-append, Lacks}
use octopusd.Text.Trim.{
  trim_string, trim_front, trim_end, all_blank, is_blank, head_blank, last_blank,
}
use octopusd.ConfigFile.{
  Items, Sections, fgets, strip_end, all_but_last, ends_section, section, item, named_section,
  named_item, cut_item, read_item_line, read_full_line, read_trimmed, read_line, put_item, loaded,
  load_lines, load, value_or, read_item,
}

-- Trimming leaves a text without blanks at its ends as it is.
trim_end_same : (s : Bytes) → last_blank s ≡ false → trim_end s ≡ s
unfolding trim_end last_blank
trim_end_same [] h = refl
trim_end_same (c ∷ []) h = ground arith
trim_end_same (c ∷ d ∷ s) h = rw (trim_end_same (d ∷ s) h) refl

pub trim_string_same :
    (s : Bytes) → head_blank s ≡ false → last_blank s ≡ false → trim_string s 0 ≡ s
unfolding trim_string all_blank trim_front head_blank
trim_string_same [] h k = refl
trim_string_same (c ∷ s) h k = rw h (trim_end_same (c ∷ s) k)

-- A byte that ends no line.
abbrev pub Inside : ℕ → Type 0
Inside c = (c ≢ 10) × (c ≢ 13)

-- `fgets` of a line that has room.
fgets_line :
    (n : ℕ) (s rest : Bytes)
    → All Inside s
    → length s < n
    → fgets n (s ++ (10 ∷ rest)) ≡ (s ++ (10 ∷ []), rest)
unfolding fgets
fgets_line zero s rest h l = absurd (omega arith)
fgets_line (suc n) [] rest h l = refl
fgets_line (suc n) (c ∷ s) rest h l =
    rw (==-false h.0.0, fgets_line n s rest h.1 (omega arith)) refl

-- The end of the line is taken off, and nothing else.
strip_end_same : (s : Bytes) → All Inside s → strip_end s ≡ s
unfolding strip_end
strip_end_same [] h = refl
strip_end_same (c ∷ []) h = ground arith
strip_end_same (c ∷ d ∷ s) h = rw (strip_end_same (d ∷ s) h.1) refl

strip_end_line : (s : Bytes) → All Inside s → strip_end (s ++ (10 ∷ [])) ≡ s
unfolding strip_end
strip_end_line [] h = refl
strip_end_line (c ∷ []) h = ground arith
strip_end_line (c ∷ d ∷ s) h = rw (strip_end_line (d ∷ s) h.1) refl

last_blank_line : (c : ℕ) (s : Bytes) → last_blank (c ∷ (s ++ (10 ∷ []))) ≡ false
unfolding last_blank is_blank
last_blank_line c [] = refl
last_blank_line c (d ∷ s) = last_blank_line d s

-- A full line as the loop sees it.
pub read_line_full :
    (cur : Bytes) (c : ℕ) (s : Bytes)
    → is_blank c ≡ false
    → All Inside (c ∷ s)
    → read_line cur (c ∷ (s ++ (10 ∷ []))) ≡ read_full_line cur (c ∷ s)
unfolding read_line read_trimmed head_blank
read_line_full cur c s b h =
    rw (trim_string_same (c ∷ (s ++ (10 ∷ []))) b (last_blank_line c s), strip_end_line (c ∷ s) h)
      refl

-- An entry of a file.
pub data Entry : Type 0 where
  section_entry : Bytes → Entry
  item_entry : Bytes → Bytes → Entry

unfoldable pub entry_text : Entry → Bytes
entry_text (section_entry name) = b'[' ∷ (name ++ (b']' ∷ []))
entry_text (item_entry name value) = name ++ (b'=' ∷ value)

unfoldable pub print_entries : List Entry → Bytes
unfolding entry_text
print_entries [] = []
print_entries (e ∷ es) = entry_text e ++ (10 ∷ print_entries es)

ends_section_lem : (s : Bytes) (c : ℕ) → ends_section (c ∷ (s ++ (b']' ∷ []))) ≡ true
unfolding ends_section
ends_section_lem [] c = refl
ends_section_lem (d ∷ s) c = ends_section_lem s d

all_but_last-append : (s : Bytes) (c : ℕ) → all_but_last (s ++ (c ∷ [])) ≡ s
unfolding all_but_last
all_but_last-append [] c = refl
all_but_last-append (d ∷ []) c = refl
all_but_last-append (d ∷ e ∷ s) c = ap (◌∷◌ d) (all_but_last-append (e ∷ s) c)

-- A name that no line takes for anything else.
abbrev pub ItemName : Bytes → Type 0
ItemName [] = ⊥
ItemName (c ∷ s) =
    (c ≢ b'#')
    × (c ≢ b';')
    × (c ≢ b'[')
    × (is_blank c ≡ false)
    × (last_blank (c ∷ s) ≡ false)
    × Lacks b'=' (c ∷ s)
    × All Inside (c ∷ s)

abbrev pub ItemValue : Bytes → Type 0
ItemValue s = (head_blank s ≡ false) × (last_blank s ≡ false) × All Inside s

read_full_line-section :
    (cur : Bytes) (c : ℕ) (s : Bytes)
    → read_full_line cur (b'[' ∷ ((c ∷ s) ++ (b']' ∷ []))) ≡ section (c ∷ s)
unfolding read_full_line named_section
read_full_line-section cur c s =
    rw (ends_section_lem (c ∷ s) b'[', all_but_last-append (c ∷ s) b']') refl

cut_item_lem :
    (name value : Bytes)
    → ItemName name
    → ItemValue value
    → cut_item (some (name, value)) ≡ item name value
unfolding cut_item named_item head_blank
cut_item_lem [] value h k = absurd h
cut_item_lem (d ∷ s) value h k =
    let (_, _, _, front, back, _, _) = h in
    rw (trim_string_same (d ∷ s) front back, trim_string_same value k.0 k.1) refl

read_item_line_lem :
    (c : ℕ) (cur name value : Bytes)
    → Lacks b'=' name
    → read_item_line (c ∷ cur) (name ++ (b'=' ∷ value)) ≡ cut_item (some (name, value))
unfolding read_item_line
read_item_line_lem c cur name value h = ap cut_item (get_flag_str-append name value b'=' h)

read_full_line-item :
    (c : ℕ) (cur name value : Bytes)
    → ItemName name
    → ItemValue value
    → read_full_line (c ∷ cur) (name ++ (b'=' ∷ value)) ≡ item name value
unfolding read_full_line
read_full_line-item c cur [] value h k = absurd h
read_full_line-item c cur (d ∷ s) value h k =
    let (hash, semicolon, bracket, _, _, lacks, _) = h in
    rw (==-false hash, ==-false semicolon, ==-false bracket)
      (read_item_line_lem c cur (d ∷ s) value lacks ∙ cut_item_lem (d ∷ s) value h k)

-- Entries that a file can hold, behind the name of a section: an item has one, and a line has
-- room in the buffer.
abbrev pub Fits : Bytes → List Entry → Type 0
Fits cur [] = Unit
Fits cur (section_entry name ∷ es) =
    (name ≢ []) × All Inside name × (length name < 1000) × Fits name es
Fits cur (item_entry name value ∷ es) =
    (cur ≢ []) × ItemName name × ItemValue value × (length name + length value < 1000) × Fits cur es

-- The table that the entries make of another one.
unfoldable pub apply_entries : Bytes → List Entry → Sections → Sections
unfolding put_item
apply_entries cur [] m = m
apply_entries cur (section_entry name ∷ es) m = apply_entries name es m
apply_entries cur (item_entry name value ∷ es) m = apply_entries cur es (put_item cur name value m)

pub All-text :
    (P : ℕ → Type 0) (a b : Bytes) (c : ℕ) → All P a → P c → All P b → All P (a ++ (c ∷ b))
All-text P a b c ha hc hb = All-append P a (c ∷ b) ha (hc, hb)

-- A line of a printed entry, read by itself.
section_line :
    (cur name : Bytes)
    → name ≢ []
    → All Inside name
    → read_line cur (entry_text (section_entry name) ++ (10 ∷ [])) ≡ section name
unfolding entry_text
section_line cur [] h k = absurd (h refl)
section_line cur (c ∷ s) h k =
    read_line_full cur b'[' ((c ∷ s) ++ (b']' ∷ [])) (unfold is_blank in refl)
      (omega arith, All-text Inside (c ∷ s) [] b']' k (omega arith) tt)
    ∙ read_full_line-section cur c s

item_line :
    (cur name value : Bytes)
    → cur ≢ []
    → ItemName name
    → ItemValue value
    → read_line cur (entry_text (item_entry name value) ++ (10 ∷ [])) ≡ item name value
unfolding entry_text
item_line [] name value h k v = absurd (h refl)
item_line (c ∷ cur) [] value h k v = absurd k
item_line (c ∷ cur) (d ∷ s) value h k v =
    let (_, _, _, front, _, _, inside) = k in
    read_line_full (c ∷ cur) d (s ++ (b'=' ∷ value)) front
      (All-text Inside (d ∷ s) value b'=' inside (omega arith) v.2)
    ∙ read_full_line-item c cur (d ∷ s) value k v

-- A round of the loop at such a line.
load_section :
    (f n c : ℕ) (cur s rest name : Bytes) (m : Sections)
    → All Inside (c ∷ s)
    → length (c ∷ s) < 1023
    → read_line cur ((c ∷ s) ++ (10 ∷ [])) ≡ section name
    → load_lines (suc f) n cur m ((c ∷ s) ++ (10 ∷ rest)) ≡ load_lines f (n + 1) name m rest
unfolding load_lines
load_section f n c cur s rest name m inside room h =
    let line = fgets_line 1023 (c ∷ s) rest inside room in
    rw (line, load_lines, h) (ap (λ p. load_lines f (n + 1) name m p.1) line)

load_item :
    (f n c : ℕ) (cur s rest name value : Bytes) (m : Sections)
    → All Inside (c ∷ s)
    → length (c ∷ s) < 1023
    → read_line cur ((c ∷ s) ++ (10 ∷ [])) ≡ item name value
    → load_lines (suc f) n cur m ((c ∷ s) ++ (10 ∷ rest))
      ≡ load_lines f (n + 1) cur (put_item cur name value m) rest
unfolding load_lines
load_item f n c cur s rest name value m inside room h =
    let line = fgets_line 1023 (c ∷ s) rest inside room in
    rw (line, load_lines, h)
      (ap (λ p. load_lines f (n + 1) cur (put_item cur name value m) p.1) line)

load_lines-print :
    (f n : ℕ) (cur : Bytes) (es : List Entry) (m : Sections)
    → Fits cur es
    → length (print_entries es) ≤ f
    → load_lines f n cur m (print_entries es) ≡ loaded (apply_entries cur es m)
unfolding print_entries apply_entries entry_text
load_lines-print zero n cur [] m h l = unfold load_lines in refl
load_lines-print (suc f) n cur [] m h l = unfold load_lines in refl
load_lines-print zero n cur (section_entry name ∷ es) m h l = absurd (omega arith)
load_lines-print zero n cur (item_entry [] value ∷ es) m h l = absurd h.1
load_lines-print zero n cur (item_entry (c ∷ name) value ∷ es) m h l = absurd (omega arith)
load_lines-print (suc f) n cur (section_entry name ∷ es) m (named, inside, room, rest) l =
    let text = name ++ (b']' ∷ []) in
    load_section f n b'[' cur text (print_entries es) name m
      (omega arith, All-text Inside name [] b']' inside (omega arith) tt)
      (omega (arith, length-append name (b']' ∷ []))) (section_line cur name named inside)
    ∙ load_lines-print f (n + 1) name es m rest
        (omega (arith, length-append (b'[' ∷ text) (10 ∷ print_entries es)))
load_lines-print (suc f) n cur (item_entry [] value ∷ es) m h l = absurd h.1
load_lines-print (suc f) n cur (item_entry (c ∷ name) value ∷ es) m (there, k, v, room, rest) l =
    let text = name ++ (b'=' ∷ value) in
    let (_, _, _, _, _, _, inside) = k in
    load_item f n c cur text (print_entries es) (c ∷ name) value m
      (All-text Inside (c ∷ name) value b'=' inside (omega arith) v.2)
      (omega (arith, length-append name (b'=' ∷ value))) (item_line cur (c ∷ name) value there k v)
    ∙ load_lines-print f (n + 1) cur es (put_item cur (c ∷ name) value m) rest
        (omega (arith, length-append (c ∷ text) (10 ∷ print_entries es)))

-- The last item of that name in that section.
unfoldable pub later_or : Option Bytes → Option Bytes → Option Bytes
later_or (some w) o = some w
later_or none o = o

unfoldable pub last_item : Bytes → Bytes → Bytes → List Entry → Option Bytes
unfolding later_or
last_item sec name cur [] = none
last_item sec name cur (section_entry n ∷ es) = last_item sec name n es
last_item sec name cur (item_entry k v ∷ es) =
    later_or (last_item sec name cur es)
      (if bytes_eq cur sec && bytes_eq k name then some v else none)

-- What `ReadItem` finds.
found : Bytes → Bytes → Sections → Option Bytes
found sec name m = find name (get_or sec [] m)

read_item-found :
    (sec name default : Bytes) (m : Sections)
    → read_item sec name default m ≡ value_or default (found sec name m)
unfolding read_item found get_or
read_item-found sec name default m = elim (Option-cases (find sec m)) [
  | inl e ↦ rw (e, read_item, found, get_or) (unfold find in refl)
  | inr (items, e) ↦ rw (e, read_item, found, get_or) refl
]

get_or-insert :
    (sec cur : Bytes) (x : Items) (m : Sections)
    → get_or sec [] (insert cur x m) ≡ (if bytes_eq cur sec then x else get_or sec [] m)
unfolding get_or
get_or-insert sec cur x m = elim (Bool-cases (bytes_eq cur sec)) [
  | inl e ↦ rw (find-insert sec cur x m, get_or, e) refl
  | inr e ↦ rw (find-insert sec cur x m, get_or, e) refl
]

found-put_item :
    (sec name cur k v : Bytes) (m : Sections)
    → found sec name (put_item cur k v m)
      ≡ (if bytes_eq cur sec && bytes_eq k name then some v else found sec name m)
unfolding found put_item
found-put_item sec name cur k v m =
    let items = insert k v (get_or cur [] m) in
    elim (Bool-cases (bytes_eq cur sec)) [
      | inr e ↦ rw (get_or-insert sec cur items m, e) refl
      | inl e ↦
          let same : cur ≡ sec = (bytes_eq_iff cur sec).0 e in
          rw (get_or-insert sec cur items m, e, find-insert name k v (get_or cur [] m), same) refl
    ]

later_or-if :
    (o r : Option Bytes) (b : Bool) (v : Bytes)
    → later_or o (if b then some v else r) ≡ later_or (later_or o (if b then some v else none)) r
unfolding later_or
later_or-if (some w) r b v = refl
later_or-if none r true v = refl
later_or-if none r false v = refl

found-apply_entries :
    (sec name cur : Bytes) (es : List Entry) (m : Sections)
    → found sec name (apply_entries cur es m)
      ≡ later_or (last_item sec name cur es) (found sec name m)
unfolding apply_entries last_item
found-apply_entries sec name cur [] m = refl
found-apply_entries sec name cur (section_entry n ∷ es) m = found-apply_entries sec name n es m
found-apply_entries sec name cur (item_entry k v ∷ es) m =
    found-apply_entries sec name cur es (put_item cur k v m)
    ∙ ap (later_or (last_item sec name cur es)) (found-put_item sec name cur k v m)
    ∙ later_or-if (last_item sec name cur es) (found sec name m)
        (bytes_eq cur sec && bytes_eq k name) v

-- Entries that fit their lines, each item behind a section, are loaded from their printed file,
-- and looking an item up gives the value of the last one of that name in a section of that name,
-- or the default value with -1 where there is none.
pub read_item-load :
    (es : List Entry) (sec name default : Bytes)
    → Fits [] es
    → (m : Sections) × (load (some (print_entries es)) ≡ loaded m)
      × (read_item sec name default m ≡ value_or default (last_item sec name [] es))
unfolding load later_or found find get_or
read_item-load es sec name default h = (
  apply_entries [] es [],
  load_lines-print (length (print_entries es)) 0 [] es [] h (omega arith),
  read_item-found sec name default (apply_entries [] es [])
      ∙ ap (value_or default)
          (found-apply_entries sec name [] es [] ∙ nothing_before (last_item sec name [] es)),
)
  where
    nothing_before : (o : Option Bytes) → later_or o (found sec name []) ≡ o
    nothing_before none = refl
    nothing_before (some v) = refl
