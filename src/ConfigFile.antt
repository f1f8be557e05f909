-- ===== src/ConfigFile.antt =====
-- sharelib/Config.cpp: the reader of a configuration file, and the look-up of its items. A file is
-- its text, or `none` where it cannot be opened; it holds no zero byte.
use octopusd.Prelude.{
  ℕ, zero, suc, ◌+◌, Bool, true, false, ◌&&◌, ◌||◌, [], ◌∷◌, Option, none, some, ◌==◌,
  if◌then◌else◌, length,
}
use octopusd.Prelude.Bytes.{Bytes}
use octopusd.Prelude.Map.{Map, find, insert, get_or, bytes_key}
use octopusd.Text.Flag.{get_flag_str}
use octopusd.Text.Trim.{trim_string}
pub mod RoundTrip
pub mod Blanks

-- ConfigType, and the table of sections.
abbrev pub Items : Type 0
Items = Map Bytes Bytes

abbrev pub Sections : Type 0
Sections = Map Bytes Items

-- `fgets` with room for so many bytes: the line with its end, and the rest of the file.
unfoldable pub fgets : ℕ → Bytes → Bytes × Bytes
fgets zero s = ([], s)
fgets (suc n) [] = ([], [])
fgets (suc n) (c ∷ s) =
    let more = fgets n s in if c == 10 then (c ∷ [], s) else (c ∷ more.0, more.1)

-- The line without the ends of lines behind it.
abbrev keep_end : ℕ → Bytes → Bytes
keep_end c [] = if c == 10 || c == 13 then [] else c ∷ []
keep_end c (d ∷ s) = c ∷ d ∷ s

unfoldable pub strip_end : Bytes → Bytes
strip_end [] = []
strip_end (c ∷ s) = keep_end c (strip_end s)

-- The text without its last byte, and whether that is a `]`.
unfoldable pub all_but_last : Bytes → Bytes
all_but_last [] = []
all_but_last (c ∷ []) = []
all_but_last (c ∷ d ∷ s) = c ∷ all_but_last (d ∷ s)

unfoldable pub ends_section : Bytes → Bool
ends_section [] = false
ends_section (c ∷ []) = c == b']'
ends_section (c ∷ d ∷ s) = ends_section (d ∷ s)

-- What a line is.
pub data Line : Type 0 where
  bad : Line
  skipped : Line
  section : Bytes → Line
  item : Bytes → Bytes → Line

unfoldable pub named_section : Bytes → Line
named_section [] = bad
named_section (c ∷ s) = section (c ∷ s)

-- A name and a value, as `getFlagStr` cut them.
unfoldable pub named_item : Bytes → Bytes → Line
named_item [] value = bad
named_item (c ∷ s) value = item (c ∷ s) value

unfoldable pub cut_item : Option (Bytes × Bytes) → Line
unfolding named_item trim_string
cut_item none = bad
cut_item (some (name, value)) = named_item (trim_string name 0) (trim_string value 0)

unfoldable pub read_item_line : Bytes → Bytes → Line
unfolding cut_item get_flag_str
read_item_line [] s = bad
read_item_line (c ∷ cur) s = cut_item (get_flag_str s b'=')

-- A line that is not empty, without its end, in the section whose name is given.
unfoldable pub read_full_line : Bytes → Bytes → Line
unfolding read_item_line named_section ends_section all_but_last
read_full_line cur [] = skipped
read_full_line cur (c ∷ s) =
    if c == b'#' || c == b';'
    then skipped
    else if c == b'[' && ends_section (c ∷ s)
    then named_section (all_but_last s)
    else read_item_line cur (c ∷ s)

-- A line whose trimmed text is empty is an error; one that is empty without its end is none.
unfoldable pub read_trimmed : Bytes → Bytes → Line
unfolding read_full_line strip_end
read_trimmed cur [] = bad
read_trimmed cur (c ∷ s) = read_full_line cur (strip_end (c ∷ s))

unfoldable pub read_line : Bytes → Bytes → Line
unfolding read_trimmed trim_string
read_line cur line = read_trimmed cur (trim_string line 0)

-- `m_mapSection[section][name] = value`.
unfoldable pub put_item : Bytes → Bytes → Bytes → Sections → Sections
put_item sec name value m = insert sec (insert name value (get_or sec [] m)) m

-- What `Init` answers: 0 with the table, or the number of a bad line, or -1.
pub data Loaded : Type 0 where
  loaded : Sections → Loaded
  bad_line : ℕ → Loaded
  no_file : Loaded

-- The loop over the lines, on fuel: the number of the last line, the section and the table. Each
-- line has at least a byte, so the length of the text is enough.
unfoldable pub load_lines : ℕ → ℕ → Bytes → Sections → Bytes → Loaded
unfolding fgets read_line put_item
load_lines fuel n cur m [] = loaded m
load_lines zero n cur m (c ∷ s) = no_file
load_lines (suc f) n cur m (c ∷ s) =
    let r = fgets 1023 (c ∷ s) in
    elim (read_line cur r.0) [
      | bad ↦ bad_line (n + 1)
      | skipped ↦ load_lines f (n + 1) cur m r.1
      | section name ↦ load_lines f (n + 1) name m r.1
      | item name value ↦ load_lines f (n + 1) cur (put_item cur name value m) r.1
    ]

-- CConfig::Init.
unfoldable pub load : Option Bytes → Loaded
unfolding load_lines
load none = no_file
load (some text) = load_lines (length text) 0 [] [] text

-- CConfig::ReadItem: the answer is 0 or -1, and the item or the default value.
unfoldable pub value_or : Bytes → Option Bytes → Bool × Bytes
value_or default none = (false, default)
value_or default (some value) = (true, value)

unfoldable pub read_item : Bytes → Bytes → Bytes → Sections → Bool × Bytes
unfolding value_or
read_item sec name default m = elim (find sec m) [
  | none ↦ (false, default)
  | some items ↦ value_or default (find name items)
]
