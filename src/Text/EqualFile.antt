-- ===== src/Text/EqualFile.antt =====
-- sharelib/ComFun.cpp: `readEqualValueFile`, the reader of the list of mobile numbers. A file is
-- its text, without zero bytes.
use octopusd.Prelude.{
  ℕ, zero, suc, Bool, false, ◌||◌, [], ◌∷◌, Option, none, some, ◌==◌, if◌then◌else◌, length,
}
use octopusd.Prelude.Bytes.{Bytes}
use octopusd.Prelude.Map.{Map, insert, bytes_key}
use octopusd.ConfigFile.{fgets, strip_end}
use octopusd.Text.Flag.{get_flag_str}
use octopusd.Text.Trim.{trim_string}

-- A line that begins so is passed over.
unfoldable pub is_remark : Bytes → Bool
is_remark [] = false
is_remark (c ∷ s) = c == b'#' || c == b'['

unfoldable pub put_value : Option (Bytes × Bytes) → Map Bytes Bytes → Map Bytes Bytes
unfolding trim_string strip_end insert
put_value none m = m
put_value (some (name, value)) m = insert (trim_string name 0) (trim_string (strip_end value) 0) m

unfoldable pub equal_line : Bytes → Map Bytes Bytes → Map Bytes Bytes
unfolding is_remark put_value get_flag_str trim_string
equal_line line m =
    let s = trim_string line 0 in if is_remark s then m else put_value (get_flag_str s b'=') m

-- The loop over the lines, on fuel. Each line has at least a byte.
unfoldable pub equal_lines : ℕ → Bytes → Map Bytes Bytes → Map Bytes Bytes
unfolding fgets equal_line
equal_lines fuel [] m = m
equal_lines zero (c ∷ s) m = m
equal_lines (suc f) (c ∷ s) m = let r = fgets 1023 (c ∷ s) in equal_lines f r.1 (equal_line r.0 m)

-- CComFun::readEqualValueFile into an empty table; `none` stands for -1.
unfoldable pub read_equal_value_file : Option Bytes → Option (Map Bytes Bytes)
unfolding equal_lines
read_equal_value_file none = none
read_equal_value_file (some text) = some (equal_lines (length text) text [])
