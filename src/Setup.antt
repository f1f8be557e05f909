-- ===== src/Setup.antt =====
-- sharelib/ConfigMng.cpp: what the parts of `init` share.
use octopusd.Prelude.{
  ℕ, zero, suc, ◌-◌, ◌*◌, ◌%◌, ◌+◌, Bool, true, false, ◌||◌, [], ◌∷◌, Option, none, some, ltb, leb,
  ◌==◌, if◌then◌else◌,
}
use octopusd.Prelude.Bytes.{Bytes}
use octopusd.Prelude.Int.{ℤ, pos, negsuc, atoi, as_int}
use octopusd.ConfigFile.{Sections, Loaded, loaded, bad_line, no_file, read_item}
pub mod Common
pub mod Ranges
pub mod Sites
pub mod Servers

-- The item, or the empty text.
unfoldable pub item_text : Sections → Bytes → Bytes → Bytes
unfolding read_item
item_text m sec name = (read_item sec name [] m).1

-- An item that must not be empty.
unfoldable pub non_empty_text : Bytes → Option Bytes
non_empty_text [] = none
non_empty_text (c ∷ s) = some (c ∷ s)

-- `atoi` of the item, in the 32 bits of an `int`.
unfoldable pub item_number : Sections → Bytes → Bytes → ℤ
unfolding item_text atoi as_int
item_number m sec name = as_int (atoi (item_text m sec name))

-- The tests of a number: it is not negative, it is at most so large, it is within two bounds.
unfoldable pub not_negative : ℤ → Option ℕ
not_negative (pos n) = some n
not_negative (negsuc n) = none

unfoldable pub at_most : ℕ → ℤ → Option ℕ
at_most k (pos n) = if leb n k then some n else none
at_most k (negsuc n) = none

unfoldable pub between : ℕ → ℕ → ℤ → Option ℕ
between lo hi (pos n) = if ltb n lo || ltb hi n then none else some n
between lo hi (negsuc n) = none

unfoldable pub positive : ℤ → Option ℕ
positive (pos n) = if n == 0 then none else some n
positive (negsuc n) = none

-- `atoi(tmpstr) * 1024` in 32 bits, and then not negative.
unfoldable pub low_word : ℤ → ℕ
low_word (pos n) = n % 4294967296
low_word (negsuc n) = 4294967295 - n % 4294967296

unfoldable pub kilobytes : ℤ → Option ℕ
unfolding low_word
kilobytes z = let w = (low_word z * 1024) % 4294967296 in if ltb w 2147483648 then some w else none

-- The file's table, where `CConfig::Init` answers 0.
unfoldable pub sections_of : Loaded → Option Sections
sections_of (loaded m) = some m
sections_of (bad_line n) = none
sections_of no_file = none
