-- ===== src/Text/FilePath.antt =====
-- sharelib/ComFun.cpp: `divPathFile`, which cuts a path behind its last separator, and
-- `getFileType`, which tells archives by their names.
use octopusd.Prelude.{
  ℕ, ◌≡◌, ◌≢◌, refl, ap, ◌∙◌, Bool, true, false, [], ◌∷◌, ◌++◌, Option, none, some, arith, ◌==◌,
  if◌then◌else◌,
}
use octopusd.Prelude.Bytes.{Bytes, codes, bytes_eq}
use octopusd.Text.Flag.{get_flag_str, Lacks, get_flag_str-append}

abbrev pub in_front : ℕ → ℕ → Bytes → Option (Bytes × Bytes) → Option (Bytes × Bytes)
in_front c flag s none = if c == flag then some ([], s) else none
in_front c flag s (some (a, b)) = some (c ∷ a, b)

-- `find_last_of`: the text before the last separator and the text behind it.
unfoldable pub split_last : Bytes → ℕ → Option (Bytes × Bytes)
split_last [] flag = none
split_last (c ∷ s) flag = in_front c flag s (split_last s flag)

-- CComFun::divPathFile: the new path and file, where `old` are the ones that the caller passes.
unfoldable pub div_path_file : Bytes → Bytes × Bytes → Bytes × Bytes
unfolding split_last
div_path_file s old = elim (split_last s b'/') [ none ↦ old | some r ↦ r ]

-- Fun_FileType, of which `getFileType` gives these.
pub data FileType : Type 0 where
  file_error : FileType
  file_dir : FileType
  file_normal : FileType
  file_targz : FileType
  file_zip : FileType

unfoldable pub type_by_suffix : Option (Bytes × Bytes) → FileType
unfolding bytes_eq
type_by_suffix none = file_normal
type_by_suffix (some (_, suffix)) =
    if bytes_eq suffix (codes "tar.gz")
    then file_targz
    else if bytes_eq suffix (codes "zip")
    then file_zip
    else file_normal

-- What `isDirectory` answers: -1, 1 or else.
pub data Stat : Type 0 where
  missing : Stat
  directory : Stat
  plain : Stat

-- CComFun::getFileType, where the file system answers `stat`.
unfoldable pub get_file_type : (Bytes → Stat) → Bytes → FileType
unfolding type_by_suffix div_path_file get_flag_str
get_file_type stat [] = file_error
get_file_type stat (c ∷ s) = elim (stat (c ∷ s)) [
  | directory ↦ file_dir
  | missing ↦ file_error
  | plain ↦ type_by_suffix (get_flag_str (div_path_file (c ∷ s) ([], [])).1 b'.')
]

-- A path is cut behind its last separator, or has none.
abbrev pub CutLast : Bytes → ℕ → Option (Bytes × Bytes) → Type 0
CutLast s flag none = Lacks flag s
CutLast s flag (some (a, b)) = (s ≡ a ++ flag ∷ b) × Lacks flag b

in_front-CutLast :
    (c flag : ℕ) (s : Bytes) (r : Option (Bytes × Bytes))
    → CutLast s flag r
    → CutLast (c ∷ s) flag (in_front c flag s r)
in_front-CutLast c flag s none h = on (c == flag) refl
  where
    on : (b : Bool) → (c == flag) ≡ b → CutLast (c ∷ s) flag (if b then some ([], s) else none)
    on true e = (ap (λ d. d ∷ s) (ground arith), h)
    on false e = (ground arith, h)
in_front-CutLast c flag s (some (a, b)) h = (ap (◌∷◌ c) h.0, h.1)

-- The cut spells the path, and its second part has no separator; or the path has none.
pub split_last-CutLast : (s : Bytes) (flag : ℕ) → CutLast s flag (split_last s flag)
unfolding split_last
split_last-CutLast [] flag = tt
split_last-CutLast (c ∷ s) flag =
    in_front-CutLast c flag s (split_last s flag) (split_last-CutLast s flag)

split_last-Lacks : (s : Bytes) (flag : ℕ) → Lacks flag s → split_last s flag ≡ none
unfolding split_last
split_last-Lacks [] flag h = refl
split_last-Lacks (c ∷ s) flag h = rw (split_last-Lacks s flag h.1) (ground arith)

split_last-append :
    (a b : Bytes) (flag : ℕ) → Lacks flag b → split_last (a ++ flag ∷ b) flag ≡ some (a, b)
unfolding split_last
split_last-append [] b flag h = rw (split_last-Lacks b flag h) (ground arith)
split_last-append (c ∷ a) b flag h = rw (split_last-append a b flag h) refl

-- A path that is put together from a directory, a separator and a file name without separators
-- is cut into the directory and the name.
pub div_path_file-append :
    (a b : Bytes) (old : Bytes × Bytes) → Lacks b'/' b → div_path_file (a ++ b'/' ∷ b) old ≡ (a, b)
unfolding div_path_file
div_path_file-append a b old h = rw (split_last-append a b b'/' h, div_path_file) refl

div_path_file-Lacks : (s : Bytes) (old : Bytes × Bytes) → Lacks b'/' s → div_path_file s old ≡ old
unfolding div_path_file
div_path_file-Lacks s old k = rw (split_last-Lacks s b'/' k, div_path_file) refl

type_of_path :
    (stat : Bytes → Stat) (a b : Bytes)
    → stat (a ++ b'/' ∷ b) ≡ plain
    → Lacks b'/' b
    → get_file_type stat (a ++ b'/' ∷ b) ≡ type_by_suffix (get_flag_str b b'.')
unfolding get_file_type
type_of_path stat [] b h k =
    rw (h, get_file_type)
      (ap (λ r. type_by_suffix (get_flag_str r.1 b'.')) (div_path_file-append [] b ([], []) k))
type_of_path stat (c ∷ a) b h k =
    rw (h, get_file_type)
      (ap (λ r. type_by_suffix (get_flag_str r.1 b'.')) (div_path_file-append (c ∷ a) b ([], []) k))

-- A plain file below some directory, whose name has no separator, has the type of what stands
-- behind the first dot of its name.
pub get_file_type-suffix :
    (stat : Bytes → Stat) (a stem suffix : Bytes)
    → stat (a ++ b'/' ∷ (stem ++ b'.' ∷ suffix)) ≡ plain
    → Lacks b'/' (stem ++ b'.' ∷ suffix)
    → Lacks b'.' stem
    → get_file_type stat (a ++ b'/' ∷ (stem ++ b'.' ∷ suffix))
      ≡ type_by_suffix (some (stem, suffix))
get_file_type-suffix stat a stem suffix h k l =
    type_of_path stat a (stem ++ b'.' ∷ suffix) h k
    ∙ ap type_by_suffix (get_flag_str-append stem suffix b'.' l)

type_of_name :
    (stat : Bytes → Stat) (c : ℕ) (s : Bytes)
    → stat (c ∷ s) ≡ plain
    → Lacks b'/' (c ∷ s)
    → get_file_type stat (c ∷ s) ≡ file_normal
unfolding get_file_type
type_of_name stat c s h k =
    rw (h, get_file_type)
      (ap (λ r. type_by_suffix (get_flag_str r.1 b'.')) (div_path_file-Lacks (c ∷ s) ([], []) k)
        ∙ unfold get_flag_str type_by_suffix in refl)

-- A plain file that is named without a separator, by a name that is not empty, is never taken
-- for an archive.
pub get_file_type_bare :
    (stat : Bytes → Stat) (s : Bytes)
    → s ≢ []
    → stat s ≡ plain
    → Lacks b'/' s
    → get_file_type stat s ≡ file_normal
get_file_type_bare stat [] n h k = elim (n refl) [ ]
get_file_type_bare stat (c ∷ s) n h k = type_of_name stat c s h k
