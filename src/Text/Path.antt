-- ===== src/Text/Path.antt =====
-- sharelib/ComFun.cpp: `analysePathFile`, which puts a path below a directory. What the file system
-- answers is an argument.
use octopusd.Prelude.{
  ℕ, zero, suc, ◌+◌, ◌≤◌, ◌≡◌, ◌≢◌, refl, ap, ◌∙◌, Bool, true, false, ◌&&◌, ◌||◌, List, [], ◌∷◌,
  ◌++◌, arith, ◌==◌, if◌then◌else◌, append_assoc, length, All, either_way,
}
use octopusd.Prelude.Bytes.{Bytes}

-- Whether a path is a directory, and at each attempt whether the directory is there and whether
-- the command that makes it succeeds.
pub record PathEnv : Type 0 where
  pub is_directory : Bytes → Bool
  pub there : ℕ → Bytes → Bool
  pub made : ℕ → Bool

unfoldable pub starts_slash : Bytes → Bool
starts_slash [] = false
starts_slash (c ∷ s) = c == b'/'

unfoldable pub ends_slash : Bytes → Bool
ends_slash [] = false
ends_slash (c ∷ []) = c == b'/'
ends_slash (c ∷ d ∷ s) = ends_slash (d ∷ s)

unfoldable pub behind_first : Bytes → Bytes
behind_first [] = []
behind_first (c ∷ s) = s

unfoldable pub joined : Bytes → Bytes → Bytes
unfolding starts_slash ends_slash behind_first
joined a b =
    if starts_slash b && ends_slash a
    then a ++ behind_first b
    else if starts_slash b || ends_slash a
    then a ++ b
    else a ++ b'/' ∷ b

-- The path up to its last slash, and nothing where there is none.
unfoldable pub dir_of : Bytes → Bytes
dir_of [] = []
dir_of (c ∷ s) = elim (dir_of s) [ [] ↦ if c == b'/' then c ∷ [] else [] | d ∷ t ↦ c ∷ d ∷ t ]

-- The loop that makes the directory, with the attempts that are left: the commands that are run.
unfoldable pub make_dir : PathEnv → ℕ → ℕ → Bytes → List Bytes
make_dir env zero k dir = []
make_dir env (suc n) k dir =
    let rest = make_dir env n (k + 1) dir in
    if env.there k dir then [] else if env.made k then dir ∷ [] else dir ∷ rest

-- The path, which is empty where it is refused, and the directories that are made.
unfoldable pub analyse_joined : PathEnv → Bytes → ℕ → Bytes × List Bytes
unfolding make_dir dir_of
analyse_joined env path create_dir_flag =
    if env.is_directory path
    then ([], [])
    else if create_dir_flag == 0
    then (path, [])
    else (path, make_dir env 3 0 (dir_of path))

-- CComFun::analysePathFile.
unfoldable pub analyse_path_file : PathEnv → Bytes → Bytes → ℕ → Bytes × List Bytes
unfolding analyse_joined joined
analyse_path_file env [] b create_dir_flag = ([], [])
analyse_path_file env (c ∷ a) [] create_dir_flag = ([], [])
analyse_path_file env (c ∷ a) (d ∷ b) create_dir_flag =
    analyse_joined env (joined (c ∷ a) (d ∷ b)) create_dir_flag

-- An independent description: the directory without a slash at its end, a slash, and the path
-- without one in front.
abbrev pub without_end : Bytes → Bytes
without_end [] = []
without_end (c ∷ []) = if c == b'/' then [] else c ∷ []
without_end (c ∷ d ∷ s) = c ∷ without_end (d ∷ s)

abbrev pub without_front : Bytes → Bytes
without_front [] = []
without_front (c ∷ s) = if c == b'/' then s else c ∷ s

end_slash : (s : Bytes) → ends_slash s ≡ true → s ≡ without_end s ++ b'/' ∷ []
unfolding ends_slash
end_slash [] h = cc
end_slash (c ∷ []) h = ground arith
end_slash (c ∷ d ∷ s) h = ap (λ l. c ∷ l) (end_slash (d ∷ s) h)

no_end_slash : (s : Bytes) → ends_slash s ≡ false → s ≡ without_end s
unfolding ends_slash
no_end_slash [] h = refl
no_end_slash (c ∷ []) h = ground arith
no_end_slash (c ∷ d ∷ s) h = ap (λ l. c ∷ l) (no_end_slash (d ∷ s) h)

front_slash : (c : ℕ) (s : Bytes) → (c == b'/') ≡ true → c ∷ s ≡ b'/' ∷ s
front_slash c s h = ground arith

slash_of : (c : ℕ) (b : Bytes) (t : Bool) → starts_slash (c ∷ b) ≡ t → (c == b'/') ≡ t
unfolding starts_slash
slash_of c b t e = e

joined_lem :
    (a : Bytes) (c : ℕ) (b : Bytes) (front back : Bool)
    → starts_slash (c ∷ b) ≡ front
    → ends_slash a ≡ back
    → joined a (c ∷ b) ≡ without_end a ++ b'/' ∷ without_front (c ∷ b)
unfolding joined behind_first
joined_lem a c b true true f e =
    simp (f, e) (ap (λ l. l ++ b) (end_slash a e) ∙ append_assoc (without_end a) (b'/' ∷ []) b)
joined_lem a c b true false f e =
    simp (f, e)
      (ap (λ l. l ++ c ∷ b) (no_end_slash a e)
        ∙ ap (λ l. without_end a ++ l) (front_slash c b (slash_of c b true f)))
joined_lem a c b false true f e =
    simp (f, e)
      (ap (λ l. l ++ c ∷ b) (end_slash a e) ∙ append_assoc (without_end a) (b'/' ∷ []) (c ∷ b))
joined_lem a c b false false f e = simp (f, e) (ap (λ l. l ++ b'/' ∷ c ∷ b) (no_end_slash a e))

make_dir-AtMost :
    (env : PathEnv) (n k : ℕ) (dir : Bytes)
    → (length (make_dir env n k dir) ≤ n) × All (λ d. d ≡ dir) (make_dir env n k dir)
unfolding make_dir
make_dir-AtMost env zero k dir = (omega arith, tt)
make_dir-AtMost env (suc n) k dir =
    let Of = λ (l : List Bytes). (length l ≤ suc n) × All (λ d. d ≡ dir) l in
    let rest = make_dir-AtMost env n (k + 1) dir in
    either_way Of (env.there k dir) (omega arith, tt)
      (either_way Of (env.made k) (omega arith, (refl, tt)) (omega arith, (refl, rest.1)))

-- A path below a directory, neither of them empty, that is no directory itself is the directory
-- without a slash at its end, a slash, and the path without one in front, whether or not the
-- directory of the place can be made; that is tried at most three times, and nothing else is made.
pub analyse_path_file_lem :
    (env : PathEnv) (a b : Bytes) (create_dir_flag : ℕ)
    → a ≢ []
    → b ≢ []
    → let place = without_end a ++ b'/' ∷ without_front b in
      env.is_directory place ≡ false
      → ((analyse_path_file env a b create_dir_flag).0 ≡ place)
        × (length (analyse_path_file env a b create_dir_flag).1 ≤ 3)
        × All (λ d. d ≡ dir_of place) (analyse_path_file env a b create_dir_flag).1
unfolding analyse_path_file analyse_joined
analyse_path_file_lem env [] b create_dir_flag full_a full_b file = absurd (full_a refl)
analyse_path_file_lem env (c ∷ a) [] create_dir_flag full_a full_b file = absurd (full_b refl)
analyse_path_file_lem env (c ∷ a) (d ∷ b) create_dir_flag full_a full_b file =
    let place = without_end (c ∷ a) ++ b'/' ∷ without_front (d ∷ b) in
    let made = make_dir-AtMost env 3 0 (dir_of place) in
    rw (joined_lem (c ∷ a) d b (starts_slash (d ∷ b)) (ends_slash (c ∷ a)) refl refl, file)
      (either_way
        (λ (r : Bytes × List Bytes).
          (r.0 ≡ place) × (length r.1 ≤ 3) × All (λ d. d ≡ dir_of place) r.1)
        (create_dir_flag == 0) (refl, omega arith, tt) (refl, made.0, made.1))
