-- ===== src/Examples/Texts.antt =====
-- sharelib/ComFun.cpp: texts.
use octopusd.Prelude.{◌≡◌, ◌≤◌, refl, false, [], ◌∷◌, some, ◌==◌, length, All}
use octopusd.Prelude.Bytes.{codes}
use octopusd.Text.Flag.{divideup_str}
use octopusd.Text.Words.{get_sub_str_by_word}
use octopusd.Text.Path.{PathEnv, dir_of, analyse_path_file, analyse_path_file_lem}

divided : divideup_str (codes "a,,b,") b',' ≡ some (codes "a" ∷ codes "b" ∷ [])
unfolding divideup_str
divided = refl

-- The last byte is lost.
cut_short : get_sub_str_by_word (codes "abcde") 2 ≡ some (codes "ab" ∷ codes "cd" ∷ [])
unfolding get_sub_str_by_word
cut_short = refl

-- No directory is at the place, and the second attempt makes the one above it.
abbrev slow_disk : PathEnv
slow_disk = record { is_directory = λ s. false; there = λ k s. false; made = λ k. k == 1 }

analyse_path_file_lem_example :
    ((analyse_path_file slow_disk (codes "/www/") (codes "/img/a.gif") 1).0
      ≡ codes "/www/img/a.gif")
    × (length (analyse_path_file slow_disk (codes "/www/") (codes "/img/a.gif") 1).1 ≤ 3)
    × All
        (λ d. d ≡ dir_of (codes "/www/img/a.gif"))
        (analyse_path_file slow_disk (codes "/www/") (codes "/img/a.gif") 1).1
analyse_path_file_lem_example =
    analyse_path_file_lem slow_disk (codes "/www/") (codes "/img/a.gif") 1 (λ e. cc) (λ e. cc) refl
