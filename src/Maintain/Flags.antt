-- ===== src/Maintain/Flags.antt =====
-- sharelib/Maintain.cpp: the flags behind `process`.
use octopusd.Prelude.{
  ◌≡◌, refl, ap, Bool, true, false, ◌||◌, [], ◌∷◌, none, some, arith, ◌==◌, if◌then◌else◌, All,
}
use octopusd.Prelude.Int.{ℤ, pos, int_eq}
use octopusd.Maintain.{
  MaintainFlag, flag_no, ShareMem, set_flag, get_flag, Daemon, Sources, serve_flag, Commands,
  commands, serve_flags, process, prints, refreshes_common, refreshes_sites, close_all_socket,
  clears_error_ip_port,
}

-- The flag that a command takes back: 0 where it was 1.
unfoldable pub taken_back : ℤ → ℤ
unfolding int_eq
taken_back z = if int_eq (pos 1) z then pos 0 else z

unfoldable pub is_listed : MaintainFlag → Commands → Bool
is_listed g [] = false
is_listed g ((f, command) ∷ l) = (flag_no g == flag_no f) || is_listed g l

taken_back_twice : (z : ℤ) → taken_back (taken_back z) ≡ taken_back z
unfolding taken_back
taken_back_twice z = ground arith

get_flag-set_flag :
    (g f : MaintainFlag) (m : ShareMem)
    → int_eq (pos 1) (get_flag f m) ≡ true
    → get_flag g (set_flag f (pos 0) m) ≡ (if flag_no g == flag_no f then pos 0 else get_flag g m)
unfolding get_flag set_flag
get_flag-set_flag g f none h = ground arith
get_flag-set_flag g f (some ints) h = refl

get_flag_same :
    (g f : MaintainFlag) (m : ShareMem) → flag_no g ≡ flag_no f → get_flag g m ≡ get_flag f m
unfolding get_flag
get_flag_same g f none e = refl
get_flag_same g f (some ints) e = ap ints e

serve_flag_lem :
    (g f : MaintainFlag) (command : Daemon → Daemon) (d : Daemon)
    → (command d).flags ≡ d.flags
    → get_flag g (serve_flag f command d).flags
      ≡ (if flag_no g == flag_no f then taken_back (get_flag g d.flags) else get_flag g d.flags)
unfolding serve_flag taken_back
serve_flag_lem g f command d keeps =
    ground (arith, keeps, get_flag-set_flag g f d.flags, get_flag_same g f d.flags)

-- A command leaves the flags alone.
abbrev Keeps : MaintainFlag × (Daemon → Daemon) → Type 0
Keeps c = (d : Daemon) → (c.1 d).flags ≡ d.flags

serve_flags_lem :
    (g : MaintainFlag) (l : Commands) (d : Daemon)
    → All Keeps l
    → get_flag g (serve_flags l d).flags
      ≡ (if is_listed g l then taken_back (get_flag g d.flags) else get_flag g d.flags)
unfolding serve_flags is_listed
serve_flags_lem g [] d h = refl
serve_flags_lem g ((f, command) ∷ l) d (keeps, h) =
    let once = serve_flag_lem g f command d (keeps d) in
    let rest = serve_flags_lem g l (serve_flag f command d) h in
    ground (arith, once, rest, taken_back_twice (get_flag g d.flags))

commands-Keeps : (s t : Sources) → All Keeps (commands s t)
unfolding commands prints refreshes_common refreshes_sites close_all_socket clears_error_ip_port
commands-Keeps s t = (
  λ d. refl,
  (
    λ d. refl,
    (
      λ d. refl,
      (λ d. refl, (λ d. refl, (λ d. refl, (λ d. refl, (λ d. refl, (λ d. refl, (λ d. refl, tt))))))),
    ),
  ),
)

-- Behind `process` each flag of one of its ten commands is 0 if it was 1, and every other flag has
-- the value that it had, whether or not the shared memory is attached.
process-flags :
    (g : MaintainFlag) (s t : Sources) (d : Daemon)
    → get_flag g (process s t d).flags
      ≡ (if is_listed g (commands s t) then taken_back (get_flag g d.flags) else get_flag g d.flags)
unfolding process
process-flags g s t d = serve_flags_lem g (commands s t) d (commands-Keeps s t)
