-- ===== src/Setup/Ranges.antt =====
-- sharelib/ConfigMng.cpp: the numbers that `init` reads.
use octopusd.Prelude.{
  ℕ, ◌≡◌, ◌≢◌, ◌≤◌, ◌<◌, ◌⊎◌, ◌*◌, ◌%◌, refl, true, false, [], ◌∷◌, ◌++◌, Option, some, arith, leb,
  ◌==◌, length, either_way, Bool-cases, inl, inr,
}
use octopusd.Prelude.Bytes.{Bytes, codes}
use octopusd.Prelude.Int.{ℤ, pos, negsuc, atoi, as_int}
use octopusd.Prelude.Chain.{
  Ensures, bind-Ensures, skip-Ensures, some-Ensures, guard-Ensures, Ensures-of, Ensures-some,
}
use octopusd.Config.{ComCfg}
use octopusd.ConfigFile.{Sections}
use octopusd.Setup.{
  low_word, item_text, item_number, non_empty_text, at_most, between, positive, kilobytes,
}
use octopusd.Setup.Common.{
  common, server, read_login, read_files, read_queue, read_db, read_address, read_threads,
  read_common, zero_file_flag, alarm_limit, error_threads, is_all,
}

leb→le : (a b : ℕ) → leb a b ≡ true → a ≤ b
leb→le a b e = ground arith

==→≢ : {a b : ℕ} → (a == b) ≡ false → a ≢ b
==→≢ e = ground arith

pub non_empty_text_lem : (s t : Bytes) → non_empty_text s ≡ some t → t ≢ []
unfolding non_empty_text
non_empty_text_lem [] t h = cc
non_empty_text_lem (c ∷ s) t h = λ e. cc

at_most_lem : (k : ℕ) (z : ℤ) (n : ℕ) → at_most k z ≡ some n → n ≤ k
unfolding at_most
at_most_lem k (pos m) n h = ground arith
at_most_lem k (negsuc m) n h = cc

pub between_lem : (lo hi : ℕ) (z : ℤ) (n : ℕ) → between lo hi z ≡ some n → (lo ≤ n) × (n ≤ hi)
unfolding between
between_lem lo hi (pos m) n h = ground arith
between_lem lo hi (negsuc m) n h = cc

positive_lem : (z : ℤ) (n : ℕ) → positive z ≡ some n → 1 ≤ n
unfolding positive
positive_lem (pos m) n h = ground arith
positive_lem (negsuc m) n h = cc

kilobytes_lem : (z : ℤ) (n : ℕ) → kilobytes z ≡ some n → n < 2147483648
unfolding kilobytes
kilobytes_lem z n h = ground arith

zero_file_flag_lem : (s : Bytes) (n : ℕ) → zero_file_flag s ≡ some n → n ≤ 1
unfolding zero_file_flag
zero_file_flag_lem [] n h = ground arith
zero_file_flag_lem (c ∷ s) n h = at_most_lem 1 (as_int (atoi (c ∷ s))) n h

alarm_limit_lem : (z : ℤ) (n : ℕ) → alarm_limit z ≡ some n → 20 ≤ n
unfolding alarm_limit
alarm_limit_lem (pos m) n h = ground arith
alarm_limit_lem (negsuc m) n h = cc

error_threads_lem : (z : ℤ) (n : ℕ) → error_threads z ≡ some n → 1 ≤ n
unfolding error_threads
error_threads_lem (pos m) n h = ground arith
error_threads_lem (negsuc m) n h = cc

-- What holds behind each part.
abbrev LoginRead : ComCfg → Type 0
LoginRead c = c.login_ip ≢ []

abbrev FilesRead : ComCfg → Type 0
FilesRead c =
    LoginRead c
    × (c.log_mode ≤ 3)
    × (length c.file_mode_option ≤ 4)
    × (c.del_file_after_upload ≤ 1)
    × (c.if_upload_zero_file ≤ 1)
    × (c.max_limit_of_upload_file < 2147483648)

abbrev QueueRead : ComCfg → Type 0
QueueRead c =
    FilesRead c
    × (c.if_fail_log_flag ≤ 1)
    × (20 ≤ c.max_nr_of_duty_to_alarm)
    × (c.distribute_flag ≤ 2)

-- Where the sites come from the data base, its host and user are named.
abbrev DbRead : ComCfg → Type 0
DbRead c = QueueRead c × ((c.distribute_flag ≢ 1) ⊎ ((c.db_host ≢ []) × (c.db_user ≢ [])))

abbrev AddressRead : ComCfg → Type 0
AddressRead c = DbRead c × (c.server_ip ≢ [])

-- A configuration that the daemon can run with.
abbrev pub InRange : ComCfg → Type 0
InRange c =
    AddressRead c
    × (1000 ≤ c.server_port)
    × (c.server_port ≤ 65535)
    × (1 ≤ c.recv_nr_of_thread)
    × (1 ≤ c.send_nr_of_thread)
    × (1 ≤ c.send_error_nr_of_thread)

read_login-Ensures : (m : Sections) (c : ComCfg) → Ensures LoginRead (read_login m c)
unfolding read_login
read_login-Ensures m c =
    bind-Ensures LoginRead _ _ (Ensures-of _ (non_empty_text_lem _))
      (λ ip h. some-Ensures LoginRead h)

read_files-Ensures : (m : Sections) (c : ComCfg) → LoginRead c → Ensures FilesRead (read_files m c)
unfolding read_files
read_files-Ensures m c login =
    let number = item_number m common in
    let zero_file = item_text m common (codes "IfUploadZeroFile") in
    let option = item_text m common (codes "FileModeOption") in
    bind-Ensures FilesRead _ _ (Ensures-of _ (at_most_lem 3 (number (codes "LogMode")))) (λ log h1.
      bind-Ensures FilesRead _ _ (guard-Ensures _) (λ _ e.
        bind-Ensures FilesRead _ _
          (Ensures-of _ (at_most_lem 1 (number (codes "DelFileAfterUpload"))))
          (λ del h3.
            bind-Ensures FilesRead _ _ (Ensures-of _ (zero_file_flag_lem zero_file)) (λ zero h4.
              bind-Ensures FilesRead _ _
                (Ensures-of _ (kilobytes_lem (number (codes "MaxLimitOfUploadFile"))))
                (λ max h5.
                  some-Ensures FilesRead (login, h1, leb→le (length option) 4 e, h3, h4, h5))))))

read_queue-Ensures : (m : Sections) (c : ComCfg) → FilesRead c → Ensures QueueRead (read_queue m c)
unfolding read_queue
read_queue-Ensures m c files =
    let number = item_number m common in
    skip-Ensures QueueRead _ _ (λ protocol. skip-Ensures QueueRead _ _ (λ retry.
      bind-Ensures QueueRead _ _ (Ensures-of _ (at_most_lem 1 (number (codes "IfFailLogFlag"))))
        (λ log h1. skip-Ensures QueueRead _ _ (λ queue. skip-Ensures QueueRead _ _ (λ last.
          skip-Ensures QueueRead _ _ (λ time. skip-Ensures QueueRead _ _ (λ run.
            bind-Ensures QueueRead _ _
              (Ensures-of _ (alarm_limit_lem (number (codes "MaxNrOfDutyToAlarm"))))
              (λ alarm h2. skip-Ensures QueueRead _ _ (λ stat.
                bind-Ensures QueueRead _ _
                  (Ensures-of _ (at_most_lem 2 (number (codes "DistributeFlag"))))
                  (λ flag h3. some-Ensures QueueRead (files, h1, h2, h3)))))))))))

read_db-Ensures : (m : Sections) (c : ComCfg) → QueueRead c → Ensures DbRead (read_db m c)
unfolding read_db
read_db-Ensures m c queue = elim (Bool-cases (c.distribute_flag == 1)) [
  | inr e ↦ rw e (some-Ensures DbRead (queue, inl (==→≢ e)))
  | inl e ↦ rw e (
      bind-Ensures DbRead _ _
        (Ensures-of _ (non_empty_text_lem (item_text m common (codes "DBHost"))))
        (λ host h1. skip-Ensures DbRead _ _ (λ _.
          bind-Ensures DbRead _ _
            (Ensures-of _ (non_empty_text_lem (item_text m common (codes "DBUser"))))
            (λ user h2. some-Ensures DbRead (queue, inr (h1, h2))))))
]

append-non_empty : (a b : Bytes) → a ≢ [] → a ++ b ≢ []
append-non_empty [] b h = λ e. h refl
append-non_empty (c ∷ a) b h = λ e. cc

read_address-Ensures :
    (m : Sections) (c : ComCfg) → DbRead c → Ensures AddressRead (read_address m c)
unfolding read_address
read_address-Ensures m c db =
    let (((login, f1, f2, f3, f4, f5), q1, q2, q3), d) = db in
    bind-Ensures AddressRead _ _
      (Ensures-of _ (non_empty_text_lem (item_text m server (codes "ServerIP"))))
      (λ ip h1. skip-Ensures AddressRead _ _ (λ _. some-Ensures AddressRead (
        (
          (
            (
              either_way (λ s. s ≢ []) (is_all ip) login (append-non_empty c.login_ip ip login),
              f1,
              f2,
              f3,
              f4,
              f5,
            ),
            q1,
            q2,
            q3,
          ),
          d,
        ),
        h1,
      )))

read_threads-Ensures :
    (m : Sections) (c : ComCfg) → AddressRead c → Ensures InRange (read_threads m c)
unfolding read_threads
read_threads-Ensures m c address =
    let number = item_number m server in
    bind-Ensures InRange _ _ (Ensures-of _ (between_lem 1000 65535 (number (codes "ServerPort"))))
      (λ port h1.
        bind-Ensures InRange _ _ (Ensures-of _ (positive_lem (number (codes "RecvNrOfThread"))))
          (λ recv h2.
            bind-Ensures InRange _ _ (Ensures-of _ (positive_lem (number (codes "SendNrOfThread"))))
              (λ send h3.
                bind-Ensures InRange _ _
                  (Ensures-of _ (error_threads_lem (number (codes "SendErrorNrOfThread"))))
                  (λ err h4. skip-Ensures InRange _ _ (λ cnt. skip-Ensures InRange _ _ (λ msg.
                    skip-Ensures InRange _ _ (λ file.
                      skip-Ensures InRange _ _
                        (λ flow. some-Ensures InRange (address, h1.0, h1.1, h2, h3, h4)))))))))

-- A configuration that `init` accepts has its flags, its port, its limits and its numbers of
-- threads in range, of which none is 0, may be logged in to from somewhere, has an address of its own, and names the
-- host and the user of its data base where the sites come from it.
pub read_common-InRange :
    (file : Option Bytes) (c c' : ComCfg) → read_common file c ≡ some c' → InRange c'
unfolding read_common
read_common-InRange file c c' h =
    Ensures-some InRange (read_common file c) c'
      (skip-Ensures InRange _ _ (λ m. bind-Ensures InRange _ _ (read_login-Ensures m c) (λ c1 h1.
        bind-Ensures InRange _ _ (read_files-Ensures m c1 h1) (λ c2 h2.
          bind-Ensures InRange _ _ (read_queue-Ensures m c2 h2) (λ c3 h3.
            bind-Ensures InRange _ _ (read_db-Ensures m c3 h3) (λ c4 h4.
              bind-Ensures InRange _ _ (read_address-Ensures m c4 h4)
                (λ c5 h5. read_threads-Ensures m c5 h5)))))))
      h

-- A limit on uploaded files that is a multiple of 4194304 kilobytes is read as 0.
kilobytes_wraps : (k : ℕ) → kilobytes (pos (k * 4194304)) ≡ some 0
unfolding kilobytes low_word
kilobytes_wraps k =
    let e : ((k * 4194304) % 4294967296 * 1024) % 4294967296 ≡ 0 = omega arith in rw e refl
