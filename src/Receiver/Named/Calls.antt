-- ===== src/Receiver/Named/Calls.antt =====
-- sharelib/ProtocolMng.cpp: the calls on the queues by which `processRecv` takes in a file's name.
use octopusd.Prelude.{
  ℕ, ◌≡◌, ◌≢◌, ◌≤◌, ◌<◌, ◌⊎◌, inl, inr, refl, sym, ◌∙◌, true, false, not, ◌&&◌, ◌||◌, List, [], ◌∷◌,
  ◌++◌, none, some, arith, leb, ◌==◌, each_way, Bool-cases,
}
use octopusd.Prelude.Bytes.{Bytes}
use octopusd.Prelude.Int.{pos}
use octopusd.Prelude.Map.{find, bytes_key}
use octopusd.Config.{SiteInfo}
use octopusd.Queue.{QueueMng, protocol_pack_file}
use octopusd.Queue.Check.{Verdict, check}
use octopusd.Queue.Put.{add_server_info}
use octopusd.Queue.Run.{Call, checks, puts, run, run-append, step}
use octopusd.Sender.{ResponseCode, info_fail, cancel_duty, data_fail, msg_error, service_pause}
use octopusd.Text.FilePath.{
  FileType, file_error, file_dir, file_normal, file_targz, file_zip, get_file_type,
}
use octopusd.Text.Trim.{Trimmed, trim_string-Trimmed}
use octopusd.Wire.{c_string}
use octopusd.Receiver.{Arrival, arrived, peer_gone, not_arrived, FileUploadMsg}
use octopusd.Receiver.Upload.{Received, failing, duty_to_send, duty_received}
use octopusd.Receiver.Orders.{is_cancelled}
use octopusd.Receiver.Named.{
  NameEnv, is_fit, is_archive, pass_name, path_of, name_arrived, name_checked, receive_name,
  len_of_path_file_name,
}

-- The file that a name is for: the name up to its first zero byte, without the blanks at its ends.
abbrev pub PathOf : NameEnv → Bytes → Type 0
PathOf env path = Trimmed (c_string env.name) path

-- The name came: it is shorter than a path may be, and with protocol 1 the message was answered.
abbrev pub Came : NameEnv → ℕ → QueueMng → Type 0
Came env size q =
    (size < len_of_path_file_name)
    × ((q.config.com_cfg.protocol_type ≢ 1) ⊎ (env.answered ≡ true))
    × (env.arrival ≡ arrived)

-- The file is no directory, below the limit where there is one, and an archive where it was sent as
-- one.
abbrev pub Fits : NameEnv → ℕ → QueueMng → Bytes → Type 0
Fits env type q path =
    (env.is_directory path ≡ false)
    × ((q.config.com_cfg.max_limit_of_upload_file ≡ 0)
        ⊎ (env.file_size path < q.config.com_cfg.max_limit_of_upload_file))
    × ((type ≢ protocol_pack_file)
        ⊎ ((get_file_type env.stat path ≡ file_targz) ⊎ (get_file_type env.stat path ≡ file_zip)))

-- Why nothing is put.
pub data Stopped (env : NameEnv) (type size : ℕ) (v : Verdict) (q : QueueMng) : Type 0 where
  too_long : len_of_path_file_name ≤ size → Stopped env type size v q
  unanswered : q.config.com_cfg.protocol_type ≡ 1 → env.answered ≡ false → Stopped env type size v q
  lost : env.arrival ≢ arrived → Stopped env type size v q
  late : is_cancelled v ≡ true → Stopped env type size v q
  directory :
      (path : Bytes) → PathOf env path → env.is_directory path ≡ true → Stopped env type size v q
  too_large :
      (path : Bytes)
      → PathOf env path
      → q.config.com_cfg.max_limit_of_upload_file ≢ 0
      → q.config.com_cfg.max_limit_of_upload_file ≤ env.file_size path
      → Stopped env type size v q
  no_archive :
      (path : Bytes)
      → PathOf env path
      → type ≡ protocol_pack_file
      → get_file_type env.stat path ≢ file_targz
      → get_file_type env.stat path ≢ file_zip
      → Stopped env type size v q

-- The calls behind the check. Each case names its conditions, and no two hold at once.
pub data Rest (env : NameEnv) (me type : ℕ) (m : FileUploadMsg) (size : ℕ) (v : Verdict)
    (q : QueueMng) : List Call → Type 0 where
  ends : Stopped env type size v q → Rest env me type m size v q []
  passed_on :
      (path : Bytes)
      → PathOf env path
      → Came env size q
      → is_cancelled v ≡ false
      → Fits env type q path
      → Rest env me type m size v q (
          env.before_put
          ++ (puts env.io me (duty_to_send type m env.now path) add_server_info 0 ∷ []))

abbrev RestOf : NameEnv → ℕ → ℕ → FileUploadMsg → ℕ → Verdict → QueueMng → Received → Type 0
RestOf env me type m size v q r =
    (cs : List Call) × Rest env me type m size v q cs × (r.queue ≡ run cs q)

path_of-PathOf : (env : NameEnv) → PathOf env (path_of env)
unfolding path_of
path_of-PathOf env = trim_string-Trimmed (c_string env.name)

-- A file type is that of an archive, or neither.
is_archive-true : (t : FileType) → is_archive t ≡ true → (t ≡ file_targz) ⊎ (t ≡ file_zip)
unfolding is_archive
is_archive-true file_targz h = inl refl
is_archive-true file_zip h = inr refl
is_archive-true file_error h = cc
is_archive-true file_dir h = cc
is_archive-true file_normal h = cc

is_archive-false : (t : FileType) → is_archive t ≡ false → (t ≢ file_targz) × (t ≢ file_zip)
unfolding is_archive
is_archive-false t h = ((λ e. cc), (λ e. cc))

module _ (env : NameEnv) (me type : ℕ) (m : FileUploadMsg) (size : ℕ) (v : Verdict)
    (q : QueueMng) where
  is_fit-true :
      env.is_directory (path_of env) ≡ false
      → is_fit env type (path_of env) q ≡ true
      → Fits env type q (path_of env)
  unfolding is_fit
  is_fit-true file h =
      let max = q.config.com_cfg.max_limit_of_upload_file in
      (
        file,
        elim (Bool-cases (max == 0)) [ inl e ↦ inl (ground arith) | inr e ↦ inr (ground arith) ],
        elim (Bool-cases (type == protocol_pack_file)) [
          | inl e ↦ inr (is_archive-true (get_file_type env.stat (path_of env)) (ground arith))
          | inr e ↦ inl (ground arith)
        ],
      )

  is_fit-false : is_fit env type (path_of env) q ≡ false → Stopped env type size v q
  unfolding is_fit
  is_fit-false h =
      let max = q.config.com_cfg.max_limit_of_upload_file in
      let t = get_file_type env.stat (path_of env) in
      elim (Bool-cases (max == 0 || not (leb max (env.file_size (path_of env))))) [
        | inl e ↦
            let neither = is_archive-false t (ground arith) in
            no_archive (path_of env) (path_of-PathOf env) (ground arith) neither.0 neither.1
        | inr e ↦ too_large (path_of env) (path_of-PathOf env) (ground arith) (ground arith)
      ]

  failing-RestOf :
      (c : ResponseCode) → Stopped env type size v q → RestOf env me type m size v q (failing c q)
  unfolding failing run
  failing-RestOf c h = ([], ends h, refl)

  pass_name-RestOf :
      Came env size q
      → is_cancelled v ≡ false
      → RestOf env me type m size v q (pass_name env me type m (path_of env) v q)
  unfolding pass_name failing run step
  pass_name-RestOf came stands =
      let Of = RestOf env me type m size v q in
      let path = path_of-PathOf env in
      each_way Of (env.is_directory (path_of env))
        (λ e. ([], ends (directory (path_of env) path e), refl))
        (λ file.
          each_way Of (not (is_fit env type (path_of env) q))
            (λ e. ([], ends (is_fit-false (ground arith)), refl))
            (λ e. (
              _,
              passed_on (path_of env) path came stands (is_fit-true file (ground arith)),
              sym (run-append env.before_put _ q),
            )))

  name_arrived-RestOf :
      (a : Arrival)
      → env.arrival ≡ a
      → (a ≡ arrived → Came env size q)
      → RestOf env me type m size v q (name_arrived env me type m v q a)
  unfolding name_arrived
  name_arrived-RestOf arrived e came =
      each_way (RestOf env me type m size v q) (is_cancelled v)
        (λ h. failing-RestOf cancel_duty (late h)) (λ stands. pass_name-RestOf (came refl) stands)
  name_arrived-RestOf peer_gone e came = failing-RestOf cancel_duty (lost (λ h. cc))
  name_arrived-RestOf not_arrived e came = failing-RestOf data_fail (lost (λ h. cc))

  answered_cases :
      (q.config.com_cfg.protocol_type == 1 && not env.answered) ≡ false
      → (q.config.com_cfg.protocol_type ≢ 1) ⊎ (env.answered ≡ true)
  answered_cases e = elim (Bool-cases env.answered) [ inl h ↦ inr h | inr h ↦ inl (ground arith) ]

  name_checked-RestOf : RestOf env me type m size v q (name_checked env me type m size (v, q))
  unfolding name_checked
  name_checked-RestOf =
      let Of = RestOf env me type m size v q in
      each_way Of (leb len_of_path_file_name size)
        (λ e. failing-RestOf msg_error (too_long (ground arith)))
        (λ small.
          each_way Of (q.config.com_cfg.protocol_type == 1 && not env.answered)
            (λ e. failing-RestOf service_pause (unanswered (ground arith) (ground arith)))
            (λ e.
              name_arrived-RestOf env.arrival refl (λ a. ((ground arith), answered_cases e, a))))

-- What the receipt of a file's name is for the queues.
pub data NamedCalls (env : NameEnv) (me type : ℕ) (m : FileUploadMsg) (size : ℕ) (q : QueueMng)
    : List Call → Type 0 where
  no_site : find m.site_name q.config.map_site ≡ none → NamedCalls env me type m size q []
  checked_first :
      (site : SiteInfo) (cs : List Call)
      → find m.site_name q.config.map_site ≡ some site
      → Rest env me type m size
          (check me (duty_received type m) (run env.before_check q)).0
          (check me (duty_received type m) (run env.before_check q)).1
          cs
      → NamedCalls env me type m size q
          (env.before_check ++ (checks me (duty_received type m) ∷ cs))

abbrev CallsOf : NameEnv → ℕ → ℕ → FileUploadMsg → ℕ → QueueMng → Received → Type 0
CallsOf env me type m size q r =
    (cs : List Call) × NamedCalls env me type m size q cs × (r.queue ≡ run cs q)

checked-CallsOf :
    (env : NameEnv) (me type : ℕ) (m : FileUploadMsg) (size : ℕ) (q : QueueMng) (r : Received)
    (site : SiteInfo)
    → find m.site_name q.config.map_site ≡ some site
    → RestOf env me type m size
        (check me (duty_received type m) (run env.before_check q)).0
        (check me (duty_received type m) (run env.before_check q)).1
        r
    → CallsOf env me type m size q r
unfolding run step
checked-CallsOf env me type m size q r site found (cs, rest, e) = (
  _,
  checked_first site cs found rest,
  e ∙ sym (run-append env.before_check (checks me (duty_received type m) ∷ cs) q),
)

pub receive_name-NamedCalls :
    (env : NameEnv) (me type : ℕ) (m : FileUploadMsg) (size : ℕ) (q : QueueMng)
    → (cs : List Call) × NamedCalls env me type m size q cs
      × ((receive_name env me type m (pos size) q).queue ≡ run cs q)
unfolding receive_name failing run
receive_name-NamedCalls env me type m size q =
    let checked = check me (duty_received type m) (run env.before_check q) in
    let found = find m.site_name q.config.map_site in
    elim found
        as (λ o.
          found ≡ o
          → CallsOf env me type m size q (elim o as (λ _. Received) [
            | none ↦ failing info_fail q
            | some site ↦ name_checked env me type m size checked
          ])) [
            | none ↦ λ e. ([], no_site e, refl)
            | some site ↦ λ e.
                checked-CallsOf env me type m size q (name_checked env me type m size checked) site
                  e (name_checked-RestOf env me type m size checked.0 checked.1)
          ]
      refl
