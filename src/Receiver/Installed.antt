-- ===== src/Receiver/Installed.antt =====
-- sharelib/ProtocolMng.cpp: what `processRecv` puts at the file's place.
use octopusd.Prelude.{
  ℕ, ◌≡◌, ◌≢◌, ◌≤◌, ◌⊎◌, refl, sym, inl, inr, true, false, ◌&&◌, not, [], ◌∷◌, ◌++◌, Option, some,
  arith, leb, ◌==◌, if◌then◌else◌, length, take, either_way, each_way, append-nil, Bool-cases,
}
use octopusd.Prelude.Bytes.{Bytes}
use octopusd.Queue.{QueueMng, SendDuty, protocol_pack_file}
use octopusd.Sender.{ResponseCode, data_fail, info_fail}
use octopusd.Receiver.{RecvEnv, FileUploadMsg, Receiving}
use octopusd.Receiver.Upload.{
  Received, failing, pass_on, finish, finish_option, duty_to_send, receive_file,
}
use octopusd.Receiver.Buffer.{recv_data_all}

abbrev Unanswered : RecvEnv → ℕ → Type 0
Unanswered env protocol = (protocol ≡ 1) × ((n : ℕ) × ((env.blocks n).answered ≡ false))

-- What is put at the file's place is a front of the data, and all of it if each response was sent.
abbrev InstallsOf : RecvEnv → ℕ → ℕ → Received → Type 0
InstallsOf env protocol size r =
    (content : Bytes)
    → r.installed ≡ some content
    → (k : ℕ) × (content ≡ take k env.incoming)
      × (k ≤ size)
      × ((k ≡ size) ⊎ Unanswered env protocol)

failing-InstallsOf :
    (env : RecvEnv) (protocol size : ℕ) (c : ResponseCode) (q : QueueMng)
    → InstallsOf env protocol size (failing c q)
unfolding failing
failing-InstallsOf env protocol size c q content e = cc

pass_on-installed :
    (env : RecvEnv) (me : ℕ) (d : SendDuty) (size : ℕ) (content : Bytes) (s : Receiving)
    → (pass_on env me d size content s).installed ≡ some content
unfolding pass_on
pass_on-installed env me d size content s =
    either_way (λ (r : Received). r.installed ≡ some content)
      (d.protocol_type == protocol_pack_file && not env.is_unpacked) refl refl

-- The rest of the buffer is written where it is not empty.
rest_written :
    (written buffer : Bytes) (e : (length buffer == 0) ≡ true) → written ≡ written ++ buffer
rest_written written [] e = sym (append-nil written)
rest_written written (b ∷ bs) e = absurd (ground arith)

-- What is written before the file is moved is all that is held.
content_held :
    (s : Receiving)
    → (s.recv_ret == 0) ≡ true
    → (if not (length s.buffer == 0) && s.recv_ret == 0 then s.written ++ s.buffer else s.written)
      ≡ s.written ++ s.buffer
content_held s z = elim (Bool-cases (length s.buffer == 0)) [
  | inl e ↦ rw (z, e) (rest_written s.written s.buffer e)
  | inr e ↦ rw (z, e) refl
]

abbrev FrontOf : RecvEnv → ℕ → ℕ → Receiving → Type 0
FrontOf env protocol size s =
    (k : ℕ) × (s.written ++ s.buffer ≡ take k env.incoming)
    × (k ≤ size)
    × ((k ≡ size) ⊎ (s.recv_ret ≢ 0) ⊎ Unanswered env protocol)

pass_on-InstallsOf :
    (env : RecvEnv) (protocol me : ℕ) (d : SendDuty) (size : ℕ) (content : Bytes) (s : Receiving)
    → (s.recv_ret == 0) ≡ true
    → content ≡ s.written ++ s.buffer
    → FrontOf env protocol size s
    → InstallsOf env protocol size (pass_on env me d size content s)
pass_on-InstallsOf env protocol me d size content s z held (k, got, le, done) content' e =
    let here = pass_on-installed env me d size content s in
    (
      k,
      cc,
      le,
      elim done [ inl l ↦ inl l | inr (inl w) ↦ absurd (w (ground arith)) | inr (inr w) ↦ inr w ],
    )

finish-InstallsOf :
    (env : RecvEnv) (protocol me : ℕ) (d : SendDuty) (size : ℕ) (s : Receiving)
    → FrontOf env protocol size s
    → InstallsOf env protocol size (finish env me d size s)
unfolding finish
finish-InstallsOf env protocol me d size s front =
    let Of = InstallsOf env protocol size in
    let no = λ (c : ResponseCode). failing-InstallsOf env protocol size c s.queue in
    let rest = not (length s.buffer == 0) && s.recv_ret == 0 in
    either_way Of (rest && not env.rest_written) (no data_fail) (
      each_way Of (not (s.recv_ret == 0)) (λ z. no s.response)
        (λ z.
          let z' : (s.recv_ret == 0) ≡ true = ground arith in
          either_way Of (not env.is_moved) (no data_fail)
            (pass_on-InstallsOf env protocol me d size _ s z' (content_held s z') front)))

abbrev pub start : ResponseCode → QueueMng → Receiving
start response q = record {
  queue = q;
  response = response;
  recv_ret = 0;
  write_log_flag = 0;
  buffer = [];
  written = [];
  block_no = 0;
}

module _ (env : RecvEnv) (me type : ℕ) (m : FileUploadMsg) (size : ℕ) (path : Bytes)
    (response : ResponseCode) (q : QueueMng) (enough : size ≤ length env.incoming) where
  -- The receipt of a file whose data is all there ends, and what it puts at the file's place is a
  -- front of the data, in order and without gaps; it is all of it, unless the protocol answers
  -- each block and the response for one was not sent.
  pub receive_file-installed :
      (r : Received) × (receive_file env me type m size path response q ≡ some r)
      × ((content : Bytes)
          → r.installed ≡ some content
          → (k : ℕ) × (content ≡ take k env.incoming)
            × (k ≤ size)
            × ((k ≡ size)
                ⊎ ((q.config.com_cfg.protocol_type ≡ 1)
                    × ((n : ℕ) × ((env.blocks n).answered ≡ false)))))
  unfolding receive_file finish_option
  receive_file-installed =
      let c = q.config.com_cfg in
      let max = c.max_limit_of_upload_file in
      let Of = λ (o : Option Received).
        (r : Received) × (o ≡ some r) × InstallsOf env c.protocol_type size r in
      let no = λ (c' : ResponseCode). failing-InstallsOf env c.protocol_type size c' q in
      either_way Of (not env.opened) (_, refl, no info_fail)
        (either_way Of (not (max == 0) && leb max size) (_, refl, no data_fail)
          (let all =
              recv_data_all env c.protocol_type me size env.incoming (start response q) enough
                (omega arith) in
            rw all.1 (
              _,
              refl,
              finish-InstallsOf env c.protocol_type me (duty_to_send type m env.now path) size all.0
                  (all.2.0, all.2.1, all.2.2, all.2.4),
            )))
