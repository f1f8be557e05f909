-- ===== src/Sender/Rounds.antt =====
-- sharelib/ProtocolMng.cpp: the looks at its duty that `processSend` takes before the blocks of a
-- file.
use octopusd.Prelude.{
  ℕ, zero, suc, ◌+◌, ◌*◌, ◌-◌, ◌≤◌, ◌≡◌, refl, ◌∙◌, List, [], ◌∷◌, ◌++◌, some, arith, leb, ltb,
  ◌==◌, if◌then◌else◌, length, length-append, take, drop, Bool-cases, inl, inr, append_assoc,
}
use mathlib.Core.Path.{subst}
use octopusd.Prelude.Bytes.{Bytes}
use octopusd.Queue.{QueueMng}
use octopusd.Queue.Check.{judge_normal, sending_queue}
use octopusd.Queue.Run.{Call, judges, run, run-append, step}
use octopusd.Sender.{
  SendEnv, Sending, msg_buffer_size, write_to_file_size, send_block, send_chunk, send_file,
  block_answered,
}
use octopusd.Sender.Ends.{length-take-le, send_chunk_ends}

-- The calls around so many blocks, from a block on: before each, the thread looks at its duty.
unfoldable pub rounds : SendEnv → ℕ → ℕ → ℕ → List Call
rounds env me b zero = []
rounds env me b (suc n) =
    (env.blocks b).meanwhile ++ (judges me sending_queue ∷ rounds env me (b + 1) n)

-- How many of the looks in these calls find the duty in its normal state.
unfoldable pub passed : SendEnv → ℕ → ℕ → ℕ → QueueMng → ℕ
passed env me b zero q = 0
passed env me b (suc n) q =
    let judged = judge_normal me sending_queue (run (env.blocks b).meanwhile q) in
    let rest = passed env me (b + 1) n judged.1 in if judged.0 then rest + 1 else rest

rounds-append :
    (env : SendEnv) (me b n m : ℕ)
    → rounds env me b (n + m) ≡ rounds env me b n ++ rounds env me (b + n) m
unfolding rounds
rounds-append env me b zero m =
    let e : 0 + m ≡ m = omega arith in let f : b + 0 ≡ b = omega arith in rw (e, f) refl
rounds-append env me b (suc n) m =
    let e : suc n + m ≡ suc (n + m) = omega arith in
    let f : b + suc n ≡ (b + 1) + n = omega arith in
    rw
      (
        e,
        f,
        append_assoc (env.blocks b).meanwhile (judges me sending_queue ∷ rounds env me (b + 1) n)
            (rounds env me (b + 1 + n) m),
        rounds-append env me (b + 1) n m,
      )
      refl

passed-append :
    (env : SendEnv) (me b n m : ℕ) (q : QueueMng)
    → passed env me b (n + m) q
      ≡ passed env me b n q + passed env me (b + n) m (run (rounds env me b n) q)
unfolding passed rounds run
passed-append env me b zero m q =
    let e : 0 + m ≡ m = omega arith in let f : b + 0 ≡ b = omega arith in rw (e, f) (omega arith)
passed-append env me b (suc n) m q =
    let before = (env.blocks b).meanwhile in
    let judged = judge_normal me sending_queue (run before q) in
    let e : suc n + m ≡ suc (n + m) = omega arith in
    let f : b + suc n ≡ (b + 1) + n = omega arith in
    let ih = passed-append env me (b + 1) n m judged.1 in
    let split = run-append before (judges me sending_queue ∷ rounds env me (b + 1) n) q in
    rw (e, f, split) (unfold step in ground (arith, ih))

-- So many blocks have been dealt with, and no more bytes were sent than fit in the blocks whose
-- looks found the duty in its normal state.
abbrev pub Looked : SendEnv → ℕ → Sending → Sending → Type 0
Looked env me s s' =
    (n : ℕ) × (s'.queue ≡ run (rounds env me s.block_no n) s.queue)
    × (s'.block_no ≡ s.block_no + n)
    × (length s'.out ≤ length s.out + msg_buffer_size * passed env me s.block_no n s.queue)

Looked-trans :
    (env : SendEnv) (me : ℕ) (s t u : Sending)
    → Looked env me s t
    → Looked env me t u
    → Looked env me s u
Looked-trans env me s t u (n, q, b, l) (m, q', b', l') = (
  n + m,
  q'
      ∙ rw
          (
            b,
            q,
            rounds-append env me s.block_no n m,
            run-append (rounds env me s.block_no n) (rounds env me (s.block_no + n) m) s.queue,
          )
          refl,
  omega arith,
  (let sum = passed-append env me s.block_no n m s.queue in
      let l2 = rw (b, q) at l' in omega (arith, sum, l, l2)),
)

send_block-out :
    (env : SendEnv) (protocol me : ℕ) (block : Bytes) (s : Sending)
    → length block ≤ msg_buffer_size
    → length (send_block env protocol me block s).out
      ≤ length s.out + msg_buffer_size * passed env me s.block_no 1 s.queue
unfolding send_block block_answered passed
send_block-out env protocol me block s fits =
    let more = length-append {0} s.out block in ground (arith, more, fits)

send_block-Looked :
    (env : SendEnv) (protocol me : ℕ) (block : Bytes) (s : Sending)
    → length block ≤ msg_buffer_size
    → Looked env me s (send_block env protocol me block s)
unfolding send_block block_answered rounds run step
send_block-Looked env protocol me block s fits =
    let before = (env.blocks s.block_no).meanwhile in
    (
      1,
      rw (run-append before (judges me sending_queue ∷ []) s.queue) (ground arith),
      (ground arith),
      send_block-out env protocol me block s fits,
    )

same-Looked : (env : SendEnv) (me : ℕ) (s s' : Sending) → some s ≡ some s' → Looked env me s s'
unfolding rounds run passed
same-Looked env me s s' e =
    let same : s ≡ s' = cc in
    (0, cc, (ground arith), subst (λ t. length t.out ≤ length s.out + 0) same (omega arith))

send_chunk-Looked :
    (f : ℕ) (env : SendEnv) (protocol me : ℕ) (chunk : Bytes) (s s' : Sending)
    → send_chunk f env protocol me chunk s ≡ some s'
    → Looked env me s s'
unfolding send_chunk
send_chunk-Looked zero env protocol me [] s s' h = same-Looked env me s s' h
send_chunk-Looked (suc f) env protocol me [] s s' h = same-Looked env me s s' h
send_chunk-Looked zero env protocol me (c ∷ rest) s s' h = cc
send_chunk-Looked (suc f) env protocol me (c ∷ rest) s s' h =
    let t = send_block env protocol me (take msg_buffer_size (c ∷ rest)) s in
    let one =
      send_block-Looked env protocol me (take msg_buffer_size (c ∷ rest)) s
        (length-take-le msg_buffer_size (c ∷ rest)) in
    let ih = send_chunk-Looked f env protocol me (drop msg_buffer_size (c ∷ rest)) t s' in
    Looked-trans env me s t s' one (elim (Bool-cases (t.not_wait == 0)) [
      | inr e ↦ same-Looked env me t s' (rw (e, send_chunk) at h)
      | inl e ↦ ih (rw (e, send_chunk) at h)
    ])

pub send_file-Looked :
    (f : ℕ) (env : SendEnv) (protocol me left : ℕ) (text : Bytes) (s s' : Sending)
    → send_file f env protocol me left text s ≡ some s'
    → Looked env me s s'
unfolding send_file
send_file-Looked zero env protocol me zero text s s' h = same-Looked env me s s' h
send_file-Looked (suc f) env protocol me zero text s s' h = same-Looked env me s s' h
send_file-Looked zero env protocol me (suc left) text s s' h = cc
send_file-Looked (suc f) env protocol me (suc left) text s s' h =
    let n = if leb write_to_file_size (suc left) then write_to_file_size else suc left in
    let chunk = send_chunk_ends n env protocol me (take n text) s (length-take-le n text) in
    let t = chunk.0 in
    let one = send_chunk-Looked n env protocol me (take n text) s t chunk.1 in
    let ih = send_file-Looked f env protocol me (suc left - n) (drop n text) t s' in
    elim (Bool-cases (ltb (length text) n)) [
      | inl short ↦ same-Looked env me s s' (rw (short, send_file) at h)
      | inr there ↦ Looked-trans env me s t s' one (elim (Bool-cases (t.not_wait == 0)) [
        | inr e ↦ same-Looked env me t s' (rw (there, send_file, chunk.1, e) at h)
        | inl e ↦ ih (rw (there, send_file, chunk.1, e) at h)
      ])
    ]
