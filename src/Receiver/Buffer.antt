-- ===== src/Receiver/Buffer.antt =====
-- sharelib/ProtocolMng.cpp: the write buffer of `processRecv`, and what is put at the file's place.
use mathlib.Core.Path.{subst}
use octopusd.Prelude.{
  ℕ, zero, suc, ◌+◌, ◌-◌, ◌≡◌, ◌≢◌, ◌≤◌, ◌⊎◌, refl, ap, sym, ◌∙◌, inl, inr, Bool, true, false, ◌&&◌,
  not, List, ◌++◌, Option, some, arith, ltb, leb, ◌==◌, if◌then◌else◌, length, take, drop,
  length-append, append_assoc, append-nil, Bool-cases,
}
use octopusd.Prelude.Bytes.{Bytes}
use octopusd.Queue.Run.{Call}
use octopusd.Sender.{data_fail, msg_buffer_size, write_to_file_size}
use octopusd.Sender.Content.{append-take-drop, length-drop, length-take}
use octopusd.Receiver.Ends.{recv_data_ends}
use octopusd.Receiver.{
  Arrival, arrived, peer_gone, not_arrived, InBlock, RecvEnv, Receiving, Round, goes, stops, look,
  store, take_in, recv_block, recv_data,
}

-- What has come of the data so far.
abbrev pub held : Receiving → Bytes
held s = s.written ++ s.buffer

-- A round that goes on has taken the block in, and its buffer fits; one that ends the loop holds
-- what it held, and has marked a failure or could not answer.
abbrev RoundOf : InBlock → ℕ → Bytes → Receiving → Round → Type 0
RoundOf b protocol block s (goes s') =
    (held s' ≡ held s ++ block) × (length s'.buffer ≤ write_to_file_size)
RoundOf b protocol block s (stops s') =
    (held s' ≡ held s)
    × (length s'.buffer ≤ write_to_file_size)
    × ((s'.recv_ret ≢ 0) ⊎ ((protocol ≡ 1) × (b.answered ≡ false)))

module _ (b : InBlock) (protocol : ℕ) (block : Bytes) (s : Receiving)
    (small : length block ≤ write_to_file_size) (fits : length s.buffer ≤ write_to_file_size) where
  store_full :
      (flushed : Bool)
      → RoundOf b protocol block s (
          if not flushed
          then stops (record s { response = data_fail; recv_ret = 3 })
          else goes (record s { written = s.written ++ s.buffer; buffer = block }))
  store_full false = (refl, fits, inl (omega arith))
  store_full true = (refl, small)

  store-RoundOf : (flushed : Bool) → RoundOf b protocol block s (store flushed block s)
  unfolding store
  store-RoundOf flushed =
      elim (Bool-cases (ltb write_to_file_size (length s.buffer + length block))) [
        | inl full ↦ rw full (store_full flushed)
        | inr room ↦ rw room (
          sym (append_assoc s.written s.buffer block),
          rw (length-append s.buffer block) (ground (arith, room)),
        )
      ]

  take_in-RoundOf : (a : Arrival) → RoundOf b protocol block s (take_in b a block s)
  unfolding take_in
  take_in-RoundOf arrived = store-RoundOf b.flushed
  take_in-RoundOf peer_gone = (refl, fits, inl (omega arith))
  take_in-RoundOf not_arrived = (refl, fits, inl (omega arith))

look-held :
    (me : ℕ) (cs : List Call) (s : Receiving)
    → (held (look me cs s) ≡ held s) × ((look me cs s).buffer ≡ s.buffer)
unfolding look
look-held me cs s = ground arith

RoundOf-from :
    (b : InBlock) (protocol : ℕ) (block : Bytes) (s t : Receiving) (r : Round)
    → held t ≡ held s
    → RoundOf b protocol block t r
    → RoundOf b protocol block s r
RoundOf-from b protocol block s t (goes s') e (h, fits) = (h ∙ ap (λ xs. xs ++ block) e, fits)
RoundOf-from b protocol block s t (stops s') e (h, fits, why) = (h ∙ e, fits, why)

unanswered :
    (protocol : ℕ) (a : Bool) → ((protocol == 1) && not a) ≡ true → (protocol ≡ 1) × (a ≡ false)
unanswered protocol a e = ground arith

recv_block-RoundOf :
    (b : InBlock) (protocol me : ℕ) (block : Bytes) (s : Receiving)
    → length block ≤ write_to_file_size
    → length s.buffer ≤ write_to_file_size
    → RoundOf b protocol block s (recv_block b protocol me block s)
unfolding recv_block
recv_block-RoundOf b protocol me block s small fits =
    let next = look me b.meanwhile s in
    let kept = look-held me b.meanwhile s in
    let fits' : length next.buffer ≤ write_to_file_size = rw kept.1 fits in
    RoundOf-from b protocol block s next (recv_block b protocol me block s) kept.0
      (elim (Bool-cases (protocol == 1 && not b.answered)) [
        | inl e ↦ rw e (refl, fits', inr (unanswered protocol b.answered e))
        | inr e ↦ rw e (take_in-RoundOf b protocol block next small fits' b.arrival)
      ])

-- What the loop leaves of the data it is given: a front of it, all that is to come unless a
-- failure is marked or a response for a block was not sent, and a buffer in its bounds.
abbrev RecvOf : RecvEnv → ℕ → ℕ → Bytes → Receiving → Receiving → Type 0
RecvOf env protocol left incoming s s' =
    (k : ℕ) × (held s' ≡ held s ++ take k incoming)
    × (k ≤ left)
    × (length s'.buffer ≤ write_to_file_size)
    × ((k ≡ left)
        ⊎ (s'.recv_ret ≢ 0)
        ⊎ ((protocol ≡ 1) × ((n : ℕ) × ((env.blocks n).answered ≡ false))))

RecvOf-next :
    (env : RecvEnv) (protocol left n : ℕ) (incoming : Bytes) (s t s' : Receiving)
    → n ≤ left
    → held t ≡ held s ++ take n incoming
    → RecvOf env protocol (left - n) (drop n incoming) t s'
    → RecvOf env protocol left incoming s s'
RecvOf-next env protocol left n incoming s t s' small e (k, got, le, fits, done) = (
  n + k,
  (got
      ∙ rw
          (
            e,
            append_assoc (held s) (take n incoming) (take k (drop n incoming)),
            append-take-drop n k incoming,
          )
          refl),
  omega arith,
  fits,
  elim done [ inl l ↦ inl (omega arith) | inr w ↦ inr w ],
)

RecvOf-none :
    (env : RecvEnv) (protocol : ℕ) (incoming : Bytes) (s : Receiving)
    → length s.buffer ≤ write_to_file_size
    → RecvOf env protocol 0 incoming s s
RecvOf-none env protocol incoming s fits =
    (0, sym (append-nil (held s)), omega arith, fits, inl refl)

RecvOf-stopped :
    (env : RecvEnv) (protocol left : ℕ) (incoming block : Bytes) (s s' : Receiving)
    → RoundOf (env.blocks s.block_no) protocol block s (stops s')
    → RecvOf env protocol left incoming s s'
RecvOf-stopped env protocol left incoming block s s' (h, fits, why) = (
  0,
  h ∙ sym (append-nil (held s)),
  omega arith,
  fits,
  elim why [ inl w ↦ inr (inl w) | inr w ↦ inr (inr (w.0, (s.block_no, w.1))) ],
)

pub recv_data-RecvOf :
    (f : ℕ) (env : RecvEnv) (protocol me left : ℕ) (incoming : Bytes) (s s' : Receiving)
    → left ≤ length incoming
    → length s.buffer ≤ write_to_file_size
    → recv_data f env protocol me left incoming s ≡ some s'
    → RecvOf env protocol left incoming s s'
unfolding recv_data
recv_data-RecvOf zero env protocol me zero incoming s s' enough fits h =
    let e : s ≡ s' = cc in
    subst (RecvOf env protocol 0 incoming s) e (RecvOf-none env protocol incoming s fits)
recv_data-RecvOf (suc f) env protocol me zero incoming s s' enough fits h =
    let e : s ≡ s' = cc in
    subst (RecvOf env protocol 0 incoming s) e (RecvOf-none env protocol incoming s fits)
recv_data-RecvOf zero env protocol me (suc left) incoming s s' enough fits h = cc
recv_data-RecvOf (suc f) env protocol me (suc left) incoming s s' enough fits h =
    let n = if leb msg_buffer_size (suc left) then msg_buffer_size else suc left in
    let small : n ≤ suc left = ground arith in
    let small' : n ≤ write_to_file_size = ground arith in
    let block = take n incoming in
    let Of = RecvOf env protocol (suc left) incoming in
    let one =
      recv_block-RoundOf (env.blocks s.block_no) protocol me block s
        (omega (arith, length-take n incoming (omega arith))) fits in
    elim (recv_block (env.blocks s.block_no) protocol me block s)
        as (λ r.
          RoundOf (env.blocks s.block_no) protocol block s r
          → (elim r as (λ _. Option Receiving) [
            | stops t ↦ some t
            | goes t ↦ recv_data f env protocol me (suc left - n) (drop n incoming) t
          ])
            ≡ some s'
          → Of s s') [
            | stops t ↦ λ was e.
                let same : t ≡ s' = cc in
                subst (Of s) same (RecvOf-stopped env protocol (suc left) incoming block s t was)
            | goes t ↦ λ was e. RecvOf-next env protocol (suc left) n incoming s t s' small was.0 (
                recv_data-RecvOf f env protocol me (suc left - n) (drop n incoming) t s'
                  (omega (arith, length-drop n incoming)) was.1 e)
          ]
      one h

-- For a message with at least the bytes that are to come, the loop of the receipt ends; what is in
-- the temporary file and the buffer has grown by a front of the bytes that are to come, in order
-- and without gaps; the buffer stays in its bounds; and the front is all of those bytes unless a
-- failure is marked, or the protocol answers each block and a response was not sent.
pub recv_data_all :
    (env : RecvEnv) (protocol me left : ℕ) (incoming : Bytes) (s : Receiving)
    → left ≤ length incoming
    → length s.buffer ≤ write_to_file_size
    → (s' : Receiving) × (recv_data left env protocol me left incoming s ≡ some s')
      × ((k : ℕ) × (s'.written ++ s'.buffer ≡ (s.written ++ s.buffer) ++ take k incoming)
          × (k ≤ left)
          × (length s'.buffer ≤ write_to_file_size)
          × ((k ≡ left)
              ⊎ (s'.recv_ret ≢ 0)
              ⊎ ((protocol ≡ 1) × ((n : ℕ) × ((env.blocks n).answered ≡ false)))))
recv_data_all env protocol me left incoming s enough fits =
    let ends = recv_data_ends left env protocol me left incoming s (omega arith) in
    (
      ends.0,
      ends.1,
      recv_data-RecvOf left env protocol me left incoming s ends.0 enough fits ends.1,
    )
