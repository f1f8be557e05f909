-- ===== src/Sender/Content.antt =====
-- sharelib/ProtocolMng.cpp: what the loops of `processSend` send of a file.
use octopusd.Prelude.{
  ℕ, zero, suc, ◌+◌, ◌-◌, ◌≡◌, ◌≢◌, ◌≤◌, ◌⊎◌, refl, ap, sym, ◌∙◌, true, false, [], ◌∷◌, ◌++◌, some,
  arith, leb, ltb, ◌==◌, if◌then◌else◌, length, take, drop, Bool-cases, inl, inr, append_assoc,
  append-nil,
}
use octopusd.Prelude.Bytes.{Bytes}
use octopusd.Sender.{
  SendEnv, Sending, msg_buffer_size, write_to_file_size, send_block, send_chunk, send_file,
  block_answered,
}
use octopusd.Sender.Ends.{length-take-le, send_chunk_ends, send_file_ends}

take-nil : (k : ℕ) → take {A = ℕ} k [] ≡ []
take-nil zero = refl
take-nil (suc k) = refl

pub append-take-drop : (a k : ℕ) (xs : Bytes) → take a xs ++ take k (drop a xs) ≡ take (a + k) xs
append-take-drop zero k xs = let e : 0 + k ≡ k = omega arith in rw e refl
append-take-drop (suc a) k [] = let e : suc a + k ≡ suc (a + k) = omega arith in rw e (take-nil k)
append-take-drop (suc a) k (x ∷ xs) =
    let e : suc a + k ≡ suc (a + k) = omega arith in rw e (ap (◌∷◌ x) (append-take-drop a k xs))

-- A front of a front is a front.
take-take : (k r : ℕ) (xs : Bytes) → (j : ℕ) × (take k (take r xs) ≡ take j xs) × (j ≤ r)
take-take zero r xs = (0, refl, omega arith)
take-take (suc k) zero xs = (0, refl, omega arith)
take-take (suc k) (suc r) [] = (0, refl, omega arith)
take-take (suc k) (suc r) (x ∷ xs) =
    let ih = take-take k r xs in (suc ih.0, ap (◌∷◌ x) ih.1, omega (arith, ih.2))

take_all : (k : ℕ) (xs : Bytes) → length xs ≤ k → take k xs ≡ xs
take_all zero [] h = refl
take_all (suc k) [] h = refl
take_all zero (x ∷ xs) h = absurd (omega arith)
take_all (suc k) (x ∷ xs) h = ap (◌∷◌ x) (take_all k xs (omega arith))

pub length-take : (n : ℕ) (xs : Bytes) → n ≤ length xs → length (take n xs) ≡ n
length-take zero xs h = refl
length-take (suc n) [] h = absurd (omega arith)
length-take (suc n) (x ∷ xs) h = omega (arith, length-take n xs)

pub length-drop : (n : ℕ) (xs : Bytes) → length (drop n xs) ≡ length xs - n
length-drop zero xs = omega arith
length-drop (suc n) [] = omega arith
length-drop (suc n) (x ∷ xs) = omega (arith, length-drop n xs)

-- A block is sent whole, or not at all, and then the loop ends.
send_block-out :
    (env : SendEnv) (protocol me : ℕ) (block : Bytes) (s : Sending)
    → ((send_block env protocol me block s).out ≡ s.out ++ block)
      ⊎ (((send_block env protocol me block s).out ≡ s.out)
          × ((send_block env protocol me block s).not_wait ≢ 0))
unfolding send_block block_answered
send_block-out env protocol me block s = ground arith

-- What is sent of a text: a front of it, and all of it where nothing ended the loop.
abbrev SentOf : Bytes → Sending → Sending → Type 0
SentOf text s s' =
    (k : ℕ) × (s'.out ≡ s.out ++ take k text) × ((s'.not_wait ≢ 0) ⊎ (length text ≤ k))

-- What sending a front makes of the text sent so far.
abbrev FrontOf : ℕ → Bytes → Sending → Sending → Type 0
FrontOf n text s s' = (s'.out ≡ s.out ++ take n text) ⊎ ((s'.out ≡ s.out) × (s'.not_wait ≢ 0))

ended : (s t : Sending) → s ≡ t → t.not_wait ≢ 0 → s.not_wait ≢ 0
ended s t e h z = h (ap (λ (x : Sending). x.not_wait) (sym e) ∙ z)

SentOf-ended :
    (text : Bytes) (n : ℕ) (s t s' : Sending)
    → some t ≡ some s'
    → t.not_wait ≢ 0
    → FrontOf n text s t
    → SentOf text s s'
SentOf-ended text n s t s' e h (inl p) = (n, cc, inl (ended s' t (cc) h))
SentOf-ended text n s t s' e h (inr p) = (0, rw (append-nil s.out) cc, inl (ended s' t (cc) h))

SentOf-next :
    (text : Bytes) (n : ℕ) (s t s' : Sending)
    → t.not_wait ≡ 0
    → FrontOf n text s t
    → SentOf (drop n text) t s'
    → SentOf text s s'
SentOf-next text n s t s' e (inr p) rest = absurd (p.1 e)
SentOf-next text n s t s' e (inl p) (k, out, done) = (
  n + k,
  (out
      ∙ rw (p, append_assoc s.out (take n text) (take k (drop n text)), append-take-drop n k text)
          refl),
  elim done [ inl w ↦ inl w | inr l ↦ inr (omega (arith, length-drop n text)) ],
)

is_zero : (n : ℕ) → (n == 0) ≡ true → n ≡ 0
is_zero n e = ground arith

not_zero : (n : ℕ) → (n == 0) ≡ false → n ≢ 0
not_zero n e = ground arith

send_chunk-SentOf :
    (f : ℕ) (env : SendEnv) (protocol me : ℕ) (chunk : Bytes) (s s' : Sending)
    → send_chunk f env protocol me chunk s ≡ some s'
    → SentOf chunk s s'
unfolding send_chunk
send_chunk-SentOf f env protocol me [] s s' h = (0, rw (append-nil s.out) cc, inr (omega arith))
send_chunk-SentOf zero env protocol me (c ∷ rest) s s' h = cc
send_chunk-SentOf (suc f) env protocol me (c ∷ rest) s s' h =
    let chunk = c ∷ rest in
    let t = send_block env protocol me (take msg_buffer_size chunk) s in
    let ih = send_chunk-SentOf f env protocol me (drop msg_buffer_size chunk) t in
    elim (Bool-cases (t.not_wait == 0)) [
      | inr e ↦
          SentOf-ended chunk msg_buffer_size s t s' (rw (e, send_chunk) at h)
            (not_zero t.not_wait e) (send_block-out env protocol me (take msg_buffer_size chunk) s)
      | inl e ↦
          SentOf-next chunk msg_buffer_size s t s' (is_zero t.not_wait e)
            (send_block-out env protocol me (take msg_buffer_size chunk) s)
            (ih s' (rw (e, send_chunk) at h))
    ]

-- What is sent of a file of which so much is left: a front of it, and all of it where nothing
-- ended the loop.
abbrev SentFile : ℕ → Bytes → Sending → Sending → Type 0
SentFile left text s s' =
    (k : ℕ) × (s'.out ≡ s.out ++ take k text) × (k ≤ left) × ((s'.not_wait ≢ 0) ⊎ (k ≡ left))

SentFile-ended :
    (n left : ℕ) (text : Bytes) (s t s' : Sending)
    → n ≤ left
    → some t ≡ some s'
    → t.not_wait ≢ 0
    → SentOf (take n text) s t
    → SentFile left text s s'
SentFile-ended n left text s t s' small e h (k, out, done) =
    let front = take-take k n text in
    (front.0, rw (sym front.1) (cc), omega (arith, front.2), inl (ended s' t (cc) h))

SentFile-next :
    (n left : ℕ) (text : Bytes) (s t s' : Sending)
    → n ≤ left
    → n ≤ length text
    → t.not_wait ≡ 0
    → SentOf (take n text) s t
    → SentFile (left - n) (drop n text) t s'
    → SentFile left text s s'
SentFile-next n left text s t s' small enough e (k, out, inl w) rest = absurd (w e)
SentFile-next n left text s t s' small enough e (k, out, inr all) (k', out', le, done) =
    let whole = take_all k (take n text) all in
    (
      n + k',
      (out'
          ∙ rw
              (
                out,
                whole,
                append_assoc s.out (take n text) (take k' (drop n text)),
                append-take-drop n k' text,
              )
              refl),
      omega arith,
      elim done [ inl w ↦ inl w | inr l ↦ inr (omega arith) ],
    )

pub send_file-SentFile :
    (f : ℕ) (env : SendEnv) (protocol me left : ℕ) (text : Bytes) (s s' : Sending)
    → left ≤ length text
    → send_file f env protocol me left text s ≡ some s'
    → SentFile left text s s'
unfolding send_file
send_file-SentFile f env protocol me zero text s s' enough h =
    (0, rw (append-nil s.out) (cc), omega arith, inr refl)
send_file-SentFile zero env protocol me (suc left) text s s' enough h = cc
send_file-SentFile (suc f) env protocol me (suc left) text s s' enough h =
    let n = if leb write_to_file_size (suc left) then write_to_file_size else suc left in
    let small : n ≤ suc left = ground arith in
    let there : ltb (length text) n ≡ false = ground arith in
    let there' : n ≤ length text = ground arith in
    let chunk = send_chunk_ends n env protocol me (take n text) s (length-take-le n text) in
    let t = chunk.0 in
    let sent = send_chunk-SentOf n env protocol me (take n text) s t chunk.1 in
    elim (Bool-cases (t.not_wait == 0)) [
      | inr e ↦
          SentFile-ended n (suc left) text s t s' small (rw (there, send_file, chunk.1, e) at h)
            (not_zero t.not_wait e) sent
      | inl e ↦ SentFile-next n (suc left) text s t s' small there' (is_zero t.not_wait e) sent (
          send_file-SentFile f env protocol me (suc left - n) (drop n text) t s'
            (omega (arith, length-drop n text)) (rw (there, send_file, chunk.1, e) at h))
    ]

-- For a file that holds at least the bytes that are to be sent of it, the loops of a turn end, and
-- the bytes sent behind its head are a front of the file, in order and without gaps; unless a
-- cancelled duty, a block that was not sent or its response ended them, they are all of those
-- bytes.
pub send_file_all :
    (env : SendEnv) (protocol me left : ℕ) (text : Bytes) (s : Sending)
    → left ≤ length text
    → (s' : Sending) × (send_file left env protocol me left text s ≡ some s')
      × ((k : ℕ) × (s'.out ≡ s.out ++ take k text) × (k ≤ left) × ((s'.not_wait ≢ 0) ⊎ (k ≡ left)))
send_file_all env protocol me left text s enough =
    let ends = send_file_ends left env protocol me left text s (omega arith) in
    (ends.0, ends.1, send_file-SentFile left env protocol me left text s ends.0 enough ends.1)
