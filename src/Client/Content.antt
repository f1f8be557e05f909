-- ===== src/Client/Content.antt =====
-- api/RsyncOct.cpp: the loops over the file send all of it.
use octopusd.Prelude.{
  ℕ, zero, suc, ◌+◌, ◌≡◌, ◌≤◌, refl, sym, ap, ◌∙◌, true, [], ◌∷◌, ◌++◌, some, arith, length, take,
  drop, append_assoc, append-nil,
}
use octopusd.Prelude.Bytes.{Bytes}
use octopusd.Sender.{msg_buffer_size, write_to_file_size}
use octopusd.Client.{ExecuteEnv, client_chunk, client_file}

take-drop : (n : ℕ) (s : Bytes) → take n s ++ drop n s ≡ s
take-drop zero s = refl
take-drop (suc n) [] = refl
take-drop (suc n) (c ∷ s) = ap (λ l. c ∷ l) (take-drop n s)

drop-le : (n : ℕ) (s : Bytes) → length (drop n s) ≤ length s
drop-le zero s = omega arith
drop-le (suc n) [] = omega arith
drop-le (suc n) (c ∷ s) = omega (arith, drop-le n s)

module _ (env : ExecuteEnv) (written : (k : ℕ) → env.block_written k ≡ true) where
  client_chunk_all :
      (fuel k : ℕ) (s out : Bytes)
      → length s ≤ fuel
      → (k' : ℕ) × (client_chunk fuel env k s out ≡ some (k', out ++ s))
  unfolding client_chunk
  client_chunk_all zero k [] out h = (k, ap (λ l. some (k, l)) (sym (append-nil out)))
  client_chunk_all (suc f) k [] out h = (k, ap (λ l. some (k, l)) (sym (append-nil out)))
  client_chunk_all zero k (b ∷ s) out h = absurd (omega arith)
  client_chunk_all (suc f) k (b ∷ s) out h =
      let front = take msg_buffer_size (b ∷ s) in
      let rest = drop msg_buffer_size (b ∷ s) in
      let shorter : length rest ≤ f = omega (arith, drop-le 10239 s) in
      let more = client_chunk_all f (k + 1) rest (out ++ front) shorter in
      (
        more.0,
        rw (written k) (
            more.1
            ∙ ap (λ l. some (more.0, l))
                (append_assoc out front rest
                  ∙ ap (λ l. out ++ l) (take-drop msg_buffer_size (b ∷ s)))),
      )

  -- Where every block is written, the loops over the file send its whole content, in its order, and
  -- the number of its bytes is fuel enough.
  client_file_all :
      (fuel k : ℕ) (s out : Bytes)
      → length s ≤ fuel
      → client_file fuel env k s out ≡ some (out ++ s)
  unfolding client_file
  client_file_all zero k [] out h = ap some (sym (append-nil out))
  client_file_all (suc f) k [] out h = ap some (sym (append-nil out))
  client_file_all zero k (b ∷ s) out h = absurd (omega arith)
  client_file_all (suc f) k (b ∷ s) out h =
      let chunk = take write_to_file_size (b ∷ s) in
      let rest = drop write_to_file_size (b ∷ s) in
      let shorter : length rest ≤ f = omega (arith, drop-le 1023999 s) in
      let one = client_chunk_all (length chunk) k chunk out (omega arith) in
      rw (client_file, one.1)
        (client_file_all f one.0 rest (out ++ chunk) shorter
          ∙ ap some (
              append_assoc out chunk rest
              ∙ ap (λ l. out ++ l) (take-drop write_to_file_size (b ∷ s))))
