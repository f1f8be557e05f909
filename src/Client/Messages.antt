-- ===== src/Client/Messages.antt =====
-- api/RsyncOct.cpp: what a daemon reads of a client's messages.
use octopusd.Prelude.{
  ℕ, zero, suc, ◌+◌, ◌-◌, ◌≡◌, ◌≢◌, ◌<◌, refl, sym, ap, ◌∙◌, [], ◌∷◌, ◌++◌, arith, length, take,
  drop, length-append, append-nil, All,
}
use octopusd.Prelude.Bytes.{Bytes}
use octopusd.Prelude.Int.{pos}
use octopusd.Receiver.Named.{len_of_path_file_name}
use octopusd.Wire.{c_string, int_bytes}
use octopusd.Head.{
  get_field, sure_valid, get_char, read_upload, read_del, read_mv_cp, len_of_site_name, len_of_time,
}
use octopusd.Head.RoundTrip.{take-exact, drop-exact, get_int-int_bytes}
use octopusd.Client.{RsyncOct, zeros, strncpy, upload_message, del_message, mv_cp_message}

length-zeros : (n : ℕ) → length (zeros n) ≡ n
length-zeros zero = refl
length-zeros (suc n) = omega (arith, length-zeros n)

length-take : (n : ℕ) (s : Bytes) → length (take n s) + (n - length s) ≡ n
length-take zero s = omega arith
length-take (suc n) [] = omega arith
length-take (suc n) (c ∷ s) = omega (arith, length-take n s)

length-strncpy : (n : ℕ) (s : Bytes) → length (strncpy n s) ≡ n
unfolding strncpy
length-strncpy n s = omega (
  arith,
  length-append (take n s) (zeros (n - length s)),
  length-zeros (n - length s),
  length-take n s,
)

c_string-strncpy :
    (s : Bytes) (m z : ℕ)
    → All (λ c. c ≢ 0) s
    → c_string (take m (take (suc m) s ++ zeros z) ++ 0 ∷ []) ≡ take m s
unfolding c_string
c_string-strncpy [] zero z h = refl
c_string-strncpy [] (suc m) zero h = refl
c_string-strncpy [] (suc m) (suc z) h = refl
c_string-strncpy (c ∷ s) zero z h = refl
c_string-strncpy (c ∷ s) (suc m) z h = ground (arith, c_string-strncpy s m z)

strncpy-read :
    (m : ℕ) (s : Bytes)
    → All (λ c. c ≢ 0) s
    → c_string (take m (strncpy (suc m) s) ++ 0 ∷ []) ≡ take m s
unfolding strncpy
strncpy-read m s text = c_string-strncpy s m (suc m - length s) text

get_field-strncpy :
    (m : ℕ) (s rest : Bytes)
    → All (λ c. c ≢ 0) s
    → get_field (suc m) (strncpy (suc m) s ++ rest) ≡ take m s
unfolding get_field sure_valid
get_field-strncpy m s rest text =
    let field = strncpy (suc m) s in
    let less : suc m - 1 ≡ m = omega arith in
    ap (λ b. c_string (take (suc m - 1) b ++ 0 ∷ []))
      (take-exact (suc m) field rest (length-strncpy (suc m) s))
    ∙ ap (λ k. c_string (take k field ++ 0 ∷ [])) less
    ∙ strncpy-read m s text

module _ (c : RsyncOct) (reserve : Bytes) (size : ℕ) (site : All (λ b. b ≢ 0) c.site_name)
    (remote : All (λ b. b ≢ 0) c.remote_path_name) (local : All (λ b. b ≢ 0) c.local_path_name)
    (time : All (λ b. b ≢ 0) c.send_time) where
  behind : (n : ℕ) (s rest : Bytes) → drop n (strncpy n s ++ rest) ≡ rest
  behind n s rest = drop-exact n (strncpy n s) rest (length-strncpy n s)

  last_time : get_field len_of_time (strncpy len_of_time c.send_time) ≡ take 19 c.send_time
  last_time =
      ap (get_field len_of_time) (sym (append-nil _)) ∙ get_field-strncpy 19 c.send_time [] time

  upload_read :
      length reserve ≡ 3
      → size < 2147483648
      → read_upload (upload_message reserve c size) ≡ record {
        msg = record {
          site_name = take 31 c.site_name;
          dest_path_file = take 255 c.remote_path_name;
          sended_time = take 19 c.send_time;
          data_length = pos size;
        };
        data_type = c.file_type;
      }
  unfolding read_upload upload_message get_char
  upload_read three small =
      let tail = c.file_type ∷ (reserve ++ int_bytes size) in
      let from_time = strncpy len_of_time c.send_time ++ tail in
      let from_dest = strncpy len_of_path_file_name c.remote_path_name ++ from_time in
      rw
        (
          get_field-strncpy 31 c.site_name from_dest site,
          behind len_of_site_name c.site_name from_dest,
          get_field-strncpy 255 c.remote_path_name from_time remote,
          behind len_of_path_file_name c.remote_path_name from_time,
          get_field-strncpy 19 c.send_time tail time,
          behind len_of_time c.send_time tail,
          drop-exact 3 reserve (int_bytes size) three,
          get_int-int_bytes size small,
        )
        refl

  del_read : read_del (del_message c) ≡ record {
    site_name = take 31 c.site_name;
    dest_path_file = take 255 c.remote_path_name;
    sended_time = take 19 c.send_time;
  }
  unfolding read_del del_message
  del_read =
      let from_time = strncpy len_of_time c.send_time in
      let from_dest = strncpy len_of_path_file_name c.remote_path_name ++ from_time in
      rw
        (
          get_field-strncpy 31 c.site_name from_dest site,
          behind len_of_site_name c.site_name from_dest,
          get_field-strncpy 255 c.remote_path_name from_time remote,
          behind len_of_path_file_name c.remote_path_name from_time,
          last_time,
        )
        refl

  mv_cp_read : read_mv_cp (mv_cp_message c) ≡ record {
    site_name = take 31 c.site_name;
    dest_path_file = take 255 c.remote_path_name;
    sended_time = take 19 c.send_time;
    src_path_file = take 255 c.local_path_name;
  }
  unfolding read_mv_cp mv_cp_message
  mv_cp_read =
      let from_time = strncpy len_of_time c.send_time in
      let from_src = strncpy len_of_path_file_name c.local_path_name ++ from_time in
      let from_dest = strncpy len_of_path_file_name c.remote_path_name ++ from_src in
      rw
        (
          get_field-strncpy 31 c.site_name from_dest site,
          behind len_of_site_name c.site_name from_dest,
          get_field-strncpy 255 c.remote_path_name from_src remote,
          behind len_of_path_file_name c.remote_path_name from_src,
          get_field-strncpy 255 c.local_path_name from_time local,
          behind len_of_path_file_name c.local_path_name from_time,
          last_time,
        )
        refl

-- A daemon reads of a client's messages the site, the place, the source and the time as the client
-- has them, each cut to what fits in its member with an end mark, and of an upload whether a name
-- or data follow and how many bytes, where no text has a zero byte and the size is below 2^31.
pub client_messages_read :
    (c : RsyncOct) (reserve : Bytes) (size : ℕ)
    → All (λ b. b ≢ 0) c.site_name
    → All (λ b. b ≢ 0) c.remote_path_name
    → All (λ b. b ≢ 0) c.local_path_name
    → All (λ b. b ≢ 0) c.send_time
    → length reserve ≡ 3
    → size < 2147483648
    → (read_upload (upload_message reserve c size) ≡ record {
      msg = record {
        site_name = take 31 c.site_name;
        dest_path_file = take 255 c.remote_path_name;
        sended_time = take 19 c.send_time;
        data_length = pos size;
      };
      data_type = c.file_type;
    })
      × (read_del (del_message c) ≡ record {
        site_name = take 31 c.site_name;
        dest_path_file = take 255 c.remote_path_name;
        sended_time = take 19 c.send_time;
      })
      × (read_mv_cp (mv_cp_message c) ≡ record {
        site_name = take 31 c.site_name;
        dest_path_file = take 255 c.remote_path_name;
        sended_time = take 19 c.send_time;
        src_path_file = take 255 c.local_path_name;
      })
client_messages_read c reserve size site remote local time three small = (
  upload_read c reserve size site remote local time three small,
  del_read c reserve size site remote local time,
  mv_cp_read c reserve size site remote local time,
)
