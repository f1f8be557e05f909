-- ===== src/Head/RoundTrip.antt =====
-- sharelib/ProtocolMng.cpp: what `processRecv` reads of the messages that `processSend` fills in.
use octopusd.Prelude.{
  ℕ, zero, suc, ◌+◌, ◌-◌, ◌≡◌, ◌≢◌, ◌<◌, ◌≤◌, refl, sym, ap, ◌∙◌, [], ◌∷◌, ◌++◌, arith, length,
  take, drop, length-append, append-nil, take-length-append, drop-length-append, All,
}
use mathlib.Core.Path.{subst}
use octopusd.Prelude.Bytes.{Bytes}
use octopusd.Prelude.Int.{pos}
use octopusd.Queue.{SendDuty}
use octopusd.Receiver.Named.{len_of_path_file_name}
use octopusd.Wire.{c_string, int_bytes}
use octopusd.Wire.Receive.{bytes_int-int_bytes, small_len}
use octopusd.Head.{
  OldBytes, put_field, sure_valid, get_field, signed, get_int, get_char, upload_bytes, del_bytes,
  mv_cp_bytes, read_upload, read_del, read_mv_cp, len_of_site_name, len_of_time, file_data,
}

length-drop : (n : ℕ) (l : Bytes) → length (drop n l) ≡ length l - n
length-drop zero l = omega arith
length-drop (suc n) [] = omega arith
length-drop (suc n) (c ∷ l) = omega (arith, length-drop n l)

length-put_field :
    (n : ℕ) (old s : Bytes) → length old ≡ n → length s < n → length (put_field old s) ≡ n
unfolding put_field
length-put_field n old s fit short =
    omega (arith, length-append s (0 ∷ drop (length s + 1) old), length-drop (length s + 1) old)

pub take-exact : (n : ℕ) (s t : Bytes) → length s ≡ n → take n (s ++ t) ≡ s
take-exact n s t e = subst (λ k. take k (s ++ t) ≡ s) e (take-length-append s t)

pub drop-exact : (n : ℕ) (s t : Bytes) → length s ≡ n → drop n (s ++ t) ≡ t
drop-exact n s t e = subst (λ k. drop k (s ++ t) ≡ t) e (drop-length-append s t)

c_string-take :
    (s r t : Bytes) (k : ℕ)
    → All (λ c. c ≢ 0) s
    → length s ≤ k
    → c_string (take k (s ++ 0 ∷ r) ++ 0 ∷ t) ≡ s
unfolding c_string
c_string-take [] r t zero h le = refl
c_string-take [] r t (suc k) h le = refl
c_string-take (c ∷ s) r t zero h le = absurd (omega arith)
c_string-take (c ∷ s) r t (suc k) h le = ground (arith, c_string-take s r t k)

-- A text that has room in its member.
abbrev pub Fits : ℕ → Bytes → Type 0
Fits n s = All (λ c. c ≢ 0) s × (length s < n)

get_field-put_field :
    (n : ℕ) (old s rest : Bytes)
    → length old ≡ n
    → Fits n s
    → get_field n (put_field old s ++ rest) ≡ s
unfolding get_field sure_valid
get_field-put_field n old s rest fit text =
    ap (λ b. c_string (take (n - 1) b ++ 0 ∷ []))
      (take-exact n (put_field old s) rest (length-put_field n old s fit text.1))
    ∙ (unfold put_field in
        c_string-take s (drop (length s + 1) old) [] (n - 1) text.0 (omega arith))

pub get_int-int_bytes : (size : ℕ) → size < 2147483648 → get_int (int_bytes size) ≡ pos size
unfolding get_int int_bytes signed
get_int-int_bytes size h = rw (bytes_int-int_bytes size h, small_len size h) refl

-- The members of a struct before they are filled in.
pub record HasRoom (old : OldBytes) : Type 0 where
  pub site : length old.site ≡ len_of_site_name
  pub dest : length old.dest ≡ len_of_path_file_name
  pub src : length old.src ≡ len_of_path_file_name
  pub time : length old.time ≡ len_of_time
  pub reserve : length old.reserve ≡ 3

-- The texts of a duty as CSendDuty has them.
pub record DutyFits (d : SendDuty) : Type 0 where
  pub site : Fits len_of_site_name d.site_name
  pub dest : Fits len_of_path_file_name d.dest_path_file
  pub src : Fits len_of_path_file_name d.local_path_file
  pub time : Fits len_of_time d.sended_time

module _ (old : OldBytes) (d : SendDuty) (size : ℕ) (room : HasRoom old) (fits : DutyFits d) where
  behind_site :
      (rest : Bytes) → drop len_of_site_name (put_field old.site d.site_name ++ rest) ≡ rest
  behind_site rest =
      drop-exact len_of_site_name (put_field old.site d.site_name) rest
        (length-put_field len_of_site_name old.site d.site_name room.site fits.site.1)

  behind_dest :
      (rest : Bytes)
      → drop len_of_path_file_name (put_field old.dest d.dest_path_file ++ rest) ≡ rest
  behind_dest rest =
      drop-exact len_of_path_file_name (put_field old.dest d.dest_path_file) rest
        (length-put_field len_of_path_file_name old.dest d.dest_path_file room.dest fits.dest.1)

  behind_src :
      (rest : Bytes)
      → drop len_of_path_file_name (put_field old.src d.local_path_file ++ rest) ≡ rest
  behind_src rest =
      drop-exact len_of_path_file_name (put_field old.src d.local_path_file) rest
        (length-put_field len_of_path_file_name old.src d.local_path_file room.src fits.src.1)

  behind_time : (rest : Bytes) → drop len_of_time (put_field old.time d.sended_time ++ rest) ≡ rest
  behind_time rest =
      drop-exact len_of_time (put_field old.time d.sended_time) rest
        (length-put_field len_of_time old.time d.sended_time room.time fits.time.1)

  site_read :
      (rest : Bytes)
      → get_field len_of_site_name (put_field old.site d.site_name ++ rest) ≡ d.site_name
  site_read rest =
      get_field-put_field len_of_site_name old.site d.site_name rest room.site fits.site

  dest_read :
      (rest : Bytes)
      → get_field len_of_path_file_name (put_field old.dest d.dest_path_file ++ rest)
        ≡ d.dest_path_file
  dest_read rest =
      get_field-put_field len_of_path_file_name old.dest d.dest_path_file rest room.dest fits.dest

  time_read :
      (rest : Bytes)
      → get_field len_of_time (put_field old.time d.sended_time ++ rest) ≡ d.sended_time
  time_read rest = get_field-put_field len_of_time old.time d.sended_time rest room.time fits.time

  last_time_read : get_field len_of_time (put_field old.time d.sended_time) ≡ d.sended_time
  last_time_read = ap (get_field len_of_time) (sym (append-nil _)) ∙ time_read []

  upload_read :
      size < 2147483648
      → read_upload (upload_bytes old d size) ≡ record {
        msg = record {
          site_name = d.site_name;
          dest_path_file = d.dest_path_file;
          sended_time = d.sended_time;
          data_length = pos size;
        };
        data_type = file_data;
      }
  unfolding read_upload upload_bytes get_char
  upload_read small =
      let tail = file_data ∷ (old.reserve ++ int_bytes size) in
      let from_time = put_field old.time d.sended_time ++ tail in
      let from_dest = put_field old.dest d.dest_path_file ++ from_time in
      rw
        (
          site_read from_dest,
          behind_site from_dest,
          dest_read from_time,
          behind_dest from_time,
          time_read tail,
          behind_time tail,
          drop-exact 3 old.reserve (int_bytes size) room.reserve,
          get_int-int_bytes size small,
        )
        refl

  del_read : read_del (del_bytes old d) ≡ record {
    site_name = d.site_name;
    dest_path_file = d.dest_path_file;
    sended_time = d.sended_time;
  }
  unfolding read_del del_bytes
  del_read =
      let from_time = put_field old.time d.sended_time in
      let from_dest = put_field old.dest d.dest_path_file ++ from_time in
      rw
        (
          site_read from_dest,
          behind_site from_dest,
          dest_read from_time,
          behind_dest from_time,
          last_time_read,
        )
        refl

  mv_cp_read : read_mv_cp (mv_cp_bytes old d) ≡ record {
    site_name = d.site_name;
    dest_path_file = d.dest_path_file;
    sended_time = d.sended_time;
    src_path_file = d.local_path_file;
  }
  unfolding read_mv_cp mv_cp_bytes
  mv_cp_read =
      let from_time = put_field old.time d.sended_time in
      let from_src = put_field old.src d.local_path_file ++ from_time in
      let from_dest = put_field old.dest d.dest_path_file ++ from_src in
      rw
        (
          site_read from_dest,
          behind_site from_dest,
          dest_read from_src,
          behind_dest from_src,
          get_field-put_field len_of_path_file_name old.src d.local_path_file from_time room.src
              fits.src,
          behind_src from_time,
          last_time_read,
        )
        refl

-- A receive thread reads of the messages that a send thread fills in for a duty, whatever the
-- structs held before, the duty's site, place, time and local path, and of an upload the size of
-- the file and that its data follow, where each text has room for its end mark and no zero byte
-- and the size is below 2^31.
pub messages_read_back :
    (old : OldBytes) (d : SendDuty) (size : ℕ)
    → HasRoom old
    → DutyFits d
    → size < 2147483648
    → (read_upload (upload_bytes old d size) ≡ record {
      msg = record {
        site_name = d.site_name;
        dest_path_file = d.dest_path_file;
        sended_time = d.sended_time;
        data_length = pos size;
      };
      data_type = file_data;
    })
      × (read_del (del_bytes old d) ≡ record {
        site_name = d.site_name;
        dest_path_file = d.dest_path_file;
        sended_time = d.sended_time;
      })
      × (read_mv_cp (mv_cp_bytes old d) ≡ record {
        site_name = d.site_name;
        dest_path_file = d.dest_path_file;
        sended_time = d.sended_time;
        src_path_file = d.local_path_file;
      })
messages_read_back old d size room fits small = (
  upload_read old d size room fits small,
  del_read old d size room fits,
  mv_cp_read old d size room fits,
)
