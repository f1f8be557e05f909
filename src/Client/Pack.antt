-- ===== src/Client/Pack.antt =====
-- api/RsyncOct.cpp: `setUploadPackInfo`, which packs what is uploaded as an archive.
use octopusd.Prelude.{
  ℕ, Bool, true, false, not, ◌&&◌, ◌∷◌, [], ◌++◌, Option, none, some, if◌then◌else◌, take,
}
use octopusd.Prelude.Bytes.{Bytes, codes}
use octopusd.Prelude.Int.{ℤ, negsuc, int_str}
use octopusd.Queue.{protocol_pack_file}
use octopusd.Text.FilePath.{
  FileType, file_error, file_dir, file_normal, file_targz, file_zip, type_by_suffix, Stat, missing,
  directory, plain, div_path_file,
}
use octopusd.Text.Flag.{get_flag_str}
use octopusd.Text.Path.{ends_slash}
use octopusd.Head.{len_of_site_name}
use octopusd.Client.{RsyncOct, ExecuteEnv, execute, set_server}

-- CRsyncOct::getTypeOfUploadPackFile. The suffix is what stands behind the first point of the path.
unfoldable pub get_type_of_upload_pack_file : Stat → Bytes → FileType
unfolding type_by_suffix get_flag_str
get_type_of_upload_pack_file stat [] = file_error
get_type_of_upload_pack_file missing (c ∷ s) = file_error
get_type_of_upload_pack_file directory (c ∷ s) = file_dir
get_type_of_upload_pack_file plain (c ∷ s) = type_by_suffix (get_flag_str (c ∷ s) b'.')

-- What stat, ftok, getcwd, chdir, access, remove and system answer.
pub record PackEnv : Type 0 where
  pub stat : Stat
  pub key : ℤ
  pub has_cwd : Bool
  pub changed_dir : Bool
  pub exists : Bool
  pub removed : Bool
  pub ran : Bool

-- The directory, the file in it and the command that makes the file.
pub record PackParts : Type 0 where
  pub dir : Bytes
  pub file : Bytes
  pub command : Option Bytes

unfoldable pub targz_name : ℤ → Bytes
unfolding int_str
targz_name key = codes "oct_" ++ (int_str key ++ codes ".tar.gz")

unfoldable pub tar_command : Bytes → Bytes → Bytes
tar_command name what = codes "/bin/tar zcf " ++ (name ++ b' ' ∷ what)

unfoldable pub pack_parts : PackEnv → Bytes → FileType → Option PackParts
unfolding targz_name tar_command div_path_file
pack_parts env local file_error = none
pack_parts env local file_dir =
    let name = targz_name env.key in
    some (record { dir = local; file = name; command = some (tar_command name (codes "*")) })
pack_parts env local file_normal =
    let name = targz_name env.key in
    let parts = div_path_file local ([], []) in
    some (record { dir = parts.0; file = name; command = some (tar_command name parts.1) })
pack_parts env local file_targz =
    let parts = div_path_file local ([], []) in
    some (record { dir = parts.0; file = parts.1; command = none })
pack_parts env local file_zip =
    let parts = div_path_file local ([], []) in
    some (record { dir = parts.0; file = parts.1; command = none })

-- `snprintf` of a path below a directory.
unfoldable pub path_in : Bytes → Bytes → Bytes
unfolding ends_slash
path_in dir file = take 255 (if ends_slash dir then dir ++ file else dir ++ b'/' ∷ file)

-- Whether the file is made; true stands for 0.
unfoldable pub packed : PackEnv → Option Bytes → Bool
packed env none = env.has_cwd && env.changed_dir
packed env (some command) =
    env.has_cwd && (env.changed_dir && (not (env.exists && not env.removed) && env.ran))

unfoldable pub pack_with : PackEnv → Bytes → Bytes → RsyncOct → Option PackParts → Bool × RsyncOct
unfolding path_in packed
pack_with env remote local c none = (false, c)
pack_with env remote local c (some p) = (
  packed env p.command,
  record c { local_path_name = path_in p.dir p.file; remote_path_name = path_in remote p.file },
)

-- CRsyncOct::setUploadPackInfo, with the time that `getMsgTime` gives.
unfoldable pub set_upload_pack_info :
    PackEnv → ℕ → Bytes → Bytes → Bytes → Bytes → RsyncOct → Bool × RsyncOct
unfolding pack_with pack_parts get_type_of_upload_pack_file
set_upload_pack_info env type site remote local now c =
    pack_with env remote local
      (record c {
        protocol_type = protocol_pack_file;
        file_type = type;
        site_name = take len_of_site_name site;
        send_time = now;
      })
      (pack_parts env local (get_type_of_upload_pack_file env.stat local))

-- CRsyncOct::uploadPackFile; -100 where the file is not made.
unfoldable pub send_packed : ExecuteEnv → Bool × RsyncOct → ℤ
unfolding execute
send_packed env (false, c) = negsuc 99
send_packed env (true, c) = execute env c

unfoldable pub upload_pack_file :
    ExecuteEnv → PackEnv → Bytes → ℤ → ℕ → Bytes → Bytes → Bytes → Bytes → RsyncOct → ℤ
unfolding send_packed set_upload_pack_info set_server
upload_pack_file env pack ip port type site remote local now c =
    send_packed env (set_upload_pack_info pack type site remote local now (set_server ip port c))
