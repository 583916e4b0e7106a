-- ===== src/Fs/Calls.antt =====
-- kernel/sima_fs.h: the calls that the kernel makes of the file system, and what a sequence of them
-- leaves.
use seolsem.Base.{ℕ, Option, List, [], ◌∷◌, Str}
use seolsem.Fat.{Drive, Volume}
use seolsem.Fat.Mount.{Bpb}
use seolsem.Dir.{FsDir}
use seolsem.Fs.{
  Session, fs_cd, fs_dir_open, fs_dir_read, fs_read, fs_read_in_dir, fs_stat, fs_stat_in_dir,
  fs_is_executable, fs_is_executable_in_dir, fs_is_dir, fs_sync,
}
use seolsem.Fs.Change.{fs_create_dir, fs_write, fs_write_in_dir, fs_delete, fs_delete_dir}

-- A call that changes nothing but the current directory.
pub data Query : Type 0 where
  cd is_dir stat is_executable : Str → Query
  dir_open : Option Str → Query
  dir_read : FsDir → Query
  read : Str → ℕ → Query
  read_in_dir : Str → Str → ℕ → Query
  stat_in_dir is_executable_in_dir : Str → Str → Query
  sync : Query

pub data Call : Type 0 where
  query : Query → Call
  create_dir delete delete_dir : Str → Call
  write : Str → List ℕ → Call
  write_in_dir : Str → Str → List ℕ → Call

module _ (drv : Drive) (b : Bpb) (v : Volume) where
  open drv use {Disk}

  -- The session that a query leaves, TRUE or FALSE.
  unfoldable pub ask : Query → Session Disk → Session Disk
  ask (cd path) s = (fs_cd drv b v path s).1
  ask (is_dir path) s = (fs_is_dir drv b v path s).1
  ask (stat path) s = (fs_stat drv b v path s).1
  ask (is_executable path) s = (fs_is_executable drv b v path s).1
  ask (dir_open path) s = (fs_dir_open drv b v path s).1
  ask (dir_read dir) s = (fs_dir_read drv b v dir s).1
  ask (read path out_cap) s = (fs_read drv b v path out_cap s).1
  ask (read_in_dir dir_name name out_cap) s = (fs_read_in_dir drv b v dir_name name out_cap s).1
  ask (stat_in_dir dir_name name) s = (fs_stat_in_dir drv b v dir_name name s).1
  ask (is_executable_in_dir dir_name name) s = (fs_is_executable_in_dir drv b v dir_name name s).1
  ask sync s = (fs_sync drv b v s).1

  unfoldable pub perform : Call → Session Disk → Session Disk
  unfolding ask
  perform (query q) s = ask q s
  perform (create_dir path) s = (fs_create_dir drv b v path s).1
  perform (delete path) s = (fs_delete drv b v path s).1
  perform (delete_dir path) s = (fs_delete_dir drv b v path s).1
  perform (write path bytes) s = (fs_write drv b v path bytes s).1
  perform (write_in_dir dir_name name bytes) s = (fs_write_in_dir drv b v dir_name name bytes s).1

  unfoldable pub perform_all : List Call → Session Disk → Session Disk
  unfolding perform
  perform_all [] s = s
  perform_all (call ∷ calls) s = perform_all calls (perform call s)
