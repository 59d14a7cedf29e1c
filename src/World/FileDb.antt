-- ===== src/World/FileDb.antt =====
-- kdlib/filedb.go: a file that is read, and replaced as a whole through a temporary file. One process
-- holds the lock from `open` to `Close`, so nobody else acts on the files in between.
use keydesk.Prelude.{Option, none, some, false, if◌then◌else◌, true}
use keydesk.Storage.Types.{Brigade}
use keydesk.World.{
  World, Files, Contents, empty, json, garbage, M, open_failed, ok, err, ◌>>=◌, ◌>>◌, pure, syscall,
  raise, blocked_forever, backup_failed, Result, encode_failed, commit_failed,
}

set_brigade : Files Brigade → M (Unit {0})
set_brigade fs w = (ok tt, record w { brigade = fs })

get_brigade : M (Files Brigade)
get_brigade w = (ok w.brigade, w)

-- `O_CREATE` makes an empty file where there is none.
created {ℓ} : {A : Type ℓ} → Option (Contents A) → Contents A
created none = empty
created (some c) = c

-- Writing to the temporary file writes to the main one too where they are one file.
written : Contents Brigade → Files Brigade → Files Brigade
written c fs = record fs { tmp = some c; main = (if fs.linked then some c else fs.main) }

truncated : Files Brigade → Files Brigade
truncated fs = written empty fs

-- A file that is one with the locked temporary file is never locked again: the call does not return.
unlocked : Files Brigade → M (Unit {0})
unlocked fs = if fs.linked then raise blocked_forever else pure tt

-- `OpenFileDb`: takes the lock, locks and truncates the temporary file, and opens and locks the main
-- one. A failure leaves the lock to the end of the process, so that only another process goes on.
unfoldable pub open_file_db : M (Contents Brigade)
unfolding set_brigade get_brigade created written truncated unlocked
open_file_db = do
  syscall open_failed
  syscall open_failed
  fs ← get_brigade
  set_brigade (truncated fs)
  syscall open_failed
  fs ← get_brigade
  unlocked fs
  set_brigade (record fs { main = some (created fs.main) })
  pure (created fs.main)

remove_bak : Option (Contents Brigade) → M (Unit {0})
remove_bak none = pure tt
remove_bak (some c) = do
  syscall backup_failed
  fs ← get_brigade
  set_brigade (record fs { bak = none })

-- `f.Backup()`: the main file becomes the backup too.
unfoldable pub backup : M (Unit {0})
unfolding remove_bak set_brigade get_brigade
backup = do
  fs ← get_brigade
  remove_bak fs.bak
  syscall backup_failed
  fs ← get_brigade
  set_brigade (record fs { bak = fs.main })

encoded : Brigade → Result (Unit {0}) × World → Result (Unit {0}) × World
encoded b (ok u, w) = (ok tt, record w { brigade = written (json b) w.brigade })
encoded b (err e, w) = (err e, record w { brigade = written garbage w.brigade })

-- `f.Encoder(" ", " ").Encode(data)`: a failure may leave part of the text.
unfoldable pub encode : Brigade → M (Unit {0})
unfolding encoded written
encode b w = encoded b (syscall encode_failed w)

-- `f.Commit()`: the temporary file takes the place of the main one.
unfoldable pub commit : M (Unit {0})
unfolding set_brigade get_brigade
commit = do
  syscall commit_failed
  syscall commit_failed
  fs ← get_brigade
  set_brigade (record fs { main = none; linked = false })
  syscall commit_failed
  fs ← get_brigade
  set_brigade (record fs { main = fs.tmp; linked = true })
  syscall commit_failed
  fs ← get_brigade
  set_brigade (record fs { tmp = none; linked = false })
