-- ===== src/Ftp.antt =====
-- cms/cmsftpd.c: the table of minidisks and the directory that a path names. A path is the list of
-- its characters before the null character, a directory the index of a minidisk, `none` the root.
-- The case of a letter is changed by a function of the C library, a parameter.
mod Paths
mod Sessions
pub mod Specs
mod Tests
use nicof.Prelude.{
  ℕ, zero, suc, Bool, true, false, ◌&&◌, Option, none, some, List, [], ◌∷◌, length, drop, ◌==◌,
  if◌then◌else◌,
}

abbrev pub slash : ℕ
slash = 0x61

abbrev pub dot : ℕ
dot = 0x4b

-- The loop of getDiskIdx, from entry i on.
unfoldable pub disk_loop : ℕ → List ℕ → ℕ → Option ℕ
disk_loop i [] letter = none
disk_loop i (d ∷ disks) letter = if d == letter then some i else disk_loop (suc i) disks letter

-- `path[0] == '/' || path[0] == '\0'`.
unfoldable pub ends : List ℕ → Bool
ends [] = true
ends (c ∷ path) = c == slash

-- `path[0] == '.' && (path[1] == '/' || path[1] == '\0')`.
unfoldable pub is_dot : List ℕ → Bool
is_dot [] = false
is_dot (c ∷ path) = c == dot && ends path

-- A turn of the loop of getDirIdx: it goes on with a path, an index and `lastSep`, or returns false.
pub data Turn : Type 0 where
  goes : List ℕ → Option ℕ → Bool → Turn
  refused : Turn

unfoldable pub entered : List ℕ → Option ℕ → Turn
entered path none = refused
entered path (some i) = goes path (some i) false

module _ (c_upper : ℕ → ℕ) (disks : List ℕ) where
  unfoldable pub get_disk_idx : ℕ → Option ℕ
  get_disk_idx disk = disk_loop 0 disks (c_upper disk)

  -- A disk letter: below the root nothing is found.
  unfoldable pub enter : ℕ → Option ℕ → Option ℕ
  enter c none = get_disk_idx c
  enter c (some i) = none

  -- The body of the loop, at the character c.
  unfoldable pub dir_turn : ℕ → List ℕ → Option ℕ → Bool → Turn
  dir_turn c path index last_sep =
      if c == slash
      then (if last_sep then refused else goes path index true)
      else if c == dot
      then (if is_dot path
          then goes (drop 1 path) none false
          else if ends path
          then goes path index false
          else goes (c ∷ path) index false)
      else if ends path
      then entered path (enter c index)
      else refused

  -- The loop, where the outer `none` is no more fuel and the inner one is `false`.
  unfoldable pub dir_loop : ℕ → List ℕ → Option ℕ → Bool → Option (Option (Option ℕ))
  dir_loop n [] index last_sep = some (some index)
  dir_loop zero (c ∷ path) index last_sep = none
  dir_loop (suc n) (c ∷ path) index last_sep = elim (dir_turn c path index last_sep) [
    | goes rest i s ↦ dir_loop n rest i s
    | refused ↦ some none
  ]

  -- `h->currDisk` is `current`. A turn that goes on shortens the path, but for one that does not end.
  unfoldable pub get_dir_idx : Option ℕ → List ℕ → Option (Option (Option ℕ))
  get_dir_idx current [] = dir_loop 0 [] current false
  get_dir_idx current (c ∷ path) =
      dir_loop (length (c ∷ path)) (c ∷ path) (if c == slash then none else current) false
