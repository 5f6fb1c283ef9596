-- ===== src/FolderWatch.antt =====
-- `folder_watch` of monitor.h, which no program starts any more: it looks for the files of a reducer.
pub mod Seen
use rpi_hadoop.Prelude.{
  ℕ, Bool, true, false, ◌&&◌, ◌||◌, ◌==◌, List, [], ◌∷◌, Option, none, some, if◌then◌else◌, Text,
  codes, Run, done, fault, ℤ, pos,
}
use rpi_hadoop.Setup.{Part, ◌>>=◌, ◌>>◌, must}

-- Does the text begin with the other? Does it contain it, as `strstr` finds it?
pub starts_with : Text → Text → Bool
starts_with [] s = true
starts_with (c ∷ pattern) [] = false
starts_with (c ∷ pattern) (d ∷ s) = c == d && starts_with pattern s

pub strstr : Text → Text → Bool
unfolding starts_with
strstr [] pattern = starts_with pattern []
strstr (c ∷ s) pattern = starts_with pattern (c ∷ s) || strstr s pattern

abbrev pub reducer_mark : Text
reducer_mark = codes "_r_0000"

-- The loop over the patches, for the names of their files: `reduce`.
pub patch_loop : List Text → ℤ → ℤ
unfolding strstr
patch_loop [] reduce = reduce
patch_loop (name ∷ names) reduce =
    patch_loop names (if strstr name reducer_mark then pos 1 else reduce)

-- `while (1)`, for what `zsock_recv` gives each time: the patches, or a failure, which ends the program.
-- With `reduce` comes whether the program goes on.
unfoldable pub watch_loop : List (Option (List Text)) → ℤ → ℤ × Bool
watch_loop [] reduce = (reduce, true)
watch_loop (none ∷ later) reduce = (reduce, false)
watch_loop (some names ∷ later) reduce = watch_loop later (patch_loop names reduce)

-- The calls before the loop: `zactor_new`; `fopen` of test.txt with `fclose`; `zdir_new`; `zdir_diff`;
-- `VERBOSE` with its answer; and `SUBSCRIBE`.
pub record Folders (S : Type 0) : Type 0 where
  pub new_watch : S → Bool × S
  pub make_file : S → Bool × S
  pub new_dir : Text → S → Bool × S
  pub diff : S → Bool × S
  pub verbose : S → Bool × S
  pub subscribe : Text → S → S

-- `fclose` of a file that was not opened is undefined.
abbrev pub closed : {S : Type 0} → Bool × S → Run (Option (Unit {0} × S))
closed (true, s) = done (some (tt, s))
closed (false, s) = fault

abbrev pub root_path : Text
root_path = codes "/hdfs/tmp/nm-local-dir/usercache/"

-- What `folder_watch` does before its loop; each `assert` that fails ends the program.
unfoldable pub watch_start : {S : Type 0} → Folders S → Part S (Unit {0})
watch_start folders = do
  λ s. must (folders.new_watch s)
  λ s. closed (folders.make_file s)
  λ s. must (folders.new_dir root_path s)
  λ s. must (folders.new_dir (codes ".") s)
  λ s. must (folders.diff s)
  λ s. must (folders.verbose s)
  λ s. done (some (tt, folders.subscribe root_path s))
