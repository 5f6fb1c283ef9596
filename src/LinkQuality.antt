-- ===== src/LinkQuality.antt =====
-- The rates that a node reports: `get_link_quality` of monitor.h reads them from speed_log.txt, which
-- the sniffer writes.
pub mod Log
use rpi_hadoop.Prelude.{
  ℕ, zero, suc, ◌+◌, List, [], ◌∷◌, Option, none, some, ◌==◌, if◌then◌else◌, Text, take, Run, done,
  fault,
}
use rpi_hadoop.CText.{tokens, atoi}
use rpi_hadoop.CArray.{IntArray, update}

-- The loop from `i` on, for the tokens behind the current one: once there is none, nothing more is set.
pub quality_loop : ℕ → ℕ → List Text → IntArray → IntArray
quality_loop zero i ts speed = speed
quality_loop (suc rounds) i [] speed = speed
quality_loop (suc rounds) i (token ∷ ts) speed =
    quality_loop rounds (i + 1) ts (update speed i (atoi token))

-- The tokens behind the first, which is node 1's.
pub skip_first : List Text → List Text
skip_first [] = []
skip_first (token ∷ ts) = ts

-- A line, with its line feed.
pub first_line : Text → Text
first_line [] = []
first_line (c ∷ s) = let rest = first_line s in if c == 10 then c ∷ [] else c ∷ rest

-- `get_link_quality`, for the file's contents if it can be opened, and what `speed` held before. `fgets`
-- takes 383 bytes at most, and reads from NULL if the file was not opened.
unfoldable pub get_link_quality : Option Text → IntArray → Run IntArray
unfolding quality_loop skip_first first_line
get_link_quality none speed = fault
get_link_quality (some file) speed =
    done (quality_loop 8 1 (skip_first (tokens b'.' (take 383 (first_line file)))) speed)
