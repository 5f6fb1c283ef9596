-- ===== src/CArray.antt =====
-- A static C array of `int`: its elements by index, with the bounds of each access.
use rpi_hadoop.Prelude.{ℕ, ltb, ◌==◌, if◌then◌else◌, Run, done, fault, ℤ, pos, negsuc}

abbrev pub IntArray : Type 0
IntArray = ℕ → ℤ

abbrev pub zeros : IntArray
zeros i = pos 0

abbrev pub update : IntArray → ℕ → ℤ → IntArray
update a i v j = if j == i then v else a j

-- `a[i]` and `a[i] = v` for an array of `size` elements. Outside the bounds the behaviour is
-- undefined.
abbrev pub load : ℕ → IntArray → ℤ → Run ℤ
load size a (pos i) = if ltb i size then done (a i) else fault
load size a (negsuc i) = fault

abbrev pub store : ℕ → IntArray → ℤ → ℤ → Run IntArray
store size a (pos i) v = if ltb i size then done (update a i v) else fault
store size a (negsuc i) v = fault
