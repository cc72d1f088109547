-- ===== src/LsCommand/Sort.antt =====
-- `sort` of ls_command/ls.3.c: `-s` orders the files by falling size, `-r` alone turns them round.
pub mod Rearranged
pub mod Order
pub mod Reverse
use linux_system_code.Common.{
  ℕ, zero, suc, ◌+◌, ◌-◌, ◌≡◌, ◌≢◌, ◌≤◌, ◌<◌, refl, sym, ap, ◌∙◌, Bool, true, false, arith,
  Bool-cases, inl, inr, ltb, ◌==◌, if◌then◌else◌,
}
use linux_system_code.LsCommand.{LsFile, State, memchr}

-- `temp = ls[i]; ls[i] = ls[j]; ls[j] = temp;`
unfoldable pub swap : ℕ → ℕ → (ℕ → LsFile) → ℕ → LsFile
swap i j ls k = if k == j then ls i else if k == i then ls j else ls k

-- The loop over `j`, with `n` rounds left. The sizes are at most 2^63 - 1 and not negative, so their
-- difference is below 0 exactly if the first is less.
unfoldable pub sort_inner : ℕ → (i j : ℕ) → (ℕ → LsFile) → ℕ → LsFile
sort_inner zero i j ls = ls
sort_inner (suc n) i j ls =
    sort_inner n i (j + 1) (if ltb (ls i).size (ls j).size then swap i j ls else ls)

-- The loop over `i`, with `n` rounds left.
unfoldable pub sort_outer : ℕ → (i count : ℕ) → (ℕ → LsFile) → ℕ → LsFile
sort_outer zero i count ls = ls
sort_outer (suc n) i count ls =
    sort_outer n (i + 1) count (sort_inner (count - (i + 1)) i (i + 1) ls)

-- `while (i < j)`; `count` rounds are enough, see `turn_round-mirror`.
unfoldable pub turn_round : ℕ → (i j : ℕ) → (ℕ → LsFile) → ℕ → LsFile
turn_round zero i j ls = ls
turn_round (suc fuel) i j ls =
    let rest = turn_round fuel (i + 1) (j - 1) (swap i j ls) in if ltb i j then rest else ls

unfoldable pub sort : State → State
sort s =
    if memchr s.cnd b's'
    then record s { ls = sort_outer (s.count - 1) 0 s.count s.ls }
    else if memchr s.cnd b'r'
    then record s { ls = turn_round s.count 0 (s.count - 1) s.ls }
    else s
