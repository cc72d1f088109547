-- ===== src/LsCommand/Sort/Reverse.antt =====
-- With `-r` and without `-s`, `sort` of ls_command/ls.3.c turns the files round.
use linux_system_code.Common.{
  ℕ, zero, suc, ◌+◌, ◌-◌, ◌≡◌, ◌≤◌, ◌<◌, ◌∙◌, true, false, arith, Bool-cases, inl, inr, ltb, leb,
  ◌&&◌, if◌then◌else◌,
}
use linux_system_code.LsCommand.{LsFile, State, memchr}
use linux_system_code.LsCommand.Sort.{swap, turn_round, sort}

-- The records from `i` to `j` in reverse order.
abbrev mirrored : (i j : ℕ) → (ℕ → LsFile) → ℕ → LsFile
mirrored i j ls k = if leb i k && leb k j then ls (i + j - k) else ls k

mirrored_done : (i j : ℕ) (ls : ℕ → LsFile) (k : ℕ) → j ≤ i → ls k ≡ mirrored i j ls k
mirrored_done i j ls k h = elim (Bool-cases (leb i k && leb k j)) [
  | inl inside ↦ let e : i + j - k ≡ k = ground arith in rw (inside, e)
  | inr outside ↦ rw outside
]

mirrored_step :
    (i j : ℕ) (ls : ℕ → LsFile) (k : ℕ)
    → i < j
    → mirrored (i + 1) (j - 1) (swap i j ls) k ≡ mirrored i j ls k
unfolding swap
mirrored_step i j ls k h =
    let e : i + 1 + (j - 1) - k ≡ i + j - k = omega arith in
    let at_i : k ≡ i → i + j - k ≡ j = λ d. omega arith in
    let at_j : k ≡ j → i + j - k ≡ i = λ d. omega arith in rw e (ground (arith, at_i, at_j))

-- Enough rounds turn the records round.
turn_round-mirror :
    (fuel i j : ℕ) (ls : ℕ → LsFile) (k : ℕ)
    → j ≤ i + fuel
    → turn_round fuel i j ls k ≡ mirrored i j ls k
unfolding turn_round
turn_round-mirror zero i j ls k h = mirrored_done i j ls k (omega arith)
turn_round-mirror (suc fuel) i j ls k h = elim (Bool-cases (ltb i j)) [
  | inl less ↦ rw less (
      turn_round-mirror fuel (i + 1) (j - 1) (swap i j ls) k (omega arith)
      ∙ mirrored_step i j ls k (ground arith))
  | inr more ↦ rw more (mirrored_done i j ls k (ground arith))
]

in_use : (n k : ℕ) (ls : ℕ → LsFile) → k < n → mirrored 0 (n - 1) ls k ≡ ls (n - 1 - k)
in_use n k ls h =
    let e : 0 + (n - 1) - k ≡ n - 1 - k = omega arith in
    let inside : (leb 0 k && leb k (n - 1)) ≡ true = ground arith in rw (inside, e)

-- With `-r` and without `-s`, and whatever other options are given, the files in use stand in the
-- reverse order.
pub sort-mirror :
    (s : State)
    → memchr s.cnd b's' ≡ false
    → memchr s.cnd b'r' ≡ true
    → (k : ℕ) → k < s.count
    → (sort s).ls k ≡ s.ls (s.count - 1 - k)
unfolding sort
sort-mirror s no_s r k h =
    rw (no_s, r)
      (turn_round-mirror s.count 0 (s.count - 1) s.ls k (omega arith) ∙ in_use s.count k s.ls h)
