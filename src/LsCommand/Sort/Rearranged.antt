-- ===== src/LsCommand/Sort/Rearranged.antt =====
-- The loops of `sort` in ls_command/ls.3.c lose and make up no record.
use linux_system_code.Common.{
  ℕ, zero, suc, ◌+◌, ◌-◌, ◌≡◌, ◌≤◌, ◌<◌, refl, ap, ◌∙◌, arith, Bool-cases, inl, inr, ltb, ◌==◌,
  if◌then◌else◌,
}
use linux_system_code.LsCommand.{LsFile, State, memchr}
use linux_system_code.LsCommand.Sort.{swap, sort_inner, sort_outer, turn_round, sort}

-- `after` holds the records of `before` in another order, and those from `count` on unchanged: the
-- record at `k` comes from `from k` and goes to `to k`.
pub record IsRearranged (count : ℕ) (before after : ℕ → LsFile) : Type 0 where
  pub from : ℕ → ℕ
  pub to : ℕ → ℕ
  pub same : (k : ℕ) → after k ≡ before (from k)
  pub to-from : (k : ℕ) → to (from k) ≡ k
  pub from-to : (k : ℕ) → from (to k) ≡ k
  pub fixed : (k : ℕ) → count ≤ k → from k ≡ k

IsRearranged-refl : (count : ℕ) (ls : ℕ → LsFile) → IsRearranged count ls ls
IsRearranged-refl count ls = record {
  from = λ k. k;
  to = λ k. k;
  same = λ k. refl;
  to-from = λ k. refl;
  from-to = λ k. refl;
  fixed = λ k h. refl;
}

IsRearranged-trans :
    {count : ℕ} {a b c : ℕ → LsFile}
    → IsRearranged count a b
    → IsRearranged count b c
    → IsRearranged count a c
IsRearranged-trans p q = record {
  from = λ k. p.from (q.from k);
  to = λ k. q.to (p.to k);
  same = λ k. q.same k ∙ p.same (q.from k);
  to-from = λ k. ap q.to (p.to-from (q.from k)) ∙ q.to-from k;
  from-to = λ k. ap p.from (q.from-to (p.to k)) ∙ p.from-to k;
  fixed = λ k h. ap p.from (q.fixed k h) ∙ p.fixed k h;
}

abbrev exchange : ℕ → ℕ → ℕ → ℕ
exchange i j k = if k == j then i else if k == i then j else k

exchange-exchange : (i j k : ℕ) → exchange i j (exchange i j k) ≡ k
exchange-exchange i j k = ground arith

IsRearranged-swap :
    (count i j : ℕ) (ls : ℕ → LsFile) → i < count → j < count → IsRearranged count ls (swap i j ls)
unfolding swap
IsRearranged-swap count i j ls hi hj = record {
  from = exchange i j;
  to = exchange i j;
  same = λ k. ground arith;
  to-from = exchange-exchange i j;
  from-to = exchange-exchange i j;
  fixed = λ k h. ground arith;
}

IsRearranged-inner :
    (n i j count : ℕ) (ls : ℕ → LsFile)
    → i < count
    → j + n ≤ count
    → IsRearranged count ls (sort_inner n i j ls)
unfolding sort_inner
IsRearranged-inner zero i j count ls hi hj = IsRearranged-refl count ls
IsRearranged-inner (suc n) i j count ls hi hj = elim (Bool-cases (ltb (ls i).size (ls j).size)) [
  | inl less ↦ rw less (
      IsRearranged-trans (IsRearranged-swap count i j ls hi (omega arith))
        (IsRearranged-inner n i (j + 1) count (swap i j ls) hi (omega arith)))
  | inr more ↦ rw more (IsRearranged-inner n i (j + 1) count ls hi (omega arith))
]

IsRearranged-outer :
    (n i count : ℕ) (ls : ℕ → LsFile)
    → i + n ≤ count - 1
    → IsRearranged count ls (sort_outer n i count ls)
unfolding sort_outer
IsRearranged-outer zero i count ls h = IsRearranged-refl count ls
IsRearranged-outer (suc n) i count ls h =
    IsRearranged-trans
      (IsRearranged-inner (count - (i + 1)) i (i + 1) count ls (omega arith) (omega arith))
      (IsRearranged-outer n (i + 1) count _ (omega arith))

IsRearranged-turn :
    (fuel i j count : ℕ) (ls : ℕ → LsFile)
    → j < count
    → IsRearranged count ls (turn_round fuel i j ls)
unfolding turn_round
IsRearranged-turn zero i j count ls h = IsRearranged-refl count ls
IsRearranged-turn (suc fuel) i j count ls h = elim (Bool-cases (ltb i j)) [
  | inl less ↦ rw less (
      IsRearranged-trans (IsRearranged-swap count i j ls (ground arith) h)
        (IsRearranged-turn fuel (i + 1) (j - 1) count (swap i j ls) (omega arith)))
  | inr more ↦ rw more (IsRearranged-refl count ls)
]

-- Of one record in the array there is nothing to turn round.
turn_round_empty : (fuel : ℕ) (ls : ℕ → LsFile) → turn_round fuel 0 0 ls ≡ ls
unfolding turn_round
turn_round_empty zero ls = refl
turn_round_empty (suc fuel) ls = refl

IsRearranged-reverse :
    (count : ℕ) (ls : ℕ → LsFile) → IsRearranged count ls (turn_round count 0 (count - 1) ls)
IsRearranged-reverse zero ls = rw (turn_round_empty zero ls) (IsRearranged-refl zero ls)
IsRearranged-reverse (suc n) ls = IsRearranged-turn (suc n) 0 (suc n - 1) (suc n) ls (omega arith)

-- Whatever the options are, sort only puts the records in use in another order: it loses and makes up
-- none, and leaves the number in use, the options and the records that are not in use alone.
pub sort-IsRearranged :
    (s : State)
    → IsRearranged s.count s.ls (sort s).ls × ((sort s).count ≡ s.count) × ((sort s).cnd ≡ s.cnd)
unfolding sort
sort-IsRearranged s = elim (Bool-cases (memchr s.cnd b's')) [
  | inl by_size ↦
      rw by_size (IsRearranged-outer (s.count - 1) 0 s.count s.ls (omega arith), refl, refl)
  | inr other ↦ elim (Bool-cases (memchr s.cnd b'r')) [
    | inl back ↦ rw (other, back) (IsRearranged-reverse s.count s.ls, refl, refl)
    | inr plain ↦ rw (other, plain) (IsRearranged-refl s.count s.ls, refl, refl)
  ]
]
