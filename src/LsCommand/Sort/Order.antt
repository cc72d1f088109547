-- ===== src/LsCommand/Sort/Order.antt =====
-- With `-s` the loops of `sort` in ls_command/ls.3.c order the records by falling size.
use linux_system_code.Common.{
  ℕ, zero, suc, ◌+◌, ◌-◌, ◌≡◌, ◌≤◌, ◌<◌, refl, ◌∙◌, true, arith, Bool-cases, inl, inr, ltb, ◌==◌,
  if◌then◌else◌,
}
use linux_system_code.LsCommand.{LsFile, State, memchr}
use linux_system_code.LsCommand.Sort.{swap, sort_inner, sort_outer, sort}

-- No size from `lo` up to `hi` is above `b`.
abbrev Below : (ℕ → LsFile) → (lo hi b : ℕ) → Type 0
Below ls lo hi b = (k : ℕ) → lo ≤ k → k < hi → (ls k).size ≤ b

-- One round of the loop over `j`.
abbrev round : (ℕ → LsFile) → (i j : ℕ) → ℕ → LsFile
round ls i j = if ltb (ls i).size (ls j).size then swap i j ls else ls

Below-round :
    (ls : ℕ → LsFile) (i j lo hi b : ℕ)
    → lo ≤ i
    → i < hi
    → lo ≤ j
    → j < hi
    → Below ls lo hi b
    → Below (round ls i j) lo hi b
unfolding swap
Below-round ls i j lo hi b li ih lj jh h k lk hk = ground (arith, h k, h i, h j)

Below-inner :
    (n i j : ℕ) (ls : ℕ → LsFile) (lo hi b : ℕ)
    → lo ≤ i
    → i < hi
    → lo ≤ j
    → j + n ≤ hi
    → Below ls lo hi b
    → Below (sort_inner n i j ls) lo hi b
unfolding sort_inner
Below-inner zero i j ls lo hi b li ih lj jh h = h
Below-inner (suc n) i j ls lo hi b li ih lj jh h =
    Below-inner n i (j + 1) (round ls i j) lo hi b li ih (omega arith) (omega arith)
      (Below-round ls i j lo hi b li ih lj (omega arith) h)

-- The loop over `j` leaves the records before `i` alone.
sort_inner_before :
    (n i j : ℕ) (ls : ℕ → LsFile) (k : ℕ) → k < i → i < j → sort_inner n i j ls k ≡ ls k
unfolding sort_inner swap
sort_inner_before zero i j ls k h ij = refl
sort_inner_before (suc n) i j ls k h ij =
    sort_inner_before n i (j + 1) _ k h (omega arith) ∙ ground arith

max-round :
    (ls : ℕ → LsFile) (i j : ℕ)
    → i < j
    → Below ls i j (ls i).size
    → Below (round ls i j) i (j + 1) (round ls i j i).size
unfolding swap
max-round ls i j h b l il lj = ground (arith, b l)

-- After it the record at `i` is the greatest of those from `i` on.
sort_inner_max :
    (n i j : ℕ) (ls : ℕ → LsFile)
    → i < j
    → Below ls i j (ls i).size
    → Below (sort_inner n i j ls) i (j + n) (sort_inner n i j ls i).size
unfolding sort_inner
sort_inner_max zero i j ls h b k ik kj = b k ik (omega arith)
sort_inner_max (suc n) i j ls h b k ik kj =
    sort_inner_max n i (j + 1) (round ls i j) (omega arith) (max-round ls i j h b) k ik
      (omega arith)

-- Each of the first `i` records is at least as large as all after it.
abbrev OrderedTo : (ℕ → LsFile) → (i count : ℕ) → Type 0
OrderedTo ls i count = (a b : ℕ) → a < i → a < b → b < count → (ls b).size ≤ (ls a).size

OrderedTo-inner :
    (i count : ℕ) (ls : ℕ → LsFile)
    → i < count
    → OrderedTo ls i count
    → OrderedTo (sort_inner (count - (i + 1)) i (i + 1) ls) (i + 1) count
OrderedTo-inner i count ls h ord a b ai ab bc = elim (Bool-cases (a == i)) [
  | inl here ↦
      let e : i ≡ a = ground arith in
      rw (← e) (
        sort_inner_max (count - (i + 1)) i (i + 1) ls (omega arith)
          (λ k ik ki. let d : k ≡ i = omega arith in rw d (omega arith)) b (omega arith)
          (omega arith))
  | inr before ↦
      rw (sort_inner_before (count - (i + 1)) i (i + 1) ls a (ground arith) (omega arith))
        (bounded (ground arith))
]
  where
    bounded : a < i → (sort_inner (count - (i + 1)) i (i + 1) ls b).size ≤ (ls a).size
    bounded ai' = elim (Bool-cases (ltb b i)) [
      | inl first ↦
          rw (sort_inner_before (count - (i + 1)) i (i + 1) ls b (ground arith) (omega arith))
            (ord a b ai' ab bc)
      | inr later ↦
          Below-inner (count - (i + 1)) i (i + 1) ls i count (ls a).size (omega arith) h
            (omega arith) (omega arith) (λ k ik kc. ord a k ai' (omega arith) kc) b (ground arith)
            bc
    ]

OrderedTo-outer :
    (n i count : ℕ) (ls : ℕ → LsFile)
    → i + n ≡ count - 1
    → OrderedTo ls i count
    → OrderedTo (sort_outer n i count ls) (count - 1) count
unfolding sort_outer
OrderedTo-outer zero i count ls e ord a b ai ab bc = ord a b (omega arith) ab bc
OrderedTo-outer (suc n) i count ls e ord a b ai ab bc =
    OrderedTo-outer n (i + 1) count _ (omega arith) (OrderedTo-inner i count ls (omega arith) ord) a
      b ai ab bc

-- With `-s`, and whatever other options are given, the files in use stand in the order of falling
-- size.
pub sort-ordered :
    (s : State)
    → memchr s.cnd b's' ≡ true
    → (a b : ℕ) → a < b
    → b < s.count
    → ((sort s).ls b).size ≤ ((sort s).ls a).size
unfolding sort
sort-ordered s e a b ab bc = rw e (
    OrderedTo-outer (s.count - 1) 0 s.count s.ls (omega arith) (λ a' b' z. absurd (omega arith)) a b
      (omega arith) ab bc)
