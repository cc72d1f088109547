-- ===== src/HashLock/Table.antt =====
-- The table of Pthread/hashlock.c as 29 lists of objects.
use linux_system_code.Common.{
  ℕ, ◌≡◌, ◌≢◌, ◌<◌, refl, sym, ap, ◌∙◌, none, some, [], ◌∷◌, true, false, ◌==◌, ◌⊎◌, arith,
  if◌then◌else◌, if_elim, Bool-cases, inl, inr,
}
use linux_system_code.Store.{Store, Cells, null, node, write, first, has, Chain}
use linux_system_code.Store.Chains.{Chain-write, not-has_of_none, write_self}
use linux_system_code.HashLock.{nhash, hash, Foo, State, set_bucket, foo_alloc, hold}

-- Each bucket heads the chain of its objects, and no object is in two of them.
pub record IsTable (s : State) (cells : ℕ → Cells Foo) : Type 0 where
  pub chain : (i : ℕ) → Chain s.foos (cells i)
  pub heads : (i : ℕ) → s.fh i ≡ first (cells i)
  pub apart : (i j a : ℕ) → has a (cells i) ≡ true → has a (cells j) ≡ true → i ≡ j

hash_bound : (id : ℕ) → hash id < nhash
hash_bound id = omega arith

module _ (s : State) (cells : ℕ → Cells Foo) (table : IsTable s cells) where
  module _ (fp id : ℕ) (nonnull : fp ≢ null) (unused : s.foos fp ≡ none) where
    abbrev pub inserted : ℕ → Cells Foo
    inserted i = if hash id == i then (fp, record { f_count = 1; f_id = id }) ∷ cells i else cells i

    abbrev after : State
    after = record {
      fh = set_bucket s.fh (hash id) fp;
      foos = write s.foos fp (some (node (record { f_count = 1; f_id = id }) (s.fh (hash id))));
    }

    out : (i : ℕ) → has fp (cells i) ≡ false
    out i = not-has_of_none s.foos (cells i) fp unused (table.chain i)

    kept : (i : ℕ) → Chain after.foos (cells i)
    kept i = Chain-write s.foos (cells i) fp _ (out i) (table.chain i)

    has-inserted :
        (i a : ℕ)
        → has a (inserted i) ≡ true
        → (has a (cells i) ≡ true) ⊎ ((a ≡ fp) × (hash id ≡ i))
    has-inserted i a =
        if_elim
          (λ (xs : Cells Foo).
            has a xs ≡ true → (has a (cells i) ≡ true) ⊎ ((a ≡ fp) × (hash id ≡ i)))
          (hash id == i) ((fp, record { f_count = 1; f_id = id }) ∷ cells i) (cells i)
          (λ e p. elim (Bool-cases (a == fp)) [
            | inl q ↦ inr (ground arith, ground arith)
            | inr q ↦ inl (ground arith)
          ])
          (λ e p. inl p)

    apart-inserted : (i j a : ℕ) → has a (inserted i) ≡ true → has a (inserted j) ≡ true → i ≡ j
    apart-inserted i j a p q = elim (has-inserted i a p) [
      | inl x ↦ elim (has-inserted j a q) [
        | inl y ↦ table.apart i j a x y
        | inr (y, z) ↦ let o : has a (cells i) ≡ false = rw y (out i) in ground arith
      ]
      | inr (x, w) ↦ elim (has-inserted j a q) [
        | inl y ↦ let o : has a (cells j) ≡ false = rw x (out j) in ground arith
        | inr (y, z) ↦ sym w ∙ z
      ]
    ]

    IsTable-inserted : IsTable after inserted
    IsTable-inserted = record {
      chain = λ i.
          if_elim (λ (xs : Cells Foo). Chain after.foos xs) (hash id == i)
            ((fp, record { f_count = 1; f_id = id }) ∷ cells i) (cells i)
            (λ e.
              let same : hash id ≡ i = ground arith in
              (
                nonnull,
                write_self s.foos fp _
                    ∙ ap (λ h. some (node (record { f_count = 1; f_id = id }) h))
                        (ap s.fh same ∙ table.heads i),
                out i,
                kept i,
              ))
            (λ _. kept i);
      heads = λ i. elim (Bool-cases (hash id == i)) [
        | inl e ↦ rw e refl
        | inr e ↦ rw e (table.heads i)
      ];
      apart = apart-inserted;
    }

    -- foo_alloc, when malloc returns a new address and the lock can be made, returns that address, and
    -- puts an object with the count 1 in front of the bucket HASH(id), one of the 29; the other buckets are as before.
    pub foo_alloc-inserts :
        (hash id < nhash) × (t : State) × (foo_alloc s fp 0 id ≡ (fp, t)) × IsTable t inserted
    unfolding foo_alloc
    foo_alloc-inserts =
        let new : (fp == null) ≡ false = ground arith in
        (hash_bound id, after, rw new refl, IsTable-inserted)

-- The object at `fp` is held once more.
abbrev pub held : ℕ → Cells Foo → Cells Foo
held fp [] = []
held fp ((a, v) ∷ xs) = if fp == a then (a, hold v) ∷ xs else (a, v) ∷ held fp xs

-- The empty table.
abbrev pub empty : State
empty = record { fh = λ _. null; foos = λ _. none }

pub IsTable-empty : IsTable empty (λ _. [])
IsTable-empty = record { chain = λ i. tt; heads = λ i. refl; apart = λ i j a p q. cc }
