-- ===== src/Store.antt =====
-- The store of `malloc`ed list nodes that Pthread/*.c links by their `next` fields: a payload and a
-- successor at each allocated address. Address 0 is NULL.
pub mod Chains
use linux_system_code.Common.{
  ℕ, ◌≡◌, ◌≢◌, Bool, false, ◌||◌, Option, none, some, List, [], ◌∷◌, ◌==◌, if◌then◌else◌, is_none,
}

module _ {ℓ} (A : Type ℓ) where
  pub record Node : Type ℓ where
    pub value : A
    pub next : ℕ

  abbrev pub Store : Type ℓ
  Store = ℕ → Option Node

  -- What a chain stands for: the address and the payload of each node, in order.
  abbrev pub Cells : Type ℓ
  Cells = List (ℕ × A)

abbrev pub null : ℕ
null = 0

module _ {ℓ} {A : Type ℓ} where
  abbrev pub node : A → ℕ → Node A
  node v n = record { value = v; next = n }

  unfoldable pub write : Store A → ℕ → Option (Node A) → Store A
  write h a c b = if a == b then c else h b

  -- A read or a write through NULL or through an address that is not allocated is a fault.
  abbrev pub load : Store A → ℕ → Option (Node A)
  load h a = if a == null then none else h a

  -- `malloc` returns NULL or an address that is not allocated.
  abbrev pub malloc_can_return : Store A → ℕ → Bool
  malloc_can_return h a = (a == null) || is_none (h a)

  abbrev pub first : Cells A → ℕ
  first [] = null
  first ((a, _) ∷ xs) = a

  abbrev pub last : Cells A → ℕ
  last [] = null
  last ((a, _) ∷ []) = a
  last (x ∷ y ∷ xs) = last (y ∷ xs)

  abbrev pub has : ℕ → Cells A → Bool
  has a [] = false
  has a ((b, _) ∷ xs) = (a == b) || has a xs

  abbrev pub values : Cells A → List A
  values [] = []
  values ((_, v) ∷ xs) = v ∷ values xs

  -- The nodes `xs` are allocated at distinct addresses, each pointing to the next one, the last one
  -- to NULL.
  abbrev pub Chain : Store A → Cells A → Type ℓ
  Chain h [] = Unit
  Chain h ((a, v) ∷ xs) =
      (a ≢ null) × (h a ≡ some (node v (first xs))) × (has a xs ≡ false) × Chain h xs
