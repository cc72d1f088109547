-- ===== src/Store/Chains.antt =====
-- Chains under the writes that Pthread/*.c makes: a node put before or behind, one taken off.
use mathlib.Core.Bool.{false≢true}
use linux_system_code.Common.{
  ℕ, suc, ◌≡◌, ◌≢◌, refl, true, false, ◌||◌, Option, none, some, List, [], ◌∷◌, ◌++◌, ap, sym, ◌∙◌,
  arith, ◌==◌, length,
}
use linux_system_code.Store.{
  Node, Store, Cells, null, node, write, load, first, last, has, values, Chain,
}

module _ {ℓ} {A : Type ℓ} where
  pub has-append :
      (a : ℕ) (xs : Cells A) (b : ℕ) (v : A) → has a (xs ++ (b, v) ∷ []) ≡ (has a xs || (a == b))
  has-append a [] b v = ground arith
  has-append a (x ∷ xs) b v = ground (arith, has-append a xs b v)

  pub values-append :
      (xs : Cells A) (b : ℕ) (v : A) → values (xs ++ (b, v) ∷ []) ≡ values xs ++ v ∷ []
  values-append [] b v = refl
  values-append ((a, w) ∷ xs) b v = ap (λ (t : List A). w ∷ t) (values-append xs b v)

  pub length-values : (xs : Cells A) → length (values xs) ≡ length xs
  length-values [] = refl
  length-values (x ∷ xs) = ap suc (length-values xs)

  pub last-append : (xs : Cells A) (b : ℕ) (v : A) → last (xs ++ (b, v) ∷ []) ≡ b
  last-append [] b v = refl
  last-append (x ∷ []) b v = refl
  last-append (x ∷ y ∷ xs) b v = last-append (y ∷ xs) b v

  pub first-append :
      (x : ℕ × A) (xs : Cells A) (b : ℕ) (v : A) → first ((x ∷ xs) ++ (b, v) ∷ []) ≡ x.0
  first-append x xs b v = refl

  -- A chain survives a write to an address that is none of its own.
  pub Chain-write :
      (h : Store A) (xs : Cells A) (a : ℕ) (c : Option (Node A))
      → has a xs ≡ false
      → Chain h xs
      → Chain (write h a c) xs
  unfolding write
  Chain-write h [] a c out k = tt
  Chain-write h ((b, v) ∷ xs) a c out k =
      (k.0, ground arith, k.2, Chain-write h xs a c (ground arith) k.3)

  -- Addresses that are not allocated are none of a chain's.
  pub not-has_of_none :
      (h : Store A) (xs : Cells A) (a : ℕ) → h a ≡ none → Chain h xs → has a xs ≡ false
  not-has_of_none h [] a e k = refl
  not-has_of_none h ((b, v) ∷ xs) a e k = ground (arith, not-has_of_none h xs a e k.3)

  -- The last node of a chain is allocated and points to NULL.
  pub load-last :
      (h : Store A) (x : ℕ × A) (xs : Cells A)
      → Chain h (x ∷ xs)
      → (v : A) × (load h (last (x ∷ xs)) ≡ some (node v null))
  load-last h (a, v) [] k = (v, ground arith)
  load-last h x (y ∷ xs) k = load-last h y xs k.3

  pub has-last : (x : ℕ × A) (xs : Cells A) → has (last (x ∷ xs)) (x ∷ xs) ≡ true
  has-last (a, v) [] = ground arith
  has-last x (y ∷ xs) = ground (arith, has-last y xs)

module _ {A : Type 0} where
  pub write_ne : (h : Store A) (a b : ℕ) (c : Option (Node A)) → a ≢ b → write h a c b ≡ h b
  unfolding write
  write_ne h a b c ne = ground arith

  pub write_self : (h : Store A) (a : ℕ) (c : Option (Node A)) → write h a c a ≡ c
  unfolding write
  write_self h a c = ground arith

  -- An address outside a chain is not that of its last node.
  pub last-ne : (a : ℕ) (x : ℕ × A) (xs : Cells A) → has a (x ∷ xs) ≡ false → last (x ∷ xs) ≢ a
  last-ne a x xs out e = false≢true (sym out ∙ ap (λ t. has t (x ∷ xs)) (sym e) ∙ has-last x xs)

  -- `tail->next = fresh` on a chain that ends in `tail`, with the node at `fresh` filled in before.
  pub Chain-snoc :
      (h : Store A) (x : ℕ × A) (xs : Cells A) (fresh : ℕ) (v w : A)
      → fresh ≢ null
      → h fresh ≡ some (node v null)
      → has fresh (x ∷ xs) ≡ false
      → load h (last (x ∷ xs)) ≡ some (node w null)
      → Chain h (x ∷ xs)
      → Chain (write h (last (x ∷ xs)) (some (node w fresh))) ((x ∷ xs) ++ (fresh, v) ∷ [])
  unfolding write
  Chain-snoc h (a, u) [] fresh v w ne e out t k =
      (k.0, ground arith, ground arith, (ground arith, ground arith, refl, tt))
  Chain-snoc h (a, u) (y ∷ xs) fresh v w ne e out t k = (
    k.0,
    write_ne h (last (y ∷ xs)) a _ (last-ne a y xs k.2) ∙ k.1,
    has-append a (y ∷ xs) fresh v ∙ ground arith,
    Chain-snoc h y xs fresh v w ne e (ground arith) t k.3,
  )
