-- ===== src/Steps.antt =====
-- The steps of programs with several threads: what a step can lead to, and predicates on it.
use mathlib.Core.Path.{subst}
use linux_system_code.Common.{◌≡◌, refl, Bool, true, false, if◌then◌else◌}

-- A step ends in a state, does not happen (`blocked`: no thread stands there), or reads or writes
-- through NULL or a freed node.
pub data Result (S : Type 0) : Type 0 where
  ok : S → Result S
  blocked : Result S
  fault : Result S

module _ {S : Type 0} (P : S → Type 0) where
  -- If the step ends in a state, then in one with `P`.
  abbrev pub Keeps : Result S → Type 0
  Keeps (ok t) = P t
  Keeps blocked = Unit
  Keeps fault = Unit

  pub Keeps-if : (b : Bool) (r : Result S) → (b ≡ true → Keeps r) → Keeps (if b then r else blocked)
  Keeps-if true r k = k refl
  Keeps-if false r k = tt

  pub Keeps-ok : (r : Result S) (t : S) → Keeps r → r ≡ ok t → P t
  Keeps-ok r t k e = subst Keeps e k
