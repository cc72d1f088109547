-- ===== src/Processes.antt =====
-- What a process does until it goes on with its caller's code, as a tree: `fork` gives it two branches.
-- `E` is what it does that others see, `S` what it goes on with, and `A` says which program it has been
-- replaced by.
use linux_system_code.Common.{◌≡◌, refl, ap, ℕ, zero, suc, List, [], ◌∷◌, ◌++◌}

module _ (E S A : Type 0) where
  pub data Run : Type 0 where
    returns : S → Run
    exits : (status : ℕ) → Run
    execs : A → Run  -- `execvp` has replaced the program
    undefined : Run
    out_of_fuel : Run
    does : E → Run → Run
    forks : (child parent : Run) → Run

-- Both branches of a `fork` go on when they return.
infixl 5 ◌>>=◌
abbrev pub ◌>>=◌ : {E S T A : Type 0} → Run E S A → (S → Run E T A) → Run E T A
returns s >>= f = f s
exits n >>= f = exits n
execs a >>= f = execs a
undefined >>= f = undefined
out_of_fuel >>= f = out_of_fuel
does e r >>= f = does e (r >>= f)
forks c p >>= f = forks (c >>= f) (p >>= f)

module _ {E S A : Type 0} where
  -- The programs that are run; those of children come first.
  abbrev pub programs : Run E S A → List A
  programs (execs a) = a ∷ []
  programs (does e r) = programs r
  programs (forks c p) = programs c ++ programs p
  programs _ = []

  -- The processes that go on with the caller's code.
  abbrev pub going_on : Run E S A → List S
  going_on (returns s) = s ∷ []
  going_on (does e r) = going_on r
  going_on (forks c p) = going_on c ++ going_on p
  going_on _ = []

  -- How the process itself ends, not those that it makes.
  abbrev pub ending : Run E S A → Run E S A
  ending (does e r) = ending r
  ending (forks c p) = ending p
  ending r = r

  -- What the process itself does.
  abbrev pub events : Run E S A → List E
  events (does e r) = e ∷ events r
  events (forks c p) = events p
  events _ = []

  abbrev pub repeated : ℕ → E → Run E S A → Run E S A
  repeated zero e r = r
  repeated (suc n) e r = does e (repeated n e r)

cons_events : {E : Type 0} (e : E) (es fs : List E) → es ≡ fs → e ∷ es ≡ e ∷ fs
cons_events e es fs q = ap (λ xs. e ∷ xs) q

-- What follows a process that returns comes behind what it does, and ends as the whole.
pub bind-returns :
    {E S T A : Type 0} (r : Run E S A) (f : S → Run E T A) (s : S)
    → ending r ≡ returns s
    → (events (r >>= f) ≡ events r ++ events (f s)) × (ending (r >>= f) ≡ ending (f s))
bind-returns (returns s') f s e = let same : s' ≡ s = cc in rw same (refl, refl)
bind-returns (exits n) f s e = cc
bind-returns (execs a) f s e = cc
bind-returns undefined f s e = cc
bind-returns out_of_fuel f s e = cc
bind-returns (does d r) f s e = let (p, q) = bind-returns r f s e in (cons_events d _ _ p, q)
bind-returns (forks c p) f s e = bind-returns p f s e
