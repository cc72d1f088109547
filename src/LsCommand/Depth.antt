-- ===== src/LsCommand/Depth.antt =====
-- The recursion of `do_ls` and `ls_R` in ls_command/ls.3.c is at most one call deep.
use linux_system_code.Common.{
  ℕ, suc, ◌≡◌, ◌≢◌, refl, Bool, true, false, Option, none, some, List, [], ◌∷◌, if◌then◌else◌, inl,
  inr, ◌⊎◌,
}
use linux_system_code.LsCommand.{
  Text, State, Stat, Os, Result, ok, undefined, out_of_fuel, ◌>>=◌, DirName, pathname_of, read_name,
  print_pathname, print_filename, Nested, in_directory, with_stat, ls_R, visible_entry, other_entry,
  each_entry, do_ls,
}
use linux_system_code.LsCommand.Records.{nested_first}

nested_names :
    (os : Os) (nested : Nested) (s : State) (o : Option (List Text))
    → (in_directory os nested (pathname_of s.count) s o ≡ ok s)
      ⊎ (in_directory os nested (pathname_of s.count) s o ≡ undefined)
unfolding in_directory each_entry
nested_names os nested s none = inl refl
nested_names os nested s (some []) = inl refl
nested_names os nested s (some (name ∷ names)) = inr (nested_first os nested name names s)

-- A function that `ls_R` may call for `do_ls` without running out of fuel.
abbrev Ends : Nested → Type 0
Ends nested = (s : State) → nested (pathname_of s.count) s ≢ out_of_fuel

do_ls-Ends : (fuel : ℕ) (os : Os) → Ends (do_ls (suc fuel) os)
unfolding do_ls
do_ls-Ends fuel os s e =
    elim (nested_names os (do_ls fuel os) s (os.opendir (read_name s (pathname_of s.count)))) [
      | inl d ↦ cc
      | inr d ↦ cc
    ]

then_ends :
    {A B : Type 0} (m : Result A) (f : A → Result B)
    → m ≢ out_of_fuel
    → ((a : A) → f a ≢ out_of_fuel)
    → (m >>= f) ≢ out_of_fuel
then_ends (ok a) f h k e = k a e
then_ends undefined f h k e = cc
then_ends out_of_fuel f h k e = h refl

ok-ne : {A : Type 0} (a : A) → ok a ≢ out_of_fuel
ok-ne a e = cc

undefined-ne : {A : Type 0} → ◌≢◌ {A = Result A} undefined out_of_fuel
undefined-ne e = cc

if_ends :
    {A : Type 0} (b : Bool) (x y : Result A)
    → x ≢ out_of_fuel
    → y ≢ out_of_fuel
    → (if b then x else y) ≢ out_of_fuel
if_ends true x y h k = h
if_ends false x y h k = k

print_pathname_ends :
    (s : State) (dir : DirName) (file : Text) → print_pathname s dir file ≢ out_of_fuel
unfolding print_pathname
print_pathname_ends s dir file = if_ends _ _ _ (ok-ne _) undefined-ne

print_filename_ends : (s : State) (file : Text) → print_filename s file ≢ out_of_fuel
unfolding print_filename
print_filename_ends s file = if_ends _ _ _ (ok-ne _) undefined-ne

module _ (os : Os) (nested : Nested) (ends : Ends nested) where
  with_stat_ends : (s : State) (o : Option Stat) → with_stat nested s o ≢ out_of_fuel
  unfolding with_stat
  with_stat_ends s none = ok-ne _
  with_stat_ends s (some info) = if_ends _ _ _ (if_ends _ _ _ (ok-ne _) (ends _)) (ok-ne _)

  entry_ends :
      (dir : DirName) (name : Text) (s : State) → visible_entry os nested dir name s ≢ out_of_fuel
  unfolding visible_entry ls_R
  entry_ends dir name s = then_ends _ _ (print_pathname_ends s dir name) λ s.
      then_ends _ _ (print_filename_ends s name)
        λ s. then_ends _ _ (print_pathname_ends s dir name) λ s. with_stat_ends s _

  other_ends :
      (dir : DirName) (name : Text) (s : State) → other_entry os nested dir name s ≢ out_of_fuel
  unfolding other_entry visible_entry
  other_ends dir name s = entry_ends dir name s

  each_entry_ends :
      (dir : DirName) (names : List Text) (s : State)
      → each_entry os nested dir names s ≢ out_of_fuel
  unfolding each_entry
  each_entry_ends dir [] s = ok-ne _
  each_entry_ends dir (name ∷ names) s =
      then_ends _ _ (if_ends _ _ _ (entry_ends dir name s) (other_ends dir name s))
        (each_entry_ends dir names)

-- For every directory tree and every option, fuel for two calls of do_ls is enough: a call from ls_R either
-- meets no entry, or is undefined at its first one.
do_ls-ends :
    (fuel : ℕ) (os : Os) (dir : DirName) (s : State) → do_ls (suc (suc fuel)) os dir s ≢ out_of_fuel
unfolding do_ls in_directory
do_ls-ends fuel os dir s = by_answer (os.opendir (read_name s dir))
  where
    by_answer :
        (o : Option (List Text)) → in_directory os (do_ls (suc fuel) os) dir s o ≢ out_of_fuel
    by_answer none = ok-ne _
    by_answer (some names) =
        each_entry_ends os (do_ls (suc fuel) os) (do_ls-Ends fuel os) dir names s
