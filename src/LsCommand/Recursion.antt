-- ===== src/LsCommand/Recursion.antt =====
-- The option R of ls_command/ls.3.c: `do_ls` calls itself with the array that it prints to.
use linux_system_code.Common.{
  ℕ, suc, ◌+◌, ◌≡◌, refl, ◌∙◌, true, some, List, [], ◌∷◌, ◌++◌, arith, inl, inr,
}
use linux_system_code.LsCommand.{
  Text, State, Stat, Os, ok, undefined, memchr, slash, text, pathname_of, read_name, is_dir,
  in_directory, with_stat, ls_R, visible_entry, each_entry, do_ls,
}
use linux_system_code.LsCommand.Records.{
  nested_first, each_entry-append, printed, named, stored, print_pathname-cases,
  print_filename-cases, with_stat_dir, one_branch,
}

module _ (fuel : ℕ) (os : Os) (dir name first : Text) (inner : List Text) (s : State) (info : Stat)
    (r : memchr s.cnd b'R' ≡ true) (stat : os.lstat (slash dir name) ≡ some info)
    (isdir : is_dir info.st_mode ≡ true)
    (inside : os.opendir (slash dir name) ≡ some (first ∷ inner))
    (empty : (s.ls (s.count + 1)).filename ≡ []) where
  abbrev path : Text
  path = slash dir name

  abbrev third : State
  third = printed (named (printed s path) name) path

  third_path : (third.ls third.count).pathname ≡ path
  third_path = ground arith

  third_name : (third.ls third.count).filename ≡ []
  third_name = ground arith

  inner_call :
      (t : State)
      → (t.ls t.count).pathname ≡ path
      → do_ls (suc fuel) os (pathname_of t.count) t ≡ undefined
  unfolding do_ls read_name in_directory
  inner_call t e = rw (e, inside) (nested_first os (do_ls fuel os) first inner t)

  with_stat_undefined :
      with_stat (do_ls (suc fuel) os) third (os.lstat (third.ls third.count).pathname) ≡ undefined
  with_stat_undefined =
      rw (third_path, stat)
        (with_stat_dir (do_ls (suc fuel) os) third info r isdir third_name
          ∙ inner_call (stored third info) (ground arith))

  entry_undefined : visible_entry os (do_ls (suc fuel) os) (text dir) name s ≡ undefined
  unfolding visible_entry ls_R
  entry_undefined = elim (print_pathname-cases s dir name) [
    | inr d ↦ rw d refl
    | inl d ↦ elim (print_filename-cases (printed s path) name) [
      | inr e ↦ rw (d, e) refl
      | inl e ↦ elim (print_pathname-cases (named (printed s path) name) dir name) [
        | inr f ↦ rw (d, e, f) refl
        | inl f ↦ rw (d, e, f) with_stat_undefined
      ]
    ]
  ]

-- With the option R, once do_ls meets an entry that is a directory, can be opened and has an entry
-- itself, its behaviour is undefined: `before` stands for the entries that it has passed, s' for the records then, and the
-- record after the next, which is not in use, has no name yet.
pub do_ls-undefined :
    (fuel : ℕ) (os : Os) (dir : Text) (before after inner : List Text) (name first : Text)
    (s s' : State) (info : Stat)
    → os.opendir dir ≡ some (before ++ name ∷ after)
    → each_entry os (do_ls (suc fuel) os) (text dir) before s ≡ ok s'
    → memchr s'.cnd b'R' ≡ true
    → os.lstat (slash dir name) ≡ some info
    → is_dir info.st_mode ≡ true
    → os.opendir (slash dir name) ≡ some (first ∷ inner)
    → (s'.ls (s'.count + 1)).filename ≡ []
    → do_ls (suc (suc fuel)) os (text dir) s ≡ undefined
unfolding do_ls in_directory read_name each_entry
do_ls-undefined fuel os dir before after inner name first s s' info opened passed r stat isdir
      inside empty =
    opendir_names opened (
      each_entry-append os (do_ls (suc fuel) os) (text dir) before (name ∷ after) s
      ∙ rw passed rest)
  where
    rest : each_entry os (do_ls (suc fuel) os) (text dir) (name ∷ after) s' ≡ undefined
    rest =
        rw
          (
            one_branch os (do_ls (suc fuel) os) (text dir) _ name s',
            entry_undefined fuel os dir name first inner s' info r stat isdir inside empty,
          )
          refl

    opendir_names :
        {names : List Text}
        → os.opendir dir ≡ some names
        → each_entry os (do_ls (suc fuel) os) (text dir) names s ≡ undefined
        → do_ls (suc (suc fuel)) os (text dir) s ≡ undefined
    opendir_names e h = rw e h
