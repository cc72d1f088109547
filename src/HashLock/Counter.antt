-- ===== src/HashLock/Counter.antt =====
-- `number` of Pthread/hashlock.c, which `foo_alloc` counts up after it has given `hashlock` back, under the lock of
-- its own new object: no two callers take the same lock there, so the read and the write are two steps.
use linux_system_code.Common.{
  ℕ, zero, suc, ◌+◌, ◌-◌, ◌≡◌, ◌≢◌, ◌≤◌, refl, sym, ◌∙◌, ap, Bool, true, false, List, [], ◌∷◌, ltb,
  if◌then◌else◌, if_elim, arith,
}
use linux_system_code.Steps.{Result, ok, blocked, fault, Keeps, Keeps-if, Keeps-ok}

-- `inserted` counts the callers of `foo_alloc` between the two unlocks that have not read `number` yet, `read`
-- holds the values that the others have read, and `counted`, no part of the program, those that
-- have written.
pub record Counter : Type 0 where
  pub number : ℕ
  pub inserted : ℕ
  pub read : List ℕ
  pub counted : ℕ

abbrev pub start_number : Counter
start_number = record { number = 1; inserted = 0; read = []; counted = 0 }

pub data Event : Type 0 where
  insert : Event
  read_number : Event
  write_number : (k : ℕ) → Event  -- by the caller whose value stands at `k`

abbrev pub remove : ℕ → List ℕ → List ℕ
remove k [] = []
remove zero (v ∷ vs) = vs
remove (suc k) (v ∷ vs) = v ∷ remove k vs

-- `number = v + 1;`
unfoldable pub write_back : Counter → (k : ℕ) → (values : List ℕ) → Result Counter
write_back s k [] = blocked
write_back s zero (v ∷ vs) = ok (record s { number = v + 1; counted = s.counted + 1 })
write_back s (suc k) (v ∷ vs) = write_back s k vs

-- The values that are left after a write.
abbrev pub without_value : (k : ℕ) → Result Counter → Result Counter
without_value k (ok s) = ok (record s { read = remove k s.read })
without_value k blocked = blocked
without_value k fault = fault

unfoldable pub count_step : Counter → Event → Result Counter
count_step s insert = ok (record s { inserted = s.inserted + 1 })
count_step s read_number =
    if ltb 0 s.inserted
    then ok (record s { inserted = s.inserted - 1; read = s.number ∷ s.read })
    else blocked
count_step s (write_number k) = without_value k (write_back s k s.read)

abbrev pub runs : List Event → Result Counter → Result Counter
runs [] r = r
runs (e ∷ es) (ok s) = runs es (count_step s e)
runs (e ∷ es) blocked = blocked
runs (e ∷ es) fault = fault

-- Values between 1 and `top`.
abbrev pub All : (top : ℕ) → List ℕ → Type 0
All top [] = Unit
All top (v ∷ vs) = (1 ≤ v) × (v ≤ top) × All top vs

All-up : (top : ℕ) (vs : List ℕ) → All top vs → All (top + 1) vs
All-up top [] a = tt
All-up top (v ∷ vs) (low, high, a) = (low, omega (arith, high), All-up top vs a)

All-remove : (top k : ℕ) (vs : List ℕ) → All top vs → All top (remove k vs)
All-remove top k [] a = tt
All-remove top zero (v ∷ vs) (_, _, a) = a
All-remove top (suc k) (v ∷ vs) (low, high, a) = (low, high, All-remove top k vs a)

pub record Bounded (s : Counter) : Type 0 where
  pub low : 1 ≤ s.number
  pub some_counted : s.counted ≢ 0 → 2 ≤ s.number
  pub high : s.number ≤ s.counted + 1
  pub values : All (s.counted + 1) s.read

-- After the write, with the values not yet taken away.
write_back-Bounded :
    (s : Counter) (k : ℕ) (vs : List ℕ)
    → Bounded s
    → All (s.counted + 1) vs
    → Keeps Bounded (write_back s k vs)
unfolding write_back
write_back-Bounded s k [] b a = tt
write_back-Bounded s zero (v ∷ vs) b (low, high, a) = record {
  low = omega arith;
  some_counted = λ _. omega (arith, low);
  high = omega (arith, high);
  values = All-up (s.counted + 1) s.read b.values;
}
write_back-Bounded s (suc k) (v ∷ vs) b (low, high, a) = write_back-Bounded s k vs b a

without_value-Bounded :
    (k : ℕ) (r : Result Counter) → Keeps Bounded r → Keeps Bounded (without_value k r)
without_value-Bounded k (ok s) b = record {
  low = b.low;
  some_counted = b.some_counted;
  high = b.high;
  values = All-remove (s.counted + 1) k s.read b.values;
}
without_value-Bounded k blocked b = tt
without_value-Bounded k fault b = tt

step-Bounded : (s : Counter) (e : Event) → Bounded s → Keeps Bounded (count_step s e)
unfolding count_step
step-Bounded s insert b = record {
  low = b.low;
  some_counted = b.some_counted;
  high = b.high;
  values = b.values;
}
step-Bounded s read_number b =
    Keeps-if Bounded (ltb 0 s.inserted)
      (ok (record s { inserted = s.inserted - 1; read = s.number ∷ s.read }))
      (λ _. record {
        low = b.low;
        some_counted = b.some_counted;
        high = b.high;
        values = (b.low, b.high, b.values);
      })
step-Bounded s (write_number k) b =
    without_value-Bounded k (write_back s k s.read) (write_back-Bounded s k s.read b b.values)

runs-Bounded : (es : List Event) (r : Result Counter) → Keeps Bounded r → Keeps Bounded (runs es r)
runs-Bounded [] r b = b
runs-Bounded (e ∷ es) (ok s) b = runs-Bounded es (count_step s e) (step-Bounded s e b)
runs-Bounded (e ∷ es) blocked b = tt
runs-Bounded (e ∷ es) fault b = tt

-- No caller reads `number` between another's read and its write; `pending` says that one has read and not
-- yet written.
abbrev pub one_by_one : (pending : Bool) → List Event → Bool
one_by_one pending [] = true
one_by_one pending (insert ∷ es) = one_by_one pending es
one_by_one false (read_number ∷ es) = one_by_one true es
one_by_one true (read_number ∷ es) = false
one_by_one true (write_number zero ∷ es) = one_by_one false es
one_by_one true (write_number (suc k) ∷ es) = false
one_by_one false (write_number k ∷ es) = false

-- The value that the caller has read is the newest one in `read`, and still that of `number`.
abbrev Pending : Bool → Counter → Type 0
Pending false s = Unit
Pending true s = (vs : List ℕ) × (s.read ≡ s.number ∷ vs)

runs_blocked : (es : List Event) (t : Counter) → runs es blocked ≢ ok t
runs_blocked [] t e = cc
runs_blocked (e ∷ es) t d = cc

abbrev written : Counter → List ℕ → Counter
written s vs = record s { number = s.number + 1; counted = s.counted + 1; read = vs }

write_newest :
    (s : Counter) (vs : List ℕ)
    → s.read ≡ s.number ∷ vs
    → count_step s (write_number zero) ≡ ok (written s vs)
unfolding count_step write_back
write_newest s vs e =
    ap (λ (l : List ℕ). without_value zero (write_back s zero l)) e
    ∙ ap
        (λ (l : List ℕ).
          ok (record s { number = s.number + 1; counted = s.counted + 1; read = remove zero l }))
        e

one_by_one_counts :
    (pending : Bool) (es : List Event) (s t : Counter)
    → Pending pending s
    → s.number ≡ s.counted + 1
    → one_by_one pending es ≡ true
    → runs es (ok s) ≡ ok t
    → t.number ≡ t.counted + 1
unfolding count_step
one_by_one_counts pending [] s t p e q d = Keeps-ok (λ u. u.number ≡ u.counted + 1) (ok s) t e d
one_by_one_counts true (insert ∷ es) s t p e q d =
    one_by_one_counts true es (record s { inserted = s.inserted + 1 }) t p e q d
one_by_one_counts false (insert ∷ es) s t p e q d =
    one_by_one_counts false es (record s { inserted = s.inserted + 1 }) t tt e q d
one_by_one_counts true (read_number ∷ es) s t p e q d = cc
one_by_one_counts false (write_number k ∷ es) s t p e q d = cc
one_by_one_counts true (write_number (suc k) ∷ es) s t p e q d = cc
one_by_one_counts true (write_number zero ∷ es) s t (vs, p) e q d =
    one_by_one_counts false es (written s vs) t tt (ap (λ n. n + 1) e) q
      (ap (runs es) (sym (write_newest s vs p)) ∙ d)
one_by_one_counts false (read_number ∷ es) s t p e q d =
    let taken : Counter = record s { inserted = s.inserted - 1; read = s.number ∷ s.read } in
    if_elim (λ (r : Result Counter). runs es r ≡ ok t → t.number ≡ t.counted + 1) (ltb 0 s.inserted)
      (ok taken) blocked (λ _ d. one_by_one_counts true es taken t (s.read, refl) e q d)
      (λ _ d. absurd (runs_blocked es t d)) d

-- From the start on, after any steps of any callers of foo_alloc, number is at most one more than the
-- callers that have counted, and at least 2 if there are any; and it is exactly one more when no
-- caller reads it between another's read and write, whoever inserts meanwhile.
pub number_bounds :
    (es : List Event) (t : Counter)
    → runs es (ok start_number) ≡ ok t
    → (t.number ≤ t.counted + 1)
      × (t.counted ≢ 0 → 2 ≤ t.number)
      × (one_by_one false es ≡ true → t.number ≡ t.counted + 1)
number_bounds es t e =
    let first : Bounded start_number = record {
      low = omega arith;
      some_counted = λ d. absurd (d refl);
      high = omega arith;
      values = tt;
    } in
    let b =
      Keeps-ok Bounded (runs es (ok start_number)) t (runs-Bounded es (ok start_number) first) e in
    (b.high, b.some_counted, λ q. one_by_one_counts false es start_number t tt refl q e)
