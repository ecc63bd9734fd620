-- ===== src/Expires/Laws.antt =====
-- What the manager promises of its timers: `Add`, `GetTIME`, `Flush`, the counts and the databases.
use beryldb.Prelude.{
  ℕ, suc, ◌+◌, ◌%◌, ◌<◌, ◌≤◌, ◌≡◌, refl, ap, ◌∙◌, Bool, true, false, Option, some, [], ◌∷◌, ◌++◌,
  map, Str, arith, Bool-cases, Option-cases, inl, inr, str_eq, str_eq_iff, str_eq_refl,
}
use beryldb.Machine.{ret, ◌>>=◌, to_int, incr32, u32_mod}
use beryldb.Machine.ℤ.{pos}
use beryldb.Stl.Timed.{find_first, erase_found, below, InOrder}
use beryldb.Stl.TimedLaws.{
  take_before-below, passing, passing-insert, passing-find_first, find_first-insert,
  find_first-insert_other, passing-erase_found, erase_found-none, passing-erase_if,
  find_first-erase_found_other,
}
use beryldb.Expires.{
  ExpireEntry, ExpireMap, ExpireManager, is_for, of_database, of_select, erased, time_result,
  get_time, is_positive, new_entry, add, push_all, expire_delete, flush, lock, unlock,
  database_destroy, count, count_loop,
}
use beryldb.Expires.Mutex.{
  added, cleared, add_from_lem, get_time_lem, flush_lem, erase_lem, get_expires_lem,
}

-- The number of timers of a key.
unfoldable pub timers : ℕ → Str → ℕ → ExpireManager → ℕ
timers database key select s = passing (is_for database key select) s.expire_list

-- The times are those that `GetTIME` reports as greater than 0.
abbrev pub IsDated : ExpireMap → Type 0
IsDated [] = Unit
IsDated ((time, e) ∷ l) = (is_positive (to_int time) ≡ true) × IsDated l

module _ (database schedule : ℕ) (key : Str) (select : ℕ) (epoch : Bool) (now : ℕ) where
  is_for-new_entry :
      is_for database key select (new_entry database schedule key select epoch now) ≡ true
  unfolding new_entry
  is_for-new_entry = ground (arith, str_eq_refl key)

find_first-IsDated :
    (p : ExpireEntry → Bool) (l : ExpireMap) (time : ℕ) (e : ExpireEntry)
    → IsDated l
    → find_first p l ≡ some (time, e)
    → is_positive (to_int time) ≡ true
unfolding find_first
find_first-IsDated p [] time e d h = cc
find_first-IsDated p ((t, a) ∷ l) time e d h = ground (arith, find_first-IsDated p l time e d.1)

module _ (s : ExpireManager) (free : s.mute ≡ false) where
  passing-cleared :
      (database : ℕ) (key : Str) (select : ℕ)
      → IsDated s.expire_list
      → timers database key select s ≤ 1
      → passing (is_for database key select) (cleared s free database key select) ≡ 0
  unfolding timers cleared erased time_result
  passing-cleared database key select d h =
      let p = is_for database key select in
      elim (Option-cases (erase_found p s.expire_list)) [
        | inl n ↦ ground (arith, erase_found-none p s.expire_list n)
        | inr (m, n) ↦ elim (Option-cases (find_first p s.expire_list)) [
          | inl f ↦ ground (arith, passing-find_first p s.expire_list f)
          | inr ((t, e), f) ↦
              let positive = find_first-IsDated p s.expire_list t e d f in
              let one = passing-erase_found p s.expire_list m n in ground (arith, positive, one)
        ]
      ]

is_for-other :
    (database : ℕ) (key : Str) (select : ℕ) (other : Str) (e : ExpireEntry)
    → str_eq key other ≡ false
    → is_for database key select e ≡ true
    → is_for database other select e ≡ false
is_for-other database key select other e h t = elim (Bool-cases (str_eq e.key key)) [
  | inl same ↦
      let equal : e.key ≡ key = (str_eq_iff e.key key).0 same in
      let differ : str_eq e.key other ≡ false = ap (λ k. str_eq k other) equal ∙ h in
      ground (arith, differ)
  | inr differ ↦ ground arith
]

module _ (s : ExpireManager) (free : s.mute ≡ false) where
  find_first-cleared :
      (database : ℕ) (key : Str) (select : ℕ) (other : Str)
      → str_eq key other ≡ false
      → find_first (is_for database other select) (cleared s free database key select)
        ≡ find_first (is_for database other select) s.expire_list
  unfolding cleared erased
  find_first-cleared database key select other h =
      let p = is_for database key select in
      let q = is_for database other select in
      elim (Option-cases (erase_found p s.expire_list)) [
        | inl n ↦ ground arith
        | inr (m, n) ↦
            let apart = λ (e : ExpireEntry). is_for-other database key select other e h in
            let same = find_first-erase_found_other p q s.expire_list m apart n in
            ground (arith, same)
      ]

module _ (s : ExpireManager) (free : s.mute ≡ false) (database schedule : ℕ) (key : Str)
    (select : ℕ) (epoch : Bool) (now : ℕ) where
  -- Where the mutex is free, the times of the map are positive ints and the key has one timer at most,
  -- `Add` with a schedule that is not negative followed by `GetTIME` gives the time that was set.
  pub add-get_time :
      IsDated s.expire_list
      → timers database key select s ≤ 1
      → (add database (pos schedule) key select epoch now s >>= λ r.
          get_time database key select r.0 >>= λ t. ret t.1)
        ≡ ret (to_int (new_entry database schedule key select epoch now).schedule)
  unfolding add added time_result
  add-get_time d h =
      let e = new_entry database schedule key select epoch now in
      let l = cleared s free database key select in
      let p = is_for database key select in
      let s' = added s l e in
      rw
        (
          add_from_lem s free database schedule key select epoch now,
          get_time_lem s' free database key select,
          find_first-insert p e.schedule e l (passing-cleared s free database key select d h)
              (is_for-new_entry database schedule key select epoch now),
        )
        refl

  -- Where the mutex is free, the times of the map are positive ints and the key has one timer at most,
  -- the key has exactly one timer after `Add` with a schedule that is not negative.
  pub timers-add :
      IsDated s.expire_list
      → timers database key select s ≤ 1
      → (add database (pos schedule) key select epoch now s >>= λ r.
          ret (timers database key select r.0))
        ≡ ret 1
  unfolding add added timers
  timers-add d h =
      let e = new_entry database schedule key select epoch now in
      let l = cleared s free database key select in
      let p = is_for database key select in
      let s' = added s l e in
      rw
        (
          add_from_lem s free database schedule key select epoch now,
          passing-insert p e.schedule e l,
          passing-cleared s free database key select d h,
          is_for-new_entry database schedule key select epoch now,
        )
        refl

  -- Where the mutex is free, `Add` with a schedule that is not negative leaves what `GetTIME` gives for
  -- the other keys of the same database and select as it is.
  pub add-get_time_other :
      (other : Str)
      → str_eq key other ≡ false
      → (add database (pos schedule) key select epoch now s >>= λ r.
          get_time database other select r.0 >>= λ t. ret t.1)
        ≡ (get_time database other select s >>= λ t. ret t.1)
  unfolding add added new_entry
  add-get_time_other other h =
      let e = new_entry database schedule key select epoch now in
      let l = cleared s free database key select in
      let q = is_for database other select in
      let s' = added s l e in
      let apart : q e ≡ false = ground (arith, h) in
      rw
        (
          add_from_lem s free database schedule key select epoch now,
          get_time_lem s' free database other select,
          get_time_lem s free database other select,
          find_first-insert_other q e.schedule e l apart,
          find_first-cleared s free database key select other h,
        )
        refl

-- Where the mutex is free and the map is in the order of its times, `Flush` pushes a `del_query` for
-- exactly the entries whose time is below the given one, in the order of the map, and the map stays.
pub flush-below :
    (time : ℕ) (s : ExpireManager)
    → s.mute ≡ false
    → InOrder s.expire_list
    → flush time s
      ≡ ret (record s { pushed = s.pushed ++ map expire_delete (below time s.expire_list) })
unfolding push_all
flush-below time s free o = rw (flush_lem s free time, take_before-below time s.expire_list o) refl

-- Where the mutex is free and the database is found, no timer of the database is left after
-- `DatabaseDestroy`.
pub database_destroy-passing :
    (dbm : Str → Option ℕ) (dbname : Str) (database : ℕ) (s : ExpireManager)
    → s.mute ≡ false
    → dbm dbname ≡ some database
    → (database_destroy dbm dbname s >>= λ s'. ret (passing (of_database database) s'.expire_list))
      ≡ ret 0
database_destroy-passing dbm dbname database s free e =
    rw
      (
        erase_lem s free dbm dbname database e,
        passing-erase_if (of_database database) s.expire_list,
      )
      refl

count_loop_lem :
    (p : ExpireEntry → Bool) (counter : ℕ) (l : ExpireMap)
    → counter < u32_mod
    → count_loop p counter l ≡ (counter + passing p l) % u32_mod
unfolding count_loop passing
count_loop_lem p counter [] h = omega arith
count_loop_lem p counter ((t, e) ∷ l) h = elim (Bool-cases (p e)) [
  | inl y ↦
      let bound : incr32 counter < u32_mod = omega arith in
      let rest = count_loop_lem p (incr32 counter) l bound in rw (y, rest) (omega arith)
  | inr n ↦ rw (n, count_loop_lem p counter l h) refl
]

-- Where the mutex is free and the database is found, `Count` gives the number of timers of the select
-- of the database as an unsigned int, and the state is as before.
pub count-passing :
    (dbm : Str → Option ℕ) (dbname : Str) (database select : ℕ) (s : ExpireManager)
    → s.mute ≡ false
    → dbm dbname ≡ some database
    → (count dbm dbname select s >>= λ r. ret r.1)
      ≡ ret (passing (of_select select database) s.expire_list % u32_mod)
unfolding count lock unlock
count-passing dbm dbname database select s free e =
    let p = of_select select database in
    let bound : 0 < u32_mod = omega arith in
    rw (get_expires_lem s free, e, free, count_loop_lem p 0 s.expire_list bound)
      (ap (λ n. ret n) (omega arith))

-- Where the mutex is free and `GetTIME` gives no time above 0 for the key (it has no timer, or its
-- first one has time 0 or a time that is not a positive int), `Add` replaces nothing: the key has one
-- timer more afterwards, however many it had.
pub timers-add_duplicate :
    (s : ExpireManager) (database schedule : ℕ) (key : Str) (select : ℕ) (epoch : Bool) (now : ℕ)
    → s.mute ≡ false
    → is_positive (time_result (find_first (is_for database key select) s.expire_list)) ≡ false
    → (add database (pos schedule) key select epoch now s >>= λ r.
        ret (timers database key select r.0))
      ≡ ret (suc (timers database key select s))
unfolding add added timers cleared
timers-add_duplicate s database schedule key select epoch now free h =
    let e = new_entry database schedule key select epoch now in
    let p = is_for database key select in
    rw
      (
        add_from_lem s free database schedule key select epoch now,
        h,
        passing-insert p e.schedule e s.expire_list,
        is_for-new_entry database schedule key select epoch now,
      )
      (ap (λ n. ret n) (omega arith))
