-- ===== src/Futures/Laws.antt =====
-- What the manager does with a future from `Add` to `Exec`, and the mutex in `GetTTE`.
use beryldb.Prelude.{
  ℕ, zero, suc, ◌≡◌, refl, sym, ◌∙◌, Bool, true, false, none, some, [], ◌++◌, map, Str, arith,
  Option-cases, List-cases, inl, inr, str_eq_refl,
}
use mathlib.Core.List.{append-nil}
use beryldb.Machine.{ret, fault, relock, ◌>>=◌, to_int}
use beryldb.Machine.ℤ.{pos}
use beryldb.Stl.Timed.{insert, find_first, erase_found, take_before, below, InOrder}
use beryldb.Stl.TimedLaws.{
  take_before-below, passing, find_first-none, passing-find_first, find_first-insert,
  passing-erase_found, erase_found-none,
}
use beryldb.Futures.{
  FutureEntry, FutureMap, FutureManager, lock, unlock, get_futures, is_for, erased, delete,
  time_result, get_time, new_entry, add_from, add, find, push_all, future_execute, flush, get_tte,
  get_val, exec,
}

-- `GetTTE` never returns: it takes the mutex and takes it again, whatever the state is.
pub get_tte_relock :
    (database : ℕ) (key : Str) (select : ℕ) (s : FutureManager)
    → get_tte database key select s ≡ fault relock
unfolding get_tte get_time get_futures lock
get_tte_relock database key select s = ground arith

-- The number of futures of a key.
unfoldable pub futures_of : ℕ → Str → ℕ → FutureManager → ℕ
futures_of database key select s = passing (is_for database key select) s.future_list

module _ (s : FutureManager) (free : s.mute ≡ false) where
  get_futures_lem : get_futures s ≡ ret s
  unfolding get_futures
  get_futures_lem = ground arith

  pub delete_lem :
      (database : ℕ) (key : Str) (select : ℕ)
      → delete database key select s
        ≡ ret (erased s (erase_found (is_for database key select) s.future_list))
  unfolding delete lock unlock erase_found
  delete_lem database key select = elim (List-cases s.future_list) [
    | inl e ↦ ground (arith, get_futures_lem)
    | inr (x, l, e) ↦ elim (Option-cases (erase_found (is_for database key select) s.future_list)) [
      | inl n ↦ ground (arith, get_futures_lem)
      | inr (m, n) ↦ ground (arith, get_futures_lem)
    ]
  ]

  get_time_lem :
      (database : ℕ) (key : Str) (select : ℕ)
      → get_time database key select s
        ≡ ret (s, time_result (find_first (is_for database key select) s.future_list))
  unfolding get_time lock unlock
  get_time_lem database key select = ground (arith, get_futures_lem)

  add_from_fresh :
      (database schedule : ℕ) (key value : Str) (select : ℕ) (epoch : Bool) (now : ℕ)
      → futures_of database key select s ≡ 0
      → add_from database schedule key value select epoch now s
        ≡ ret (
          record s {
            future_list =
                insert
                  (new_entry database schedule key select epoch now).schedule
                  (new_entry database schedule key select epoch now)
                  s.future_list;
          },
          to_int (new_entry database schedule key select epoch now).schedule,
        )
  unfolding add_from futures_of time_result lock unlock
  add_from_fresh database schedule key value select epoch now h =
      let p = is_for database key select in
      rw (get_time_lem database key select, find_first-none p s.future_list h) (ground arith)

-- Where the mutex is free and the map is in the order of its times, `Flush` pushes a
-- `future_exec_query` for exactly the entries whose time is below the given one, in the order of the
-- map, and the map stays.
pub flush-below_futures :
    (time : ℕ) (s : FutureManager)
    → s.mute ≡ false
    → InOrder s.future_list
    → flush time s
      ≡ ret (record s { pushed = s.pushed ++ map future_execute (below time s.future_list) })
unfolding flush push_all take_before
flush-below_futures time s free o =
    let same = take_before-below time s.future_list o in
    elim (List-cases s.future_list) [
      | inl e ↦ ground (arith, get_futures_lem s free, append-nil s.pushed, same)
      | inr (x, l, e) ↦ ground (arith, get_futures_lem s free, same)
    ]

-- Where the mutex is free and a key has no future, `GetVal` after `Add` with a schedule that is not
-- negative gives the 1 of a future that is found and the empty string, whatever value `Add` was
-- given.
pub add-get_val :
    (s : FutureManager) (database schedule : ℕ) (key value : Str) (select : ℕ) (epoch : Bool)
    (now : ℕ)
    → s.mute ≡ false
    → futures_of database key select s ≡ 0
    → (add database (pos schedule) key value select epoch now s >>= λ r.
        get_val database key select r.0 >>= λ v. ret v.1)
      ≡ ret (1, [])
unfolding add get_val find new_entry futures_of
add-get_val s database schedule key value select epoch now free h =
    let e = new_entry database schedule key select epoch now in
    let p = is_for database key select in
    let s' : FutureManager = record s { future_list = insert e.schedule e s.future_list } in
    let same : p e ≡ true = ground (arith, str_eq_refl key) in
    rw
      (
        add_from_fresh s free database schedule key value select epoch now h,
        get_futures_lem s' free,
        find_first-insert p e.schedule e s.future_list h same,
      )
      refl

found-erased :
    (p : FutureEntry → Bool) (l : FutureMap) (x : ℕ × FutureEntry)
    → find_first p l ≡ some x
    → erase_found p l ≡ none
    → ⊥
found-erased p l x f n =
    let f' : none ≡ some x = sym (find_first-none p l (erase_found-none p l n)) ∙ f in cc

-- What is left of the key's futures, with the answer.
pub left_after : ℕ → Str → ℕ → FutureManager × Bool → ℕ × Bool
unfolding futures_of
left_after database key select (s, b) = (futures_of database key select s, b)

pub take_one : ℕ → ℕ × Bool
take_one zero = (0, false)
take_one (suc n) = (n, true)

-- Where the mutex is free, `Exec` answers true for a key that has a future and leaves it with one
-- fewer, and it answers false for a key that has none, which still has none.
pub exec-futures_of :
    (s : FutureManager) (database : ℕ) (key : Str) (select : ℕ)
    → s.mute ≡ false
    → (exec database key select s >>= λ r. ret (left_after database key select r))
      ≡ ret (take_one (futures_of database key select s))
unfolding exec find futures_of erased left_after take_one find_first
exec-futures_of s database key select free =
    let p = is_for database key select in
    let at = get_futures_lem s free in
    let del = delete_lem s free database key select in
    elim (Option-cases (find_first p s.future_list)) [
      | inl f ↦ let none_left = passing-find_first p s.future_list f in rw (at, f, none_left) refl
      | inr ((t, e), f) ↦ elim (Option-cases (erase_found p s.future_list)) [
        | inl n ↦ elim (found-erased p s.future_list (t, e) f n) [ ]
        | inr (m, n) ↦
            let one = passing-erase_found p s.future_list m n in rw (at, f, del, n, one) refl
      ]
    ]
