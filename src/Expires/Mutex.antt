-- ===== src/Expires/Mutex.antt =====
-- What each method of the manager computes when the mutex is free, and what the mutex does to them.
use beryldb.Prelude.{
  ℕ, ◌≡◌, refl, Bool, true, false, Option, none, some, map, Str, arith, if◌then◌else◌, Bool-cases,
  Option-cases, List-cases, inl, inr,
}
use mathlib.Core.List.{append-nil}
use beryldb.Machine.{Outcome, ret, fault, relock, ◌>>=◌, ℤ, to_int}
use beryldb.Machine.ℤ.{pos, negsuc}
use beryldb.Stl.{is_nil}
use beryldb.Stl.Timed.{insert, find_first, erase_found, erase_if, take_before, InOrder}
use beryldb.Stl.TimedLaws.{insert-InOrder, erase_if-InOrder, erase_found-InOrder}
use beryldb.Expires.{
  ExpireEntry, ExpireMap, ExpireManager, lock, unlock, get_expires, is_for, of_database, of_select,
  erased, delete, time_result, get_time, is_positive, new_entry, add_from, add, find, push_all,
  expire_delete, flush, get_ttl, pre_db_close, database_destroy, persist_if, persist_locked,
  database_reset, select_reset, reset, count,
}

-- `GetTTL` never returns: it takes the mutex and takes it again, whatever the state is.
pub get_ttl_relock :
    (database : ℕ) (key : Str) (select : ℕ) (s : ExpireManager)
    → get_ttl database key select s ≡ fault relock
unfolding get_ttl get_time get_expires lock
get_ttl_relock database key select s = ground arith

module _ (s : ExpireManager) (free : s.mute ≡ false) where
  pub get_expires_lem : get_expires s ≡ ret s
  unfolding get_expires
  get_expires_lem = ground arith

  pub delete_lem :
      (database : ℕ) (key : Str) (select : ℕ)
      → delete database key select s
        ≡ ret (erased s (erase_found (is_for database key select) s.expire_list))
  unfolding delete lock unlock erase_found
  delete_lem database key select = elim (List-cases s.expire_list) [
    | inl e ↦ ground (arith, get_expires_lem)
    | inr (x, l, e) ↦ elim (Option-cases (erase_found (is_for database key select) s.expire_list)) [
      | inl n ↦ ground (arith, get_expires_lem)
      | inr (m, n) ↦ ground (arith, get_expires_lem)
    ]
  ]

  pub get_time_lem :
      (database : ℕ) (key : Str) (select : ℕ)
      → get_time database key select s
        ≡ ret (s, time_result (find_first (is_for database key select) s.expire_list))
  unfolding get_time lock unlock
  get_time_lem database key select = ground (arith, get_expires_lem)

  -- The map after the entry that `Add` replaces is taken out.
  unfoldable pub cleared : ℕ → Str → ℕ → ExpireMap
  cleared database key select =
      if is_positive (time_result (find_first (is_for database key select) s.expire_list))
      then (erased s (erase_found (is_for database key select) s.expire_list)).0.expire_list
      else s.expire_list

  erased-mute : (o : Option ExpireMap) → (erased s o).0.mute ≡ false
  unfolding erased
  erased-mute none = free
  erased-mute (some l) = free

unfoldable pub added : ExpireManager → ExpireMap → ExpireEntry → ExpireManager
added s l e = record s { expire_list = insert e.schedule e l }

module _ (s : ExpireManager) (free : s.mute ≡ false) where
  pub add_from_lem :
      (database schedule : ℕ) (key : Str) (select : ℕ) (epoch : Bool) (now : ℕ)
      → add_from database schedule key select epoch now s
        ≡ ret (
          added s
              (cleared s free database key select)
              (new_entry database schedule key select epoch now),
          to_int (new_entry database schedule key select epoch now).schedule,
        )
  unfolding add_from lock unlock added cleared erased
  add_from_lem database schedule key select epoch now =
      elim (Option-cases (erase_found (is_for database key select) s.expire_list)) [
        | inl e ↦
            ground (
              arith,
              get_time_lem s free database key select,
              delete_lem s free database key select,
            )
        | inr (m, e) ↦
            ground (
              arith,
              get_time_lem s free database key select,
              delete_lem s free database key select,
            )
      ]

  pub flush_lem :
      (time : ℕ)
      → flush time s ≡ ret (push_all (map expire_delete (take_before time s.expire_list)) s)
  unfolding flush push_all take_before
  flush_lem time = elim (List-cases s.expire_list) [
    | inl e ↦ ground (arith, get_expires_lem s free, append-nil s.pushed)
    | inr (x, l, e) ↦ ground (arith, get_expires_lem s free)
  ]

  pub erase_lem :
      (dbm : Str → Option ℕ) (dbname : Str) (database : ℕ)
      → dbm dbname ≡ some database
      → database_destroy dbm dbname s
        ≡ ret (record s { expire_list = erase_if (of_database database) s.expire_list })
  unfolding database_destroy lock unlock erase_if
  erase_lem dbm dbname database e = elim (List-cases s.expire_list) [
    | inl n ↦ ground (arith, get_expires_lem s free)
    | inr (x, l, n) ↦ ground (arith, get_expires_lem s free)
  ]

  pub erase_lem_none :
      (dbm : Str → Option ℕ) (dbname : Str)
      → dbm dbname ≡ none
      → database_destroy dbm dbname s ≡ ret s
  unfolding database_destroy
  erase_lem_none dbm dbname e = elim (List-cases s.expire_list) [
    | inl n ↦ ground (arith, get_expires_lem s free)
    | inr (x, l, n) ↦ ground (arith, get_expires_lem s free)
  ]

  pub persist_locked_lem : (p : ExpireEntry → Bool) → persist_locked p s ≡ ret (persist_if p s)
  unfolding persist_locked
  persist_locked_lem p = ground arith

-- The methods as data, with the clock and the name lookup that they are given.
pub data Call : Type 0 where
  deletes gets_time finds : ℕ → Str → ℕ → Call
  adds : ℕ → ℤ → Str → ℕ → Bool → ℕ → Call
  flushes : ℕ → Call
  closes destroys resets_database : Str → Call
  resets_select counts : Str → ℕ → Call
  resets : Call

-- The state after a call, for the calls that also have a result.
abbrev pub state_of {ℓ} : {A : Type ℓ} → Outcome (ExpireManager × A) → Outcome ExpireManager
state_of m = m >>= λ r. ret r.0

pub step : (Str → Option ℕ) → Call → ExpireManager → Outcome ExpireManager
step dbm (deletes database key select) s = state_of (delete database key select s)
step dbm (gets_time database key select) s = state_of (get_time database key select s)
step dbm (finds database key select) s = state_of (find database key select s)
step dbm (adds database schedule key select epoch now) s =
    state_of (add database schedule key select epoch now s)
step dbm (flushes time) s = flush time s
step dbm (closes dbname) s = pre_db_close dbm dbname s
step dbm (destroys dbname) s = database_destroy dbm dbname s
step dbm (resets_database dbname) s = state_of (database_reset dbm dbname s)
step dbm (resets_select dbname select) s = state_of (select_reset dbm dbname select s)
step dbm (counts dbname select) s = state_of (count dbm dbname select s)
step dbm resets s = reset s

-- The call returned, the mutex is free and the map is in the order of its times.
abbrev pub IsSound : ExpireManager → Type 0
IsSound s = (s.mute ≡ false) × InOrder s.expire_list

abbrev pub Returns : Outcome ExpireManager → Type 0
Returns (ret s) = IsSound s
Returns (fault e) = ⊥

erased-InOrder :
    (s : ExpireManager) (p : ExpireEntry → Bool)
    → InOrder s.expire_list
    → InOrder (erased s (erase_found p s.expire_list)).0.expire_list
unfolding erased
erased-InOrder s p o = elim (Option-cases (erase_found p s.expire_list)) [
  | inl e ↦ rw (e, erased) o
  | inr (l, e) ↦ rw (e, erased) (erase_found-InOrder p s.expire_list l e o)
]

module _ (s : ExpireManager) (v : IsSound s) where
  pub cleared-InOrder :
      (database : ℕ) (key : Str) (select : ℕ) → InOrder (cleared s v.0 database key select)
  unfolding cleared
  cleared-InOrder database key select =
      let found = find_first (is_for database key select) s.expire_list in
      elim (Bool-cases (is_positive (time_result found))) [
        | inl e ↦ rw e (erased-InOrder s (is_for database key select) v.1)
        | inr e ↦ rw e v.1
      ]

  add-Returns :
      (database schedule : ℕ) (key : Str) (select : ℕ) (epoch : Bool) (now : ℕ)
      → Returns (state_of (add_from database schedule key select epoch now s))
  unfolding added
  add-Returns database schedule key select epoch now =
      let e = new_entry database schedule key select epoch now in
      let l = cleared s v.0 database key select in
      rw (add_from_lem s v.0 database schedule key select epoch now)
        (v.0, insert-InOrder e.schedule e l (cleared-InOrder database key select))

module _ (dbm : Str → Option ℕ) (s : ExpireManager) (v : IsSound s) where
  erase-Returns : (dbname : Str) → Returns (database_destroy dbm dbname s)
  erase-Returns dbname = elim (Option-cases (dbm dbname)) [
    | inl e ↦ rw (erase_lem_none s v.0 dbm dbname e) v
    | inr (database, e) ↦
        rw (erase_lem s v.0 dbm dbname database e)
          (v.0, erase_if-InOrder (of_database database) s.expire_list v.1)
  ]

-- The two handlers of a database that goes away are the same.
pub pre_db_close-database_destroy :
    (dbm : Str → Option ℕ) (dbname : Str) (s : ExpireManager)
    → pre_db_close dbm dbname s ≡ database_destroy dbm dbname s
unfolding pre_db_close database_destroy
pre_db_close-database_destroy dbm dbname s = refl

module _ (dbm : Str → Option ℕ) (s : ExpireManager) (v : IsSound s) where
  deletes-Returns :
      (database : ℕ) (key : Str) (select : ℕ) → Returns (state_of (delete database key select s))
  deletes-Returns database key select = rw (delete_lem s v.0 database key select) (
    erased-mute s v.0 (erase_found (is_for database key select) s.expire_list),
    erased-InOrder s (is_for database key select) v.1,
  )

  persist_locked-Returns : (p : ExpireEntry → Bool) → Returns (state_of (persist_locked p s))
  unfolding persist_if push_all
  persist_locked-Returns p = rw (persist_locked_lem s v.0 p) v

  database_reset-Returns : (dbname : Str) → Returns (state_of (database_reset dbm dbname s))
  unfolding database_reset
  database_reset-Returns dbname =
      rw (get_expires_lem s v.0) elim (Bool-cases (is_nil s.expire_list)) [
        | inl n ↦ rw n v
        | inr n ↦ rw n elim (Option-cases (dbm dbname)) [
          | inl e ↦ rw e v
          | inr (database, e) ↦ rw e (persist_locked-Returns (of_database database))
        ]
      ]

  select_reset-Returns :
      (dbname : Str) (select : ℕ) → Returns (state_of (select_reset dbm dbname select s))
  unfolding select_reset
  select_reset-Returns dbname select =
      rw (get_expires_lem s v.0) elim (Bool-cases (is_nil s.expire_list)) [
        | inl n ↦ rw n v
        | inr n ↦ rw n elim (Option-cases (dbm dbname)) [
          | inl e ↦ rw e v
          | inr (database, e) ↦ rw e (persist_locked-Returns (of_select select database))
        ]
      ]

  count-Returns : (dbname : Str) (select : ℕ) → Returns (state_of (count dbm dbname select s))
  unfolding count lock unlock
  count-Returns dbname select = elim (Option-cases (dbm dbname)) [
    | inl e ↦ ground (arith, get_expires_lem s v.0)
    | inr (database, e) ↦ ground (arith, get_expires_lem s v.0)
  ]

  reset-Returns : Returns (reset s)
  unfolding reset persist_if push_all
  reset-Returns = rw (get_expires_lem s v.0) elim (Bool-cases (is_nil s.expire_list)) [
    | inl n ↦ rw n v
    | inr n ↦ rw (n, persist_locked_lem s v.0 (λ e. true)) v
  ]

  -- From a state whose mutex is free and whose map is in the order of its times, every method but
  -- `GetTTL` returns, frees the mutex again and leaves the map in order.
  pub step-Returns : (c : Call) → Returns (step dbm c s)
  unfolding step find add flush get_time push_all
  step-Returns (deletes database key select) = deletes-Returns database key select
  step-Returns (gets_time database key select) = rw (get_time_lem s v.0 database key select) v
  step-Returns (finds database key select) = rw (get_expires_lem s v.0) v
  step-Returns (adds database (pos n) key select epoch now) =
      add-Returns s v database n key select epoch now
  step-Returns (adds database (negsuc n) key select epoch now) = v
  step-Returns (flushes time) = rw (flush_lem s v.0 time) v
  step-Returns (closes dbname) =
      rw (pre_db_close-database_destroy dbm dbname s) (erase-Returns dbm s v dbname)
  step-Returns (destroys dbname) = erase-Returns dbm s v dbname
  step-Returns (resets_database dbname) = database_reset-Returns dbname
  step-Returns (resets_select dbname select) = select_reset-Returns dbname select
  step-Returns (counts dbname select) = count-Returns dbname select
  step-Returns resets = reset-Returns
