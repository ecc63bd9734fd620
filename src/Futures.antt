-- ===== src/Futures.antt =====
-- include/brldb/futures.h and src/brldb/futures.cpp: `FutureManager`, the keys that are set later, by time.
-- As for the expiring keys, the state holds the multimap, whether the mutex is taken, and the queries that
-- were pushed to the store's queue (`GlobalHelper::FutureExecute` and `FutureGlobalCancel` of
-- src/managers/globals.cpp), the newest last. The clock, and the database that `DBM->Find` gives for a name,
-- are arguments; a database is a number, as a pointer is. A time is a number that is not negative.
pub mod Laws
pub mod Tests
use beryldb.Prelude.{
  ℕ, ◌+◌, Bool, true, false, not, ◌&&◌, Option, none, some, List, [], ◌∷◌, ◌++◌, map, Str, ◌==◌,
  str_eq, if◌then◌else◌, length, ltb,
}
use beryldb.Machine.{Outcome, ret, fault, relock, ◌>>=◌, ℤ, to_int, incr32, to_u32}
use beryldb.Machine.ℤ.{pos, negsuc}
use beryldb.Stl.{is_nil}
use beryldb.Stl.Timed.{insert, find_first, erase_found, erase_if, select_if, take_before}

pub record FutureEntry : Type 0 where
  pub schedule : ℕ
  pub added : ℕ
  pub epoch : Bool
  pub secs : ℕ
  pub select : ℕ
  pub key : Str
  pub value : Str
  pub database : ℕ

abbrev pub FutureMap : Type 0
FutureMap = List (ℕ × FutureEntry)

-- A pushed query: its class, and the database, select and key that it is about.
pub data Push : Type 0 where
  future_exec_query future_del_query : ℕ → ℕ → Str → Push

pub record FutureManager : Type 0 where
  pub future_list : FutureMap
  pub mute : Bool
  pub pushed : List Push

pub lock : FutureManager → Outcome FutureManager
lock s = if s.mute then fault relock else ret (record s { mute = true })

-- The end of the scope of a lock_guard.
pub unlock : FutureManager → FutureManager
unlock s = record s { mute = false }

-- The mutex is taken and released again; the map is returned by reference.
pub get_futures : FutureManager → Outcome FutureManager
unfolding lock unlock
get_futures s = do s1 ← lock s; ret (unlock s1)

-- The entry is about the key.
abbrev pub is_for : ℕ → Str → ℕ → FutureEntry → Bool
is_for database key select e = str_eq e.key key && e.select == select && e.database == database

abbrev pub of_database : ℕ → FutureEntry → Bool
of_database database e = e.database == database

pub erased : FutureManager → Option FutureMap → FutureManager × Bool
erased s none = (s, false)
erased s (some l) = (record s { future_list = l }, true)

pub delete : ℕ → Str → ℕ → FutureManager → Outcome (FutureManager × Bool)
unfolding get_futures erased
delete database key select s = do
  s1 ← get_futures s
  if is_nil s1.future_list then ret (s1, false) else do
    s2 ← lock s1
    let r = erased s2 (erase_found (is_for database key select) s2.future_list)
    ret (unlock r.0, r.1)

-- `it->first` as a signed int, and -1 where nothing is found.
unfoldable pub time_result : Option (ℕ × FutureEntry) → ℤ
unfolding to_int
time_result none = negsuc 0
time_result (some (time, e)) = to_int time

pub get_time : ℕ → Str → ℕ → FutureManager → Outcome (FutureManager × ℤ)
unfolding get_futures time_result
get_time database key select s = do
  s1 ← get_futures s
  s2 ← lock s1
  ret (unlock s2, time_result (find_first (is_for database key select) s2.future_list))

abbrev pub is_positive : ℤ → Bool
is_positive (pos n) = ltb 0 n
is_positive (negsuc n) = false

-- The value that `Add` is given is not stored.
pub new_entry : ℕ → ℕ → Str → ℕ → Bool → ℕ → FutureEntry
new_entry database schedule key select epoch now = record {
  schedule = if epoch then schedule else now + schedule;
  added = now;
  epoch = epoch;
  secs = schedule;
  select = select;
  key = key;
  value = [];
  database = database;
}

-- `Add` once the schedule is known not to be negative.
pub add_from : ℕ → ℕ → Str → Str → ℕ → Bool → ℕ → FutureManager → Outcome (FutureManager × ℤ)
unfolding delete get_time new_entry
add_from database schedule key value select epoch now s = do
  (s1, time) ← get_time database key select s
  (s2, _) ← if is_positive time then delete database key select s1 else ret (s1, false)
  s3 ← lock s2
  let e = new_entry database schedule key select epoch now
  ret (unlock (record s3 { future_list = insert e.schedule e s3.future_list }), to_int e.schedule)

pub add : ℕ → ℤ → Str → Str → ℕ → Bool → ℕ → FutureManager → Outcome (FutureManager × ℤ)
unfolding add_from
add database (negsuc n) key value select epoch now s = ret (s, negsuc 0)
add database (pos schedule) key value select epoch now s =
    add_from database schedule key value select epoch now s

-- `none` is the exception.
pub find : ℕ → Str → ℕ → FutureManager → Outcome (FutureManager × Option FutureEntry)
unfolding get_futures
find database key select s = do
  s1 ← get_futures s
  ret (
    s1,
    elim (find_first (is_for database key select) s1.future_list) [
      | none ↦ none
      | some (time, e) ↦ some e
    ],
  )

pub push_all : List Push → FutureManager → FutureManager
push_all queries s = record s { pushed = s.pushed ++ queries }

pub future_execute : FutureEntry → Push
future_execute e = future_exec_query e.database e.select e.key

pub future_cancel : FutureEntry → Push
future_cancel e = future_del_query e.database e.select e.key

pub flush : ℕ → FutureManager → Outcome FutureManager
unfolding get_futures push_all future_execute
flush time s = do
  s1 ← get_futures s
  let queries = map future_execute (take_before time s1.future_list)
  ret (if is_nil s1.future_list then s1 else push_all queries s1)

-- The mutex is taken here and once more in `get_time`.
pub get_tte : ℕ → Str → ℕ → FutureManager → Outcome (FutureManager × ℤ)
unfolding get_time
get_tte database key select s = do
  s1 ← lock s
  (s2, time) ← get_time database key select s1
  ret (unlock s2, time)

-- A database that closes takes its entries out of the map.
pub pre_db_close : (Str → Option ℕ) → Str → FutureManager → Outcome FutureManager
unfolding get_futures
pre_db_close dbm dbname s = do
  s1 ← get_futures s
  if is_nil s1.future_list then ret s1 else elim (dbm dbname) [
    | none ↦ ret s1
    | some database ↦ do
      s2 ← lock s1
      ret (unlock (record s2 { future_list = erase_if (of_database database) s2.future_list }))
  ]

pub database_destroy : (Str → Option ℕ) → Str → FutureManager → Outcome FutureManager
unfolding get_futures
database_destroy dbm dbname s = do
  s1 ← get_futures s
  if is_nil s1.future_list then ret s1 else elim (dbm dbname) [
    | none ↦ ret s1
    | some database ↦ do
      s2 ← lock s1
      ret (unlock (record s2 { future_list = erase_if (of_database database) s2.future_list }))
  ]

-- The loop of the resets: a query for each entry that passes the test, and their number.
pub count_loop : (FutureEntry → Bool) → ℕ → FutureMap → ℕ
count_loop p counter [] = counter
count_loop p counter ((time, e) ∷ l) = count_loop p (if p e then incr32 counter else counter) l

pub cancel_if : (FutureEntry → Bool) → FutureManager → FutureManager × ℕ
cancel_if p s =
    (push_all (map future_cancel (select_if p s.future_list)) s, count_loop p 0 s.future_list)

abbrev pub of_select : ℕ → ℕ → FutureEntry → Bool
of_select select database e = e.select == select && e.database == database

pub cancel_locked : (FutureEntry → Bool) → FutureManager → Outcome (FutureManager × ℕ)
unfolding cancel_if count_loop push_all future_cancel lock unlock
cancel_locked p s = do s1 ← lock s; let r = cancel_if p s1; ret (unlock r.0, r.1)

pub database_reset : (Str → Option ℕ) → Str → FutureManager → Outcome (FutureManager × ℕ)
unfolding get_futures cancel_locked
database_reset dbm dbname s = do
  s1 ← get_futures s
  if is_nil s1.future_list then ret (s1, 0) else elim (dbm dbname) [
    | none ↦ ret (s1, 0)
    | some database ↦ cancel_locked (of_database database) s1
  ]

pub select_reset : (Str → Option ℕ) → Str → ℕ → FutureManager → Outcome (FutureManager × ℕ)
unfolding get_futures cancel_locked
select_reset dbm dbname select s = do
  s1 ← get_futures s
  elim (dbm dbname) [
    | none ↦ ret (s1, 0)
    | some database ↦ cancel_locked (of_select select database) s1
  ]

pub reset : FutureManager → Outcome FutureManager
unfolding get_futures cancel_locked
reset s = do
  s1 ← get_futures s
  if is_nil s1.future_list then ret s1 else do r ← cancel_locked (λ e. true) s1; ret r.0

-- The mutex is not taken.
pub count_all : FutureManager → ℕ
count_all s = to_u32 (length s.future_list)

pub count : ℕ → ℕ → FutureManager → Outcome (FutureManager × ℕ)
unfolding get_futures count_loop
count database select s = do
  s1 ← get_futures s
  ret (s1, count_loop (of_select select database) 0 s1.future_list)

pub get_val : ℕ → Str → ℕ → FutureManager → Outcome (FutureManager × (ℕ × Str))
unfolding find
get_val database key select s = do
  (s1, found) ← find database key select s
  ret (s1, elim found [ none ↦ (0, []) | some e ↦ (1, e.value) ])

-- The entry is taken out; the caller sets the key.
pub exec : ℕ → Str → ℕ → FutureManager → Outcome (FutureManager × Bool)
unfolding find delete
exec database key select s = do
  (s1, found) ← find database key select s
  elim found [
    | none ↦ ret (s1, false)
    | some e ↦ do (s2, _) ← delete database key select s1; ret (s2, true)
  ]
