-- ===== src/Expires.antt =====
-- include/brldb/expires.h and src/brldb/expires.cpp: `ExpireManager`, the keys that expire, by time.
-- The state holds the multimap, whether the mutex is taken, and the queries that were pushed to the
-- store's queue (`ExpireHelper::Persist` of src/managers/expires.cpp and `GlobalHelper::ExpireDelete` of
-- src/managers/globals.cpp), the newest last. The clock, and the database that `DBM->Find` gives for a
-- name, are arguments; a database is a number, as a pointer is. A time is a number that is not negative.
pub mod Laws
pub mod Live
pub mod Mutex
pub mod Tests
use beryldb.Prelude.{
  ℕ, ◌+◌, Bool, true, false, not, ◌&&◌, Option, none, some, List, [], ◌∷◌, ◌++◌, map, Str, ◌==◌,
  str_eq, if◌then◌else◌, length, ltb,
}
use beryldb.Machine.{Outcome, ret, fault, relock, ◌>>=◌, ℤ, to_int, incr32, to_u32}
use beryldb.Machine.ℤ.{pos, negsuc}
use beryldb.Stl.{is_nil}
use beryldb.Stl.Timed.{insert, find_first, erase_found, erase_if, select_if, take_before}

pub record ExpireEntry : Type 0 where
  pub schedule : ℕ
  pub added : ℕ
  pub epoch : Bool
  pub secs : ℕ
  pub select : ℕ
  pub key : Str
  pub database : ℕ

abbrev pub ExpireMap : Type 0
ExpireMap = List (ℕ × ExpireEntry)

-- A pushed query: its class, and the database, select and key that it is about.
pub data Push : Type 0 where
  del_query expire_del_query : ℕ → ℕ → Str → Push

pub record ExpireManager : Type 0 where
  pub expire_list : ExpireMap
  pub mute : Bool
  pub pushed : List Push

pub lock : ExpireManager → Outcome ExpireManager
lock s = if s.mute then fault relock else ret (record s { mute = true })

-- The end of the scope of a lock_guard.
pub unlock : ExpireManager → ExpireManager
unlock s = record s { mute = false }

-- The mutex is taken and released again; the map is returned by reference.
pub get_expires : ExpireManager → Outcome ExpireManager
unfolding lock unlock
get_expires s = do s1 ← lock s; ret (unlock s1)

-- The entry is about the key.
abbrev pub is_for : ℕ → Str → ℕ → ExpireEntry → Bool
is_for database key select e = str_eq e.key key && e.select == select && e.database == database

abbrev pub of_database : ℕ → ExpireEntry → Bool
of_database database e = e.database == database

pub erased : ExpireManager → Option ExpireMap → ExpireManager × Bool
erased s none = (s, false)
erased s (some l) = (record s { expire_list = l }, true)

pub delete : ℕ → Str → ℕ → ExpireManager → Outcome (ExpireManager × Bool)
unfolding get_expires erased
delete database key select s = do
  s1 ← get_expires s
  if is_nil s1.expire_list then ret (s1, false) else do
    s2 ← lock s1
    let r = erased s2 (erase_found (is_for database key select) s2.expire_list)
    ret (unlock r.0, r.1)

-- `it->first` as a signed int, and -1 where nothing is found.
unfoldable pub time_result : Option (ℕ × ExpireEntry) → ℤ
unfolding to_int
time_result none = negsuc 0
time_result (some (time, e)) = to_int time

pub get_time : ℕ → Str → ℕ → ExpireManager → Outcome (ExpireManager × ℤ)
unfolding get_expires time_result
get_time database key select s = do
  s1 ← get_expires s
  s2 ← lock s1
  ret (unlock s2, time_result (find_first (is_for database key select) s2.expire_list))

abbrev pub is_positive : ℤ → Bool
is_positive (pos n) = ltb 0 n
is_positive (negsuc n) = false

pub new_entry : ℕ → ℕ → Str → ℕ → Bool → ℕ → ExpireEntry
new_entry database schedule key select epoch now = record {
  schedule = if epoch then schedule else now + schedule;
  added = now;
  epoch = epoch;
  secs = schedule;
  select = select;
  key = key;
  database = database;
}

-- `Add` once the schedule is known not to be negative.
unfoldable pub add_from : ℕ → ℕ → Str → ℕ → Bool → ℕ → ExpireManager → Outcome (ExpireManager × ℤ)
unfolding delete get_time new_entry
add_from database schedule key select epoch now s = do
  (s1, time) ← get_time database key select s
  (s2, _) ← if is_positive time then delete database key select s1 else ret (s1, false)
  s3 ← lock s2
  let e = new_entry database schedule key select epoch now
  ret (unlock (record s3 { expire_list = insert e.schedule e s3.expire_list }), to_int e.schedule)

unfoldable pub add : ℕ → ℤ → Str → ℕ → Bool → ℕ → ExpireManager → Outcome (ExpireManager × ℤ)
unfolding add_from
add database (negsuc n) key select epoch now s = ret (s, negsuc 0)
add database (pos schedule) key select epoch now s =
    add_from database schedule key select epoch now s

-- `none` is the exception.
pub find : ℕ → Str → ℕ → ExpireManager → Outcome (ExpireManager × Option ExpireEntry)
unfolding get_expires
find database key select s = do
  s1 ← get_expires s
  ret (
    s1,
    elim (find_first (is_for database key select) s1.expire_list) [
      | none ↦ none
      | some (time, e) ↦ some e
    ],
  )

pub push_all : List Push → ExpireManager → ExpireManager
push_all queries s = record s { pushed = s.pushed ++ queries }

pub expire_delete : ExpireEntry → Push
expire_delete e = del_query e.database e.select e.key

pub persist : ExpireEntry → Push
persist e = expire_del_query e.database e.select e.key

pub flush : ℕ → ExpireManager → Outcome ExpireManager
unfolding get_expires push_all expire_delete
flush time s = do
  s1 ← get_expires s
  let queries = map expire_delete (take_before time s1.expire_list)
  ret (if is_nil s1.expire_list then s1 else push_all queries s1)

-- The mutex is taken here and once more in `get_time`.
pub get_ttl : ℕ → Str → ℕ → ExpireManager → Outcome (ExpireManager × ℤ)
unfolding get_time
get_ttl database key select s = do
  s1 ← lock s
  (s2, time) ← get_time database key select s1
  ret (unlock s2, time)

-- A database that closes takes its entries out of the map.
pub pre_db_close : (Str → Option ℕ) → Str → ExpireManager → Outcome ExpireManager
unfolding get_expires
pre_db_close dbm dbname s = do
  s1 ← get_expires s
  if is_nil s1.expire_list then ret s1 else elim (dbm dbname) [
    | none ↦ ret s1
    | some database ↦ do
      s2 ← lock s1
      ret (unlock (record s2 { expire_list = erase_if (of_database database) s2.expire_list }))
  ]

pub database_destroy : (Str → Option ℕ) → Str → ExpireManager → Outcome ExpireManager
unfolding get_expires
database_destroy dbm dbname s = do
  s1 ← get_expires s
  if is_nil s1.expire_list then ret s1 else elim (dbm dbname) [
    | none ↦ ret s1
    | some database ↦ do
      s2 ← lock s1
      ret (unlock (record s2 { expire_list = erase_if (of_database database) s2.expire_list }))
  ]

-- The loop of the resets: a query for each entry that passes the test, and their number.
pub count_loop : (ExpireEntry → Bool) → ℕ → ExpireMap → ℕ
count_loop p counter [] = counter
count_loop p counter ((time, e) ∷ l) = count_loop p (if p e then incr32 counter else counter) l

pub persist_if : (ExpireEntry → Bool) → ExpireManager → ExpireManager × ℕ
persist_if p s =
    (push_all (map persist (select_if p s.expire_list)) s, count_loop p 0 s.expire_list)

abbrev pub of_select : ℕ → ℕ → ExpireEntry → Bool
of_select select database e = e.select == select && e.database == database

pub persist_locked : (ExpireEntry → Bool) → ExpireManager → Outcome (ExpireManager × ℕ)
unfolding persist_if count_loop push_all persist lock unlock
persist_locked p s = do s1 ← lock s; let r = persist_if p s1; ret (unlock r.0, r.1)

pub database_reset : (Str → Option ℕ) → Str → ExpireManager → Outcome (ExpireManager × ℕ)
unfolding get_expires persist_locked
database_reset dbm dbname s = do
  s1 ← get_expires s
  if is_nil s1.expire_list then ret (s1, 0) else elim (dbm dbname) [
    | none ↦ ret (s1, 0)
    | some database ↦ persist_locked (of_database database) s1
  ]

pub select_reset : (Str → Option ℕ) → Str → ℕ → ExpireManager → Outcome (ExpireManager × ℕ)
unfolding get_expires persist_locked
select_reset dbm dbname select s = do
  s1 ← get_expires s
  if is_nil s1.expire_list then ret (s1, 0) else elim (dbm dbname) [
    | none ↦ ret (s1, 0)
    | some database ↦ persist_locked (of_select select database) s1
  ]

pub reset : ExpireManager → Outcome ExpireManager
unfolding get_expires persist_locked
reset s = do
  s1 ← get_expires s
  if is_nil s1.expire_list then ret s1 else do r ← persist_locked (λ e. true) s1; ret r.0

-- The mutex is not taken.
pub count_all : ExpireManager → ℕ
count_all s = to_u32 (length s.expire_list)

pub count : (Str → Option ℕ) → Str → ℕ → ExpireManager → Outcome (ExpireManager × ℕ)
unfolding get_expires count_loop
count dbm dbname select s = do
  s1 ← get_expires s
  elim (dbm dbname) [
    | none ↦ ret (s1, 0)
    | some database ↦ do
      s2 ← lock s1
      ret (unlock s2, count_loop (of_select select database) 0 s2.expire_list)
  ]
