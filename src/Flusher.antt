-- ===== src/Flusher.antt =====
-- src/brldb/dbflush.cpp and the end of src/brldb/database.cpp: how a query goes from the user that sends it to a
-- thread and back. The main loop calls `process`; a thread takes the front of its queue, runs it and attaches
-- the result. A shared pointer to a query is a `Signal` with a number of its own; the user of a query is a number.
pub mod View
pub mod Order
pub mod Results
pub mod Pending
pub mod Loop
pub mod Threads
pub mod Finish
pub mod Runs
pub mod Tests
use beryldb.Prelude.{
  ℕ, zero, suc, ◌+◌, ◌%◌, Bool, true, false, not, ◌&&◌, ◌||◌, Option, none, some, List, [], ◌∷◌,
  ◌++◌, length, ◌==◌, if◌then◌else◌,
}
use beryldb.Machine.{Outcome, ret, fault, ◌>>=◌, empty_front}
use beryldb.Stl.{is_nil}
use beryldb.Query.Types.{DblCode, QueryFlags, Query}

pub record Signal : Type 0 where
  pub ref : ℕ
  pub user : ℕ
  pub query : Query

pub record UserState : Type 0 where
  pub pending : List Signal
  pub notifications : List Signal
  pub lock : Bool
  pub quitting : Bool

-- A thread with its queue and the query that it runs.
pub record DataThread : Type 0 where
  pub queue : List Signal
  pub working : Option Signal
  pub busy : Bool

-- `instances` are the connected users, `sent` the replies of `CheckFlush` and `Post` and their users, `global` the server's own user.
pub record DataFlush : Type 0 where
  pub users : ℕ → UserState
  pub instances : List ℕ
  pub global : ℕ
  pub threads : List DataThread
  pub running : Bool
  pub closing : ℕ → Bool
  pub sent : List (ℕ × Signal)

unfoldable pub set_user : ℕ → UserState → DataFlush → DataFlush
set_user n u s = record s { users = λ m. if m == n then u else s.users m }

unfoldable pub set_lock : ℕ → Bool → DataFlush → DataFlush
unfolding set_user
set_lock n b s = set_user n (record (s.users n) { lock = b }) s

-- `StoreManager::Push`.
unfoldable pub push : Signal → DataFlush → DataFlush
unfolding set_user
push x s =
    let u = s.users x.user in
    if u.quitting then s else set_user x.user (record u { pending = u.pending ++ x ∷ [] }) s

unfoldable pub attach_result : Signal → DataFlush → DataFlush
unfolding set_user
attach_result x s =
    let u = s.users x.user in
    set_user x.user (record u { notifications = u.notifications ++ x ∷ [] }) s

unfoldable pub attach_all : List Signal → DataFlush → DataFlush
unfolding attach_result
attach_all [] s = s
attach_all (x ∷ l) s = attach_all l (attach_result x s)

-- The reply to the front of the notifications of a user.
unfoldable pub result_of : ℕ → UserState → List Signal → DataFlush → DataFlush
unfolding set_user
result_of n u [] s = s
result_of n u (x ∷ l) s =
    set_user n (record u { notifications = l; lock = if x.query.partial then u.lock else false })
      (record s { sent = s.sent ++ (n, x) ∷ [] })

unfoldable pub get_results : List ℕ → DataFlush → DataFlush
unfolding result_of
get_results [] s = s
get_results (n ∷ instances) s =
    let u = s.users n in
    get_results instances (if u.quitting then s else result_of n u u.notifications s)

-- The first thread that is not busy.
unfoldable pub first_free : ℕ → List DataThread → Option ℕ
first_free k [] = none
first_free k (t ∷ threads) =
    let rest = first_free (suc k) threads in if t.busy then rest else some k

-- The thread to use; where all are busy, the one that is drawn.
unfoldable pub to_use : ℕ → List DataThread → ℕ
unfolding first_free
to_use draw threads = elim (first_free 0 threads) [ none ↦ draw % length threads | some k ↦ k ]

unfoldable pub enqueue : ℕ → Signal → List DataThread → List DataThread
enqueue k x [] = []
enqueue zero x (t ∷ threads) = record t { queue = t.queue ++ x ∷ [] } ∷ threads
enqueue (suc k) x (t ∷ threads) = t ∷ enqueue k x threads

-- `DataThread::Post`: a query for a database that closes is refused.
unfoldable pub post : ℕ → Signal → DataFlush → DataFlush
unfolding set_lock enqueue
post k x s =
    if s.closing x.query.database
    then set_lock x.user false (record s { sent = s.sent ++ (x.user, x) ∷ [] })
    else record s { threads = enqueue k x s.threads }

-- `DataFlush::Process` of the front of the pending queries of a user. There is a thread at least: the server does
-- not start without one.
unfoldable pub process_front : ℕ → ℕ → List Signal → DataFlush → Outcome DataFlush
unfolding post to_use set_user
process_front draw n [] s = fault empty_front
process_front draw n (x ∷ l) s =
    if s.running
    then ret (post (to_use draw s.threads) x (set_user n (record (s.users n) { pending = l }) s))
    else ret s

-- The loop of `GetPending`: a user that quits is not passed over.
unfoldable pub pending_loop : (ℕ → ℕ) → List ℕ → DataFlush → Outcome DataFlush
unfolding process_front set_lock
pending_loop draws [] s = ret s
pending_loop draws (n ∷ instances) s =
    let u = s.users n in
    if not u.quitting && (is_nil u.pending || u.lock)
    then pending_loop draws instances s
    else process_front (draws n) n u.pending (set_lock n true s) >>= pending_loop draws instances

unfoldable pub get_pending : (ℕ → ℕ) → DataFlush → Outcome DataFlush
unfolding pending_loop process_front
get_pending draws s =
    let waiting = (s.users s.global).pending in
    if is_nil waiting
    then pending_loop draws s.instances s
    else process_front (draws s.global) s.global waiting s

-- `DataFlush::Process`, which the main loop calls.
unfoldable pub process : (ℕ → ℕ) → DataFlush → Outcome DataFlush
unfolding get_results get_pending
process draws s = if s.running then get_pending draws (get_results s.instances s) else ret s

-- A thread takes the front of its queue.
unfoldable pub take_front : DataThread → List Signal → DataThread
take_front t [] = t
take_front t (x ∷ l) = record t { queue = l; working = some x; busy = true }

unfoldable pub take_at : ℕ → List DataThread → List DataThread
unfolding take_front
take_at k [] = []
take_at zero (t ∷ threads) = (elim t.working [ none ↦ take_front t t.queue | some x ↦ t ]) ∷ threads
take_at (suc k) (t ∷ threads) = t ∷ take_at k threads

unfoldable pub thread_take : ℕ → DataFlush → DataFlush
unfolding take_at
thread_take k s = if s.running then record s { threads = take_at k s.threads } else s

unfoldable pub idle_at : ℕ → List DataThread → List DataThread
idle_at k [] = []
idle_at zero (t ∷ threads) = record t { working = none; busy = false } ∷ threads
idle_at (suc k) (t ∷ threads) = t ∷ idle_at k threads

unfoldable pub working_at : ℕ → List DataThread → Option Signal
working_at k [] = none
working_at zero (t ∷ threads) = t.working
working_at (suc k) (t ∷ threads) = working_at k threads

-- The end of the loop of a thread: what becomes of the query that ran. `AttachGlobal` replies at once.
unfoldable pub deliver : Signal → DataFlush → DataFlush
unfolding attach_result set_lock
deliver x s = elim x.query.flags [
  | QueryFlags.quiet ↦ s
  | QueryFlags.global ↦ set_lock x.user false s
  | _ ↦ elim x.query.access [ DblCode.interrupt ↦ s | _ ↦ attach_result x s ]
]

-- The pages of a query, as new objects of its user.
unfoldable pub pages_of : Signal → List Query → List Signal
pages_of y [] = []
pages_of y (p ∷ ps) = record y { query = p } ∷ pages_of y ps

abbrev pub is_invalid : DblCode → Bool
is_invalid DblCode.invalid_format = true
is_invalid c = false

-- `prepare` is the call of `Prepare`: the pages that it attaches, and the query behind it.
module _ (prepare : Query → List Query × Query) where
  unfoldable pub run_of : Signal → List Signal × Signal
  unfolding pages_of
  run_of x =
      let (pages, q) = prepare x.query in
      if is_invalid x.query.access then ([], x) else (pages_of x pages, record x { query = q })

  -- The run of a query and the delivery of its result are one step.
  unfoldable pub finish_working : ℕ → Option Signal → DataFlush → DataFlush
  unfolding run_of attach_all deliver idle_at
  finish_working k none s = s
  finish_working k (some x) s =
      let (pages, y) = run_of x in
      deliver y (attach_all pages (record s { threads = idle_at k s.threads }))

  unfoldable pub thread_finish : ℕ → DataFlush → DataFlush
  unfolding finish_working working_at
  thread_finish k s = finish_working k (working_at k s.threads) s
