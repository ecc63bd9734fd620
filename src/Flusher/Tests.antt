-- ===== src/Flusher/Tests.antt =====
-- One query on its way through a server with one thread.
use beryldb.Prelude.{◌+◌, ◌≤◌, ◌≡◌, refl, true, false, none, List, [], ◌∷◌, ◌++◌, length, arith}
use beryldb.Machine.{Outcome, ret, fault}
use beryldb.Query.Types.{Query}
use beryldb.Keys.Tests.{setting}
use beryldb.Flusher.{
  Signal, DataFlush, push, process, get_results, get_pending, pending_loop, process_front, post,
  to_use, first_free, enqueue, set_user, set_lock, thread_take, take_at, take_front, thread_finish,
  finish_working, working_at, idle_at, run_of, attach_all, attach_result, deliver, result_of,
}
use beryldb.Flusher.View.{refs, finals, in_threads, answers}
use beryldb.Flusher.Finish.{IsFinal}
use beryldb.Flusher.Runs.{IsFresh, start, pushes, processes, takes, ends, Reach-in_order}

abbrev fresh : DataFlush
fresh = record {
  users = λ n. record { pending = []; notifications = []; lock = false; quitting = false };
  instances = 1 ∷ [];
  global = 0;
  threads = record { queue = []; working = none; busy = false } ∷ [];
  running = true;
  closing = λ d. false;
  sent = [];
}

fresh-IsFresh : IsFresh 1 fresh
fresh-IsFresh = record {
  sent = refl;
  pending = λ n. refl;
  back = refl;
  connected = refl;
  idle = ((refl, refl), tt);
  staffed = omega arith;
  apart = refl;
}

-- A query that makes no pages and stays as it is.
abbrev prepared : Query → List Query × Query
prepared q = ([], q)

prepared-IsFinal : IsFinal prepared
prepared-IsFinal q plain = (tt, plain)

abbrev asked : Signal
asked = record { ref = 7; user = 1; query = setting }

abbrev state_of : Outcome DataFlush → DataFlush
state_of (ret s) = s
state_of (fault e) = fresh

abbrev posted : DataFlush
posted = state_of (process (λ n. n) (push asked fresh))

abbrev ended : DataFlush
ended = thread_finish prepared 0 (thread_take 0 posted)

abbrev answered : DataFlush
answered = state_of (process (λ n. n) ended)

posted-ret : process (λ n. n) (push asked fresh) ≡ ret posted
unfolding process push get_results get_pending pending_loop process_front post to_use first_free
    enqueue set_user set_lock result_of
posted-ret = refl

answered-ret : process (λ n. n) ended ≡ ret answered
unfolding process push get_results get_pending pending_loop process_front post to_use first_free
    enqueue set_user set_lock thread_take take_at take_front thread_finish finish_working working_at
    idle_at run_of attach_all attach_result deliver result_of
answered-ret = refl

the_answer : answers 1 answered.sent ≡ 7 ∷ []
unfolding process push get_results get_pending pending_loop process_front post to_use first_free
    enqueue set_user set_lock thread_take take_at take_front thread_finish finish_working working_at
    idle_at run_of attach_all attach_result deliver result_of
the_answer = refl

Reach-in_order_example :
    (answers 1 answered.sent
        ++ (in_threads 1 answered.threads
            ++ (finals (answered.users 1).notifications ++ refs (answered.users 1).pending))
      ≡ 7 ∷ [])
    × (length (in_threads 1 answered.threads) + length (finals (answered.users 1).notifications)
        ≤ 1)
Reach-in_order_example =
    Reach-in_order 1 prepared fresh answered (7 ∷ []) fresh-IsFresh prepared-IsFinal (
      processes (ends (takes (processes (pushes start asked refl) (λ n. n) posted-ret) 0) 0)
        (λ n. n) answered-ret)
