-- ===== src/Flusher/Runs.antt =====
-- Runs of the server: users push queries, the main loop calls `Process`, and threads take queries and end them, in
-- any order.
use beryldb.Prelude.{
  ℕ, ◌+◌, ◌≤◌, ◌<◌, ◌≡◌, refl, subst, false, none, List, [], ◌∷◌, ◌++◌, All, length, arith, ◌==◌,
}
use beryldb.Machine.{ret}
use beryldb.Query.Types.{Query}
use beryldb.Flusher.{Signal, DataThread, DataFlush, push, process, thread_take, thread_finish}
use beryldb.Flusher.View.{refs, finals, mine, in_threads, answers}
use beryldb.Flusher.Order.{Good, Sound, Inv, push-Inv}
use beryldb.Flusher.Pending.{OnRet}
use beryldb.Flusher.Loop.{process-Inv}
use beryldb.Flusher.Threads.{thread_take-Inv}
use beryldb.Flusher.Finish.{IsFinal, room-le, thread_finish-Inv}

abbrev pub IsIdle : DataThread → Type 0
IsIdle t = (t.working ≡ none) × (t.queue ≡ [])

-- The server before any query: the user is connected and is not the server's own user, and there is a thread.
pub record IsFresh (u : ℕ) (s : DataFlush) : Type 0 where
  pub sent : s.sent ≡ []
  pub pending : (n : ℕ) → (s.users n).pending ≡ []
  pub back : (s.users u).notifications ≡ []
  pub connected : (s.users u).quitting ≡ false
  pub idle : All IsIdle s.threads
  pub staffed : 0 < length s.threads
  pub apart : (s.global == u) ≡ false

-- The states that the server reaches, with the numbers of the queries that the user pushed so far, which are plain.
pub data Reach (u : ℕ) (prepare : Query → List Query × Query) (s : DataFlush)
    : List ℕ → DataFlush → Type 0 where
  start : Reach u prepare s [] s
  pushes :
      {log : List ℕ} {t : DataFlush}
      → Reach u prepare s log t
      → (x : Signal) → Good u x
      → Reach u prepare s (log ++ mine u x) (push x t)
  processes :
      {log : List ℕ} {t v : DataFlush}
      → Reach u prepare s log t
      → (draws : ℕ → ℕ) → process draws t ≡ ret v
      → Reach u prepare s log v
  takes :
      {log : List ℕ} {t : DataFlush}
      → Reach u prepare s log t
      → (k : ℕ) → Reach u prepare s log (thread_take k t)
  ends :
      {log : List ℕ} {t : DataFlush}
      → Reach u prepare s log t
      → (k : ℕ) → Reach u prepare s log (thread_finish prepare k t)

idle-in_threads : (u : ℕ) (l : List DataThread) → All IsIdle l → in_threads u l ≡ []
idle-in_threads u [] a = refl
idle-in_threads u (t ∷ l) a = rw (a.0.0, a.0.1) (idle-in_threads u l a.1)

idle-Sound : (u : ℕ) (l : List DataThread) → All IsIdle l → All (Sound u) l
idle-Sound u [] a = tt
idle-Sound u (t ∷ l) a = ((rw a.0.0 tt, rw a.0.1 tt), idle-Sound u l a.1)

fresh-Inv : (u : ℕ) (s : DataFlush) → IsFresh u s → Inv u [] s
fresh-Inv u s f = record {
  fits = record {
    order = rw (f.sent, idle-in_threads u s.threads f.idle, f.back, f.pending u) refl;
    within = rw (idle-in_threads u s.threads f.idle, f.back) (omega arith);
    stays = f.connected;
  };
  owned = λ n. rw (f.pending n) tt;
  sound = idle-Sound u s.threads f.idle;
  staffed = f.staffed;
  apart = f.apart;
}

Reach-Inv :
    (u : ℕ) (prepare : Query → List Query × Query) (s t : DataFlush) (log : List ℕ)
    → IsFresh u s
    → IsFinal prepare
    → Reach u prepare s log t
    → Inv u log t
Reach-Inv u prepare s t log fresh final start = fresh-Inv u s fresh
Reach-Inv u prepare s t log fresh final (pushes r x good) =
    push-Inv u x _ _ good (Reach-Inv u prepare s _ _ fresh final r)
Reach-Inv u prepare s t log fresh final (processes r draws e) =
    subst (OnRet (Inv u log)) e
      (process-Inv u draws log _ (Reach-Inv u prepare s _ _ fresh final r))
Reach-Inv u prepare s t log fresh final (takes r k) =
    thread_take-Inv u k log _ (Reach-Inv u prepare s _ _ fresh final r)
Reach-Inv u prepare s t log fresh final (ends r k) =
    thread_finish-Inv u prepare k log _ final (Reach-Inv u prepare s _ _ fresh final r)

-- From a server without queries, whatever other users push and in whatever order the main loop and the threads take
-- their turns, where a user stays connected and pushes only plain queries (whose result goes back to the user, and
-- which `Prepare` leaves so, with partial pages): the user's queries that were answered, the one that is in a thread
-- or on its way back, and those that wait are, one after the other, all those that the user pushed, in their order;
-- and at most one is in a thread or on its way back.
pub Reach-in_order :
    (u : ℕ) (prepare : Query → List Query × Query) (s t : DataFlush) (log : List ℕ)
    → IsFresh u s
    → IsFinal prepare
    → Reach u prepare s log t
    → (answers u t.sent
          ++ (in_threads u t.threads
              ++ (finals (t.users u).notifications ++ refs (t.users u).pending))
        ≡ log)
      × (length (in_threads u t.threads) + length (finals (t.users u).notifications) ≤ 1)
Reach-in_order u prepare s t log fresh final r =
    let i = Reach-Inv u prepare s t log fresh final r in
    (i.fits.order, omega (arith, i.fits.within, room-le (t.users u).lock))
