-- ===== src/Flusher/View.antt =====
-- What one user sees of the flush queues: the numbers of its queries that were answered, that are on their way
-- through the threads and back, and that wait.
use beryldb.Prelude.{
  ℕ, zero, suc, ◌+◌, ◌≤◌, ◌<◌, ◌≡◌, refl, sym, ap, ◌∙◌, Bool, true, false, not, ◌&&◌, Option, none,
  some, List, [], ◌∷◌, ◌++◌, length, length-append, arith, ◌==◌, if◌then◌else◌, Bool-cases,
  Option-cases, inl, inr,
}
use mathlib.Core.List.{append_assoc, append-nil}
use beryldb.Query.Types.{DblCode, QueryFlags, Query}
use beryldb.Flusher.{
  Signal, DataThread, enqueue, to_use, first_free, take_at, take_front, idle_at, working_at,
}

abbrev pub refs : List Signal → List ℕ
refs [] = []
refs (x ∷ l) = x.ref ∷ refs l

-- The finished ones: pages are left out.
abbrev pub finals : List Signal → List ℕ
finals [] = []
finals (x ∷ l) = if x.query.partial then finals l else x.ref ∷ finals l

-- A query whose result is attached for its user: neither quiet nor global, no page and not interrupted.
abbrev pub is_attached : QueryFlags → DblCode → Bool
is_attached QueryFlags.quiet access = false
is_attached QueryFlags.global access = false
is_attached flags DblCode.interrupt = false
is_attached flags access = true

abbrev pub is_plain : Query → Bool
is_plain q = not q.partial && is_attached q.flags q.access

module _ (u : ℕ) where
  abbrev pub mine : Signal → List ℕ
  mine x = if x.user == u then x.ref ∷ [] else []

  abbrev pub all_mine : List Signal → List ℕ
  all_mine [] = []
  all_mine (x ∷ l) = mine x ++ all_mine l

  abbrev pub current : Option Signal → List ℕ
  current none = []
  current (some x) = mine x

  abbrev pub held : DataThread → List ℕ
  held t = current t.working ++ all_mine t.queue

  abbrev pub in_threads : List DataThread → List ℕ
  in_threads [] = []
  in_threads (t ∷ threads) = held t ++ in_threads threads

  abbrev pub answers : List (ℕ × Signal) → List ℕ
  answers [] = []
  answers ((n, x) ∷ l) = if n == u && not x.query.partial then x.ref ∷ answers l else answers l

  all_mine-append : (l m : List Signal) → all_mine (l ++ m) ≡ all_mine l ++ all_mine m
  all_mine-append [] m = refl
  all_mine-append (x ∷ l) m =
      rw (all_mine-append l m) (sym (append_assoc (mine x) (all_mine l) (all_mine m)))

  pub answers-append :
      (l : List (ℕ × Signal)) (n : ℕ) (x : Signal)
      → answers (l ++ (n, x) ∷ []) ≡ answers l ++ answers ((n, x) ∷ [])
  answers-append [] n x = refl
  answers-append ((m, y) ∷ l) n x = elim (Bool-cases (m == u && not y.query.partial)) [
    | inl e ↦ rw e (ap (λ r. y.ref ∷ r) (answers-append l n x))
    | inr e ↦ rw e (answers-append l n x)
  ]

  -- A query of another user that is put in a queue.
  pub enqueue-other :
      (k : ℕ) (x : Signal) (threads : List DataThread)
      → (x.user == u) ≡ false
      → in_threads (enqueue k x threads) ≡ in_threads threads
  unfolding enqueue
  enqueue-other k x [] e = refl
  enqueue-other zero x (t ∷ threads) e =
      rw (all_mine-append t.queue (x ∷ [])) (rw e (rw (append-nil (all_mine t.queue)) refl))
  enqueue-other (suc k) x (t ∷ threads) e = ap (λ r. held t ++ r) (enqueue-other k x threads e)

  append_nil_nil : (xs ys : List ℕ) → xs ++ ys ≡ [] → (xs ≡ []) × (ys ≡ [])
  append_nil_nil [] ys e = (refl, e)
  append_nil_nil (x ∷ xs) ys e = absurd (cc e)

  -- A query of the user that is put in a queue of threads that have none.
  pub enqueue-own :
      (k : ℕ) (x : Signal) (threads : List DataThread)
      → (x.user == u) ≡ true
      → k < length threads
      → in_threads threads ≡ []
      → in_threads (enqueue k x threads) ≡ x.ref ∷ []
  unfolding enqueue
  enqueue-own k x [] e h n = absurd (omega arith)
  enqueue-own zero x (t ∷ threads) e h n =
      let (first, rest) = append_nil_nil (held t) (in_threads threads) n in
      let (cur, que) = append_nil_nil (current t.working) (all_mine t.queue) first in
      rw (all_mine-append t.queue (x ∷ [])) (rw (cur, que) (rw e (rw rest refl)))
  enqueue-own (suc k) x (t ∷ threads) e h n =
      let (first, rest) = append_nil_nil (held t) (in_threads threads) n in
      rw first (enqueue-own k x threads e (omega arith) rest)

  front-held :
      (t : DataThread) (l : List Signal)
      → t.working ≡ none
      → t.queue ≡ l
      → held (take_front t l) ≡ held t
  unfolding take_front
  front-held t [] e q = refl
  front-held t (x ∷ l) e q = rw (e, q) refl

  take-held :
      (t : DataThread) (w : Option Signal)
      → t.working ≡ w
      → held (elim w as (λ o. DataThread) [ none ↦ take_front t t.queue | some x ↦ t ]) ≡ held t
  take-held t none e = front-held t t.queue e refl
  take-held t (some x) e = refl

  -- A thread that takes its next query keeps it.
  pub in_threads-take_at :
      (k : ℕ) (threads : List DataThread) → in_threads (take_at k threads) ≡ in_threads threads
  unfolding take_at
  in_threads-take_at k [] = refl
  in_threads-take_at zero (t ∷ threads) =
      ap (λ h. h ++ in_threads threads) (take-held t t.working refl)
  in_threads-take_at (suc k) (t ∷ threads) = ap (λ r. held t ++ r) (in_threads-take_at k threads)

  pub idle-other :
      (k : ℕ) (x : Signal) (threads : List DataThread)
      → working_at k threads ≡ some x
      → (x.user == u) ≡ false
      → in_threads (idle_at k threads) ≡ in_threads threads
  unfolding idle_at working_at
  idle-other k x [] w e = refl
  idle-other zero x (t ∷ threads) w e = rw w (rw e refl)
  idle-other (suc k) x (t ∷ threads) w e = ap (λ r. held t ++ r) (idle-other k x threads w e)

  nil_of_length : (xs : List ℕ) → length xs ≤ 0 → xs ≡ []
  nil_of_length [] h = refl
  nil_of_length (x ∷ xs) h = absurd (omega arith)

  -- A query of the user that ran is the only one of the user in the threads.
  pub idle-own :
      (k : ℕ) (x : Signal) (threads : List DataThread)
      → working_at k threads ≡ some x
      → (x.user == u) ≡ true
      → length (in_threads threads) ≤ 1
      → (in_threads threads ≡ x.ref ∷ []) × (in_threads (idle_at k threads) ≡ [])
  unfolding idle_at working_at
  idle-own k x [] w e h = absurd (cc w)
  idle-own zero x (t ∷ threads) w e h =
      let rest = all_mine t.queue ++ in_threads threads in
      let whole : in_threads (t ∷ threads) ≡ x.ref ∷ rest = rw w (rw e refl) in
      let gone : rest ≡ [] =
        nil_of_length rest (omega (arith, h, ap (λ (l : List ℕ). length l) whole)) in
      (whole ∙ ap (λ l. x.ref ∷ l) gone, gone)
  idle-own (suc k) x (t ∷ threads) w e h =
      let sum = length-append (held t) (in_threads threads) in
      let (own, idle) = idle-own k x threads w e (omega (arith, h, sum)) in
      let one : length (in_threads threads) ≡ 1 = ap (λ (l : List ℕ). length l) own in
      let first : held t ≡ [] = nil_of_length (held t) (omega (arith, h, sum, one)) in
      (rw first own, rw first idle)

  first_free-lt :
      (j d : ℕ) (threads : List DataThread) → first_free j threads ≡ some d → d < j + length threads
  unfolding first_free
  first_free-lt j d [] e = absurd (cc e)
  first_free-lt j d (t ∷ threads) e = ground (arith, first_free-lt (suc j) d threads)

  -- Where there is a thread, one of them is used.
  pub to_use-lt :
      (draw : ℕ) (threads : List DataThread)
      → 0 < length threads
      → to_use draw threads < length threads
  unfolding to_use
  to_use-lt draw threads h = elim (Option-cases (first_free 0 threads)) [
    | inl e ↦ rw (e, to_use) (grind arith)
    | inr (k, e) ↦ rw (e, to_use) (omega (arith, first_free-lt 0 k threads e))
  ]
