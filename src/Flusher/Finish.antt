-- ===== src/Flusher/Finish.antt =====
-- A thread that has run a query: its pages and its result go back to the user.
use beryldb.Prelude.{
  ℕ, ◌≤◌, ◌<◌, ◌≡◌, refl, sym, ap, ◌∙◌, subst, Bool, true, false, not, ◌&&◌, ◌||◌, Option, none,
  some, List, [], ◌∷◌, ◌++◌, All, length, arith, ◌==◌, Bool-cases, inl, inr,
}
use beryldb.Query.Types.{DblCode, QueryFlags, Query}
use beryldb.Flusher.{
  Signal, DataThread, DataFlush, set_lock, attach_result, attach_all, idle_at, working_at, deliver,
  pages_of, is_invalid, run_of, finish_working, thread_finish,
}
use beryldb.Flusher.View.{
  refs, finals, is_attached, is_plain, in_threads, answers, idle-other, idle-own,
}
use beryldb.Flusher.Order.{room, Sound, Owned, Fits, Inv, own-Inv, same_user}
use beryldb.Flusher.Pending.{set_lock-other}
use beryldb.Flusher.Threads.{
  finals-append, length-idle_at, idle_at-Sound, working-Good, Alike, Alike-attach, Alike-attach_all,
  Alike-Inv,
}

pub room-le : (b : Bool) → room b ≤ 1
room-le true = omega arith
room-le false = omega arith

no_refs : (xs : List ℕ) → length xs ≤ 0 → xs ≡ []
no_refs [] h = refl
no_refs (x ∷ xs) h = absurd (omega arith)

-- `deliver` leaves the state, unlocks the user, or attaches the result; it attaches that of a plain query.
deliver-cases :
    (P : DataFlush → Type 0) (y : Signal) (s : DataFlush)
    → P s
    → P (set_lock y.user false s)
    → P (attach_result y s)
    → P (deliver y s)
unfolding deliver
deliver-cases P y s a b c = by_flags y.query.flags
  where
    by_access :
        (d : DblCode)
        → P (elim d as (λ c. DataFlush) [ DblCode.interrupt ↦ s | _ ↦ attach_result y s ])
    by_access DblCode.interrupt = a
    by_access d = c

    by_flags :
        (f : QueryFlags)
        → P (elim f as (λ f. DataFlush) [
          | QueryFlags.quiet ↦ s
          | QueryFlags.global ↦ set_lock y.user false s
          | _ ↦ elim y.query.access [ DblCode.interrupt ↦ s | _ ↦ attach_result y s ]
        ])
    by_flags QueryFlags.quiet = a
    by_flags QueryFlags.global = b
    by_flags f = by_access y.query.access

deliver-attached :
    (y : Signal) (s : DataFlush)
    → is_attached y.query.flags y.query.access ≡ true
    → deliver y s ≡ attach_result y s
unfolding deliver
deliver-attached y s h = by_flags y.query.flags h
  where
    by_access :
        (d : DblCode)
        → is_attached QueryFlags.flags_none d ≡ true
        → elim d as (λ c. DataFlush) [ DblCode.interrupt ↦ s | _ ↦ attach_result y s ]
          ≡ attach_result y s
    by_access DblCode.interrupt h = absurd (cc h)
    by_access d h = refl

    by_flags :
        (f : QueryFlags)
        → is_attached f y.query.access ≡ true
        → elim f as (λ f. DataFlush) [
          | QueryFlags.quiet ↦ s
          | QueryFlags.global ↦ set_lock y.user false s
          | _ ↦ elim y.query.access [ DblCode.interrupt ↦ s | _ ↦ attach_result y s ]
        ]
          ≡ attach_result y s
    by_flags QueryFlags.quiet h = absurd (cc h)
    by_flags QueryFlags.global h = absurd (cc h)
    by_flags f h = by_access y.query.access h

-- What `Prepare` makes of a plain query: pages that are partial, and a plain query.
abbrev pub IsFinal : (Query → List Query × Query) → Type 0
IsFinal prepare =
    (q : Query)
    → is_plain q ≡ true
    → All (λ p. p.partial ≡ true) (prepare q).0 × (is_plain (prepare q).1 ≡ true)

module _ (u : ℕ) (prepare : Query → List Query × Query) where
  pages_of-other :
      (y : Signal) (l : List Query)
      → (y.user == u) ≡ false
      → All (λ (x : Signal). (not (x.user == u) || x.query.partial) ≡ true) (pages_of y l)
  unfolding pages_of
  pages_of-other y [] e = tt
  pages_of-other y (p ∷ l) e = (rw e refl, pages_of-other y l e)

  pages_of-own :
      (y : Signal) (l : List Query)
      → All (λ p. p.partial ≡ true) l
      → All (λ (x : Signal). (not (x.user == u) || x.query.partial) ≡ true) (pages_of y l)
  unfolding pages_of
  pages_of-own y [] a = tt
  pages_of-own y (p ∷ l) a = (ground (arith, a.0), pages_of-own y l a.1)

  -- The result of a run is of the same user and has the same number, and the pages change no order.
  run_of-same :
      (x : Signal) → ((run_of prepare x).1.user ≡ x.user) × ((run_of prepare x).1.ref ≡ x.ref)
  unfolding run_of
  run_of-same x = elim (Bool-cases (is_invalid x.query.access)) [
    | inl e ↦ (rw e refl, rw e refl)
    | inr e ↦ (rw e refl, rw e refl)
  ]

  run_of-other :
      (x : Signal)
      → (x.user == u) ≡ false
      → All (λ (x : Signal). (not (x.user == u) || x.query.partial) ≡ true) (run_of prepare x).0
  unfolding run_of
  run_of-other x e = elim (Bool-cases (is_invalid x.query.access)) [
    | inl i ↦ rw i tt
    | inr i ↦ rw i (pages_of-other x (prepare x.query).0 e)
  ]

  run_of-own :
      (x : Signal)
      → IsFinal prepare
      → is_plain x.query ≡ true
      → All (λ (x : Signal). (not (x.user == u) || x.query.partial) ≡ true) (run_of prepare x).0
        × (is_plain (run_of prepare x).1.query ≡ true)
  unfolding run_of
  run_of-own x final plain = elim (Bool-cases (is_invalid x.query.access)) [
    | inl i ↦ (rw i tt, rw i plain)
    | inr i ↦ (
      rw i (pages_of-own x (prepare x.query).0 (final x.query plain).0),
      rw i (final x.query plain).1,
    )
  ]

  idled : ℕ → DataFlush → DataFlush
  idled k s = record s { threads = idle_at k s.threads }

  -- The query of another user.
  finish-other :
      (k : ℕ) (x : Signal) (log : List ℕ) (s : DataFlush)
      → working_at k s.threads ≡ some x
      → (x.user == u) ≡ false
      → Inv u log s
      → Inv u log (deliver (run_of prepare x).1 (attach_all (run_of prepare x).0 (idled k s)))
  unfolding idled
  finish-other k x log s w e i =
      let y = (run_of prepare x).1 in
      let apart : (y.user == u) ≡ false = ap (λ n. n == u) (run_of-same x).0 ∙ e in
      let s1 = idled k s in
      let s2 = attach_all (run_of prepare x).0 s1 in
      let j : Inv u log s1 = record {
        fits = record {
          order = rw (idle-other u k x s.threads w e) i.fits.order;
          within = rw (idle-other u k x s.threads w e) i.fits.within;
          stays = i.fits.stays;
        };
        owned = i.owned;
        sound = idle_at-Sound u k s.threads i.sound;
        staffed = rw (length-idle_at k s.threads) i.staffed;
        apart = i.apart;
      } in
      let j2 =
        Alike-Inv u log s1 s2 (Alike-attach_all u (run_of prepare x).0 s1 (run_of-other x e)) j in
      deliver-cases (Inv u log) y s2 j2 (set_lock-other u y.user false log s2 apart j2)
        (Alike-Inv u log s2 (attach_result y s2) (Alike-attach u y s2 (rw apart refl)) j2)

  plain-partial : (q : Query) → is_plain q ≡ true → q.partial ≡ false
  plain-partial q h = elim (Bool-cases q.partial) [
    | inl e ↦ absurd (cc (subst (λ b. (not b && is_attached q.flags q.access) ≡ true) e h))
    | inr e ↦ e
  ]

  plain-attached : (q : Query) → is_plain q ≡ true → is_attached q.flags q.access ≡ true
  plain-attached q h =
      subst (λ b. (not b && is_attached q.flags q.access) ≡ true) (plain-partial q h) h

  -- The state of the user where its only query on the way comes back.
  back-Fits :
      (y : Signal) (log : List ℕ) (s1 s2 : DataFlush)
      → Alike u s1 s2
      → in_threads u s1.threads ≡ []
      → finals (s1.users u).notifications ≡ []
      → y.query.partial ≡ false
      → answers u s1.sent ++ y.ref ∷ refs (s1.users u).pending ≡ log
      → (s1.users u).lock ≡ true
      → (s1.users u).quitting ≡ false
      → Fits u log s2.sent s2.threads
          (record (s2.users u) { notifications = (s2.users u).notifications ++ y ∷ [] })
  back-Fits y log s1 s2 a idle back whole order locked stays =
      let one : finals ((s2.users u).notifications ++ y ∷ []) ≡ y.ref ∷ [] =
        finals-append (s2.users u).notifications y
        ∙ rw whole (ap (λ l. l ++ y.ref ∷ []) (a.back ∙ back)) in
      let none_left : in_threads u s2.threads ≡ [] = ap (in_threads u) a.threads ∙ idle in
      record {
        order = rw (none_left, one, a.sent, a.pending u) order;
        within = rw (none_left, one, a.lock ∙ locked) (omega arith);
        stays = a.quitting ∙ stays;
      }

  locked_of : (b : Bool) → 1 ≤ room b → b ≡ true
  locked_of true h = refl
  locked_of false h = absurd (omega arith)

  -- The query of the user.
  finish-own :
      (k : ℕ) (x : Signal) (log : List ℕ) (s : DataFlush)
      → IsFinal prepare
      → working_at k s.threads ≡ some x
      → (x.user == u) ≡ true
      → Inv u log s
      → Inv u log (deliver (run_of prepare x).1 (attach_all (run_of prepare x).0 (idled k s)))
  unfolding idled attach_result
  finish-own k x log s final w e i =
      let good = working-Good u k x s.threads w i.sound in
      let plain : is_plain x.query ≡ true =
        subst (λ b. (not b || is_plain x.query) ≡ true) e good in
      let (pages, kept) = run_of-own x final plain in
      let y = (run_of prepare x).1 in
      let own : y.user ≡ u = (run_of-same x).0 ∙ same_user u x.user u e in
      let within = i.fits.within in
      let (alone, idle) =
        idle-own u k x s.threads w e (omega (arith, within, room-le (s.users u).lock)) in
      let one : length (in_threads u s.threads) ≡ 1 = ap (λ (l : List ℕ). length l) alone in
      let back : finals (s.users u).notifications ≡ [] =
        no_refs (finals (s.users u).notifications)
          (omega (arith, within, one, room-le (s.users u).lock)) in
      let locked = locked_of (s.users u).lock (omega (arith, within, one)) in
      let shape : answers u s.sent
            ++ (in_threads u s.threads
                ++ (finals (s.users u).notifications ++ refs (s.users u).pending))
          ≡ answers u s.sent ++ x.ref ∷ refs (s.users u).pending =
        rw (alone, back) refl in
      let s1 = idled k s in
      let s2 = attach_all (run_of prepare x).0 s1 in
      let a = Alike-attach_all u (run_of prepare x).0 s1 pages in
      let fits =
        back-Fits y log s1 s2 a idle back (plain-partial y.query kept)
          (ap (λ r. answers u s.sent ++ r ∷ refs (s.users u).pending) (run_of-same x).1
            ∙ sym shape
            ∙ i.fits.order)
          locked i.fits.stays in
      let owned : (n : ℕ) → All (Owned u n) (s2.users n).pending =
        λ n. subst (All (Owned u n)) (sym (a.pending n)) (i.owned n) in
      subst (Inv u log) (sym (deliver-attached y s2 (plain-attached y.query kept))) (
        own-Inv u y.user
          (record (s2.users y.user) { notifications = (s2.users y.user).notifications ++ y ∷ [] })
          log s2 own
          (subst
            (λ n.
              Fits u log s2.sent s2.threads
                (record (s2.users n) { notifications = (s2.users n).notifications ++ y ∷ [] }))
            (sym own) fits)
          (owned y.user) owned
          (subst (All (Sound u)) (sym a.threads) (idle_at-Sound u k s.threads i.sound))
          (subst (λ (l : List DataThread). 0 < length l) (sym a.threads)
            (subst (λ n. 0 < n) (sym (length-idle_at k s.threads)) i.staffed))
          (ap (λ n. n == u) a.global ∙ i.apart))

  finish_working-Inv :
      (k : ℕ) (o : Option Signal) (log : List ℕ) (s : DataFlush)
      → working_at k s.threads ≡ o
      → IsFinal prepare
      → Inv u log s
      → Inv u log (finish_working prepare k o s)
  unfolding finish_working idled
  finish_working-Inv k none log s w final i = i
  finish_working-Inv k (some x) log s w final i = elim (Bool-cases (x.user == u)) [
    | inl e ↦ finish-own k x log s final w e i
    | inr e ↦ finish-other k x log s w e i
  ]

  -- The end of the run of a query.
  pub thread_finish-Inv :
      (k : ℕ) (log : List ℕ) (s : DataFlush)
      → IsFinal prepare
      → Inv u log s
      → Inv u log (thread_finish prepare k s)
  unfolding thread_finish
  thread_finish-Inv k log s final i =
      finish_working-Inv k (working_at k s.threads) log s refl final i
