-- ===== src/Flusher/Threads.antt =====
-- The threads of the flush queues: a thread that takes a query, and one that gives its result back.
use beryldb.Prelude.{
  ℕ, zero, suc, ◌<◌, ◌≡◌, refl, sym, ap, ◌∙◌, subst, Bool, true, not, ◌||◌, Option, none, some,
  List, [], ◌∷◌, ◌++◌, All, length, arith, ◌==◌, if◌then◌else◌, Bool-cases, inl, inr,
}
use mathlib.Core.List.{append-nil}
use beryldb.Flusher.{
  Signal, UserState, DataThread, DataFlush, set_user, attach_result, attach_all, take_front,
  take_at, thread_take, idle_at, working_at,
}
use beryldb.Flusher.View.{finals, in_threads-take_at}
use beryldb.Flusher.Order.{Good, Runs, Sound, Owned, Inv, self, same_user}

pub finals-append :
    (l : List Signal) (y : Signal)
    → finals (l ++ y ∷ []) ≡ finals l ++ (if y.query.partial then [] else y.ref ∷ [])
finals-append [] y = ground arith
finals-append (x ∷ l) y = elim (Bool-cases x.query.partial) [
  | inl e ↦ rw e (finals-append l y)
  | inr e ↦ rw e (ap (λ r. x.ref ∷ r) (finals-append l y))
]

length-take_at : (k : ℕ) (threads : List DataThread) → length (take_at k threads) ≡ length threads
unfolding take_at
length-take_at k [] = refl
length-take_at zero (t ∷ threads) = refl
length-take_at (suc k) (t ∷ threads) = ap suc (length-take_at k threads)

pub length-idle_at :
    (k : ℕ) (threads : List DataThread) → length (idle_at k threads) ≡ length threads
unfolding idle_at
length-idle_at k [] = refl
length-idle_at zero (t ∷ threads) = refl
length-idle_at (suc k) (t ∷ threads) = ap suc (length-idle_at k threads)

module _ (u : ℕ) where
  front-Sound :
      (t : DataThread) (l : List Signal) → t.queue ≡ l → Sound u t → Sound u (take_front t l)
  unfolding take_front
  front-Sound t [] e h = h
  front-Sound t (x ∷ l) e h = subst (All (Good u)) e h.1

  taken-Sound :
      (t : DataThread) (w : Option Signal)
      → t.working ≡ w
      → Sound u t
      → Sound u (elim w as (λ o. DataThread) [ none ↦ take_front t t.queue | some x ↦ t ])
  taken-Sound t none e h = front-Sound t t.queue refl h
  taken-Sound t (some x) e h = h

  take_at-Sound :
      (k : ℕ) (threads : List DataThread)
      → All (Sound u) threads
      → All (Sound u) (take_at k threads)
  unfolding take_at
  take_at-Sound k [] a = tt
  take_at-Sound zero (t ∷ threads) a = (taken-Sound t t.working refl a.0, a.1)
  take_at-Sound (suc k) (t ∷ threads) a = (a.0, take_at-Sound k threads a.1)

  pub idle_at-Sound :
      (k : ℕ) (threads : List DataThread)
      → All (Sound u) threads
      → All (Sound u) (idle_at k threads)
  unfolding idle_at
  idle_at-Sound k [] a = tt
  idle_at-Sound zero (t ∷ threads) a = ((tt, a.0.1), a.1)
  idle_at-Sound (suc k) (t ∷ threads) a = (a.0, idle_at-Sound k threads a.1)

  pub working-Good :
      (k : ℕ) (x : Signal) (threads : List DataThread)
      → working_at k threads ≡ some x
      → All (Sound u) threads
      → Good u x
  unfolding working_at
  working-Good k x [] e a = absurd (cc e)
  working-Good zero x (t ∷ threads) e a = subst (Runs u) e a.0.0
  working-Good (suc k) x (t ∷ threads) e a = working-Good k x threads e a.1

  -- A thread takes the front of its queue.
  pub thread_take-Inv :
      (k : ℕ) (log : List ℕ) (s : DataFlush) → Inv u log s → Inv u log (thread_take k s)
  unfolding thread_take
  thread_take-Inv k log s i = elim (Bool-cases s.running) [
    | inl e ↦
        subst (λ b. Inv u log (if b then record s { threads = take_at k s.threads } else s)) (sym e)
          (record {
            fits = record {
              order = rw (in_threads-take_at u k s.threads) i.fits.order;
              within = rw (in_threads-take_at u k s.threads) i.fits.within;
              stays = i.fits.stays;
            };
            owned = i.owned;
            sound = take_at-Sound k s.threads i.sound;
            staffed = rw (length-take_at k s.threads) i.staffed;
            apart = i.apart;
          })
    | inr e ↦
        subst (λ b. Inv u log (if b then record s { threads = take_at k s.threads } else s)) (sym e)
          i
  ]

  -- A state that differs in the notifications only, and for the user in pages only.
  pub record Alike (s t : DataFlush) : Type 0 where
    pub sent : t.sent ≡ s.sent
    pub threads : t.threads ≡ s.threads
    pub global : t.global ≡ s.global
    pub pending : (n : ℕ) → (t.users n).pending ≡ (s.users n).pending
    pub lock : (t.users u).lock ≡ (s.users u).lock
    pub quitting : (t.users u).quitting ≡ (s.users u).quitting
    pub back : finals (t.users u).notifications ≡ finals (s.users u).notifications

  Alike-trans : (s t v : DataFlush) → Alike s t → Alike t v → Alike s v
  Alike-trans s t v a b = record {
    sent = b.sent ∙ a.sent;
    threads = b.threads ∙ a.threads;
    global = b.global ∙ a.global;
    pending = λ n. b.pending n ∙ a.pending n;
    lock = b.lock ∙ a.lock;
    quitting = b.quitting ∙ a.quitting;
    back = b.back ∙ a.back;
  }

  Alike-refl : (s : DataFlush) → Alike s s
  Alike-refl s = record {
    sent = refl;
    threads = refl;
    global = refl;
    pending = λ n. refl;
    lock = refl;
    quitting = refl;
    back = refl;
  }

  pub Alike-attach :
      (x : Signal) (s : DataFlush)
      → (not (x.user == u) || x.query.partial) ≡ true
      → Alike s (attach_result x s)
  unfolding attach_result set_user
  Alike-attach x s h = record {
    sent = refl;
    threads = refl;
    global = refl;
    pending = λ n. elim (Bool-cases (n == x.user)) [
      | inl e ↦ rw e (ap (λ m. (s.users m).pending) (sym (same_user u n x.user e)))
      | inr e ↦ rw e refl
    ];
    lock = of_user (λ v. v.lock) (λ v l. refl);
    quitting = of_user (λ v. v.quitting) (λ v l. refl);
    back = elim (Bool-cases (u == x.user)) [
      | inl e ↦
          let own : x.user ≡ u = sym (same_user u u x.user e) in
          rw e (
            finals-append (s.users x.user).notifications x
            ∙ rw (page own) (append-nil (finals (s.users x.user).notifications))
            ∙ ap (λ m. finals (s.users m).notifications) own)
      | inr e ↦ rw e refl
    ];
  }
    where
      page : x.user ≡ u → x.query.partial ≡ true
      page own = ground (arith, ap (λ n. n == u) own, self u u, h)

      of_user :
          (f : UserState → Bool)
          → ((v : UserState) (l : List Signal) → f (record v { notifications = l }) ≡ f v)
          → f (
              (set_user x.user
                  (record (s.users x.user) {
                    notifications = (s.users x.user).notifications ++ x ∷ [];
                  })
                  s).users
                u)
            ≡ f (s.users u)
      of_user f k = elim (Bool-cases (u == x.user)) [
        | inl e ↦
            rw e (k (s.users x.user) _ ∙ ap (λ m. f (s.users m)) (sym (same_user u u x.user e)))
        | inr e ↦ rw e refl
      ]

  pub Alike-attach_all :
      (l : List Signal) (s : DataFlush)
      → All (λ x. (not (x.user == u) || x.query.partial) ≡ true) l
      → Alike s (attach_all l s)
  unfolding attach_all
  Alike-attach_all [] s a = Alike-refl s
  Alike-attach_all (x ∷ l) s a =
      Alike-trans s (attach_result x s) (attach_all l (attach_result x s)) (Alike-attach x s a.0)
        (Alike-attach_all l (attach_result x s) a.1)

  pub Alike-Inv : (log : List ℕ) (s t : DataFlush) → Alike s t → Inv u log s → Inv u log t
  Alike-Inv log s t a i = record {
    fits = record {
      order = rw (a.sent, a.threads, a.back, a.pending u) i.fits.order;
      within = rw (a.threads, a.back, a.lock) i.fits.within;
      stays = a.quitting ∙ i.fits.stays;
    };
    owned = λ n. subst (All (Owned u n)) (sym (a.pending n)) (i.owned n);
    sound = subst (All (Sound u)) (sym a.threads) i.sound;
    staffed = subst (λ (l : List DataThread). 0 < length l) (sym a.threads) i.staffed;
    apart = ap (λ n. n == u) a.global ∙ i.apart;
  }
