-- ===== src/Flusher/Pending.antt =====
-- `GetPending` of the flush queues, for one user.
use beryldb.Prelude.{
  ℕ, zero, suc, ◌<◌, ◌≡◌, refl, sym, ap, ◌∙◌, subst, Bool, true, false, List, [], ◌∷◌, ◌++◌, All,
  All-append, length, arith, ◌==◌, Bool-cases, inl, inr,
}
use mathlib.Core.List.{append_assoc}
use beryldb.Machine.{Outcome, ret, fault}
use beryldb.Flusher.{Signal, UserState, DataThread, DataFlush, set_user, set_lock, enqueue, post}
use beryldb.Flusher.View.{
  refs, finals, in_threads, answers, answers-append, enqueue-own, enqueue-other,
}
use beryldb.Flusher.Order.{
  Good, Owned, Sound, Fits, Inv, other-Inv, own-Inv, self, Fits-at, Owned-set,
}
use beryldb.Flusher.Results.{sent-Inv}

-- What holds of the state that is returned.
abbrev pub OnRet : (DataFlush → Type 0) → Outcome DataFlush → Type 0
OnRet P (ret s) = P s
OnRet P (fault e) = Unit

enqueue-length :
    (k : ℕ) (x : Signal) (threads : List DataThread) → length (enqueue k x threads) ≡ length threads
unfolding enqueue
enqueue-length k x [] = refl
enqueue-length zero x (t ∷ threads) = refl
enqueue-length (suc k) x (t ∷ threads) = ap suc (enqueue-length k x threads)

module _ (u : ℕ) where
  enqueue-Sound :
      (k : ℕ) (x : Signal) (threads : List DataThread)
      → Good u x
      → All (Sound u) threads
      → All (Sound u) (enqueue k x threads)
  unfolding enqueue
  enqueue-Sound k x [] g a = tt
  enqueue-Sound zero x (t ∷ threads) g a =
      ((a.0.0, All-append (Good u) t.queue (x ∷ []) a.0.1 (g, tt)), a.1)
  enqueue-Sound (suc k) x (t ∷ threads) g a = (a.0, enqueue-Sound k x threads g a.1)

  pub set_lock-other :
      (n : ℕ) (b : Bool) (log : List ℕ) (s : DataFlush)
      → (n == u) ≡ false
      → Inv u log s
      → Inv u log (set_lock n b s)
  unfolding set_lock
  set_lock-other n b log s e i =
      other-Inv u n (record (s.users n) { lock = b }) log s e (i.owned n) i

  -- A query of another user that is posted.
  pub post-other :
      (k : ℕ) (x : Signal) (log : List ℕ) (s : DataFlush)
      → (x.user == u) ≡ false
      → Good u x
      → Inv u log s
      → Inv u log (post k x s)
  unfolding post
  post-other k x log s e g i = elim (Bool-cases (s.closing x.query.database)) [
    | inl c ↦ rw c (set_lock-other x.user false log _ e (sent-Inv u x.user x log s (rw e refl) i))
    | inr c ↦ rw c (record {
      fits = record {
        order = rw (enqueue-other u k x s.threads e) i.fits.order;
        within = rw (enqueue-other u k x s.threads e) i.fits.within;
        stays = i.fits.stays;
      };
      owned = i.owned;
      sound = enqueue-Sound k x s.threads g i.sound;
      staffed = rw (enqueue-length k x s.threads) i.staffed;
      apart = i.apart;
    })
  ]

  plain-final : (x : Signal) → x.user ≡ u → Good u x → x.query.partial ≡ false
  plain-final x e g = ground (arith, ap (λ n. n == u) e, self u u)

  -- Where none of the user's queries is on its way, the next one waits.
  module _ (x : Signal) (l : List Signal) (log : List ℕ) (sent : List (ℕ × Signal))
      (threads : List DataThread) (w : UserState) (own : x.user ≡ u) (g : Good u x)
      (wait : w.pending ≡ x ∷ l) (idle : in_threads u threads ≡ [])
      (back : finals w.notifications ≡ []) (f : Fits u log sent threads w) where
    next_is : answers u sent ++ x.ref ∷ refs l ≡ log
    next_is =
        let shape : answers u sent
              ++ (in_threads u threads ++ (finals w.notifications ++ refs w.pending))
            ≡ answers u sent ++ x.ref ∷ refs l =
          rw idle (rw back (rw wait refl)) in
        sym shape ∙ f.order

    -- It is refused.
    refuse-Fits :
        Fits u log (sent ++ (x.user, x) ∷ []) threads (record w { pending = l; lock = false })
    refuse-Fits =
        let answered : answers u (sent ++ (x.user, x) ∷ []) ≡ answers u sent ++ x.ref ∷ [] =
          answers-append u sent x.user x ∙ rw (plain-final x own g) (rw own (rw (self u u) refl)) in
        record {
          order =
              rw answered
                (rw idle (rw back (append_assoc (answers u sent) (x.ref ∷ []) (refs l) ∙ next_is)));
          within = rw idle (rw back (omega arith));
          stays = f.stays;
        }

    -- It goes to a thread.
    enqueue-Fits :
        (k : ℕ)
        → k < length threads
        → w.lock ≡ true
        → Fits u log sent (enqueue k x threads) (record w { pending = l })
    enqueue-Fits k h locked =
        let there : in_threads u (enqueue k x threads) ≡ x.ref ∷ [] =
          enqueue-own u k x threads (ap (λ n. n == u) own ∙ self u u) h idle in
        record {
          order = rw there (rw back next_is);
          within = rw there (rw back (rw locked (omega arith)));
          stays = f.stays;
        }

  -- The query of the user that is posted where none is on its way: it waits in a thread, or it is refused.
  pub post-own :
      (k : ℕ) (x : Signal) (l : List Signal) (log : List ℕ) (s : DataFlush) (n : ℕ)
      → n ≡ u
      → x.user ≡ n
      → Good u x
      → k < length s.threads
      → (s.users n).pending ≡ x ∷ l
      → (s.users n).lock ≡ true
      → in_threads u s.threads ≡ []
      → finals (s.users n).notifications ≡ []
      → All (Owned u n) l
      → Inv u log s
      → Inv u log (post k x (set_user n (record (s.users n) { pending = l }) s))
  unfolding post set_lock
  post-own k x l log s n own mine g h wait locked idle back rest i =
      let w = s.users n in
      let w0 : UserState = record w { pending = l } in
      let f = Fits-at u log s n own i in
      let s0 : DataFlush = record s { sent = s.sent ++ (x.user, x) ∷ [] } in
      let same : w0 ≡ (set_user n w0 s0).users x.user =
        unfold set_user in rw mine (rw (self u n) refl) in
      let all = Owned-set u n w0 s0 rest i.owned in
      elim (Bool-cases (s.closing x.query.database)) [
        | inl c ↦ rw c (
            own-Inv u x.user (record ((set_user n w0 s0).users x.user) { lock = false }) log
              (set_user n w0 s0) (mine ∙ own)
              (subst (λ v. Fits u log s0.sent s.threads (record v { lock = false })) same
                (refuse-Fits x l log s.sent s.threads w (mine ∙ own) g wait idle back f))
              (all x.user) all i.sound i.staffed i.apart)
        | inr c ↦ rw c (
            own-Inv u n w0 log (record s { threads = enqueue k x s.threads }) own
              (enqueue-Fits x l log s.sent s.threads w (mine ∙ own) g wait idle back f k h locked)
              rest i.owned (enqueue-Sound k x s.threads g i.sound)
              (rw (enqueue-length k x s.threads) i.staffed) i.apart)
      ]
