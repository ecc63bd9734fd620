-- ===== src/Flusher/Order.antt =====
-- The invariant of the flush queues for one user: its queries are answered in the order in which they were pushed,
-- one at a time.
use beryldb.Prelude.{
  ℕ, ◌+◌, ◌≤◌, ◌<◌, ◌≡◌, refl, sym, ap, ◌∙◌, subst, Bool, true, false, not, ◌||◌, Option, none,
  some, List, [], ◌∷◌, ◌++◌, All, All-append, length, arith, ◌==◌, if◌then◌else◌, Bool-cases, inl,
  inr,
}
use mathlib.Core.List.{append_assoc, append-nil}
use beryldb.Flusher.{Signal, UserState, DataThread, DataFlush, push, set_user}
use beryldb.Flusher.View.{refs, finals, is_plain, mine, in_threads, answers}

abbrev pub room : Bool → ℕ
room true = 1
room false = 0

module _ (u : ℕ) where
  -- A query of the user is plain.
  abbrev pub Good : Signal → Type 0
  Good x = (not (x.user == u) || is_plain x.query) ≡ true

  abbrev pub Runs : Option Signal → Type 0
  Runs none = Unit {0}
  Runs (some x) = Good x

  abbrev pub Sound : DataThread → Type 0
  Sound t = Runs t.working × All Good t.queue

  abbrev pub Owned : ℕ → Signal → Type 0
  Owned n x = (x.user ≡ n) × Good x

  -- The state of the user beside the threads and the replies: `log` has the queries that the user pushed, in order.
  -- At most one of them is on its way, and none where the user is not locked.
  pub record Fits (log : List ℕ) (sent : List (ℕ × Signal)) (threads : List DataThread)
      (v : UserState) : Type 0 where
    pub order :
        answers u sent ++ (in_threads u threads ++ (finals v.notifications ++ refs v.pending)) ≡ log
    pub within : length (in_threads u threads) + length (finals v.notifications) ≤ room v.lock
    pub stays : v.quitting ≡ false

  pub record Inv (log : List ℕ) (s : DataFlush) : Type 0 where
    pub fits : Fits log s.sent s.threads (s.users u)
    pub owned : (n : ℕ) → All (Owned n) (s.users n).pending
    pub sound : All Sound s.threads
    pub staffed : 0 < length s.threads
    pub apart : (s.global == u) ≡ false

  pub refs-append : (l : List Signal) (x : Signal) → refs (l ++ x ∷ []) ≡ refs l ++ x.ref ∷ []
  refs-append [] x = refl
  refs-append (y ∷ l) x = ap (λ r. y.ref ∷ r) (refs-append l x)

  pub regroup : (a b c d e : List ℕ) → a ++ (b ++ (c ++ (d ++ e))) ≡ (a ++ (b ++ (c ++ d))) ++ e
  regroup a b c d e = simp append_assoc

  pub same_user : (n m : ℕ) → (n == m) ≡ true → n ≡ m
  same_user n m e = ground arith

  pub other : (n m : ℕ) → (m == n) ≡ false → (n == m) ≡ false
  other n m e = ground arith

  pub self : (n : ℕ) → (n == n) ≡ true
  self n = ground arith

  -- What the users' states are behind an update.
  pub Owned-set :
      (n : ℕ) (v : UserState) (s : DataFlush)
      → All (Owned n) v.pending
      → ((m : ℕ) → All (Owned m) (s.users m).pending)
      → (m : ℕ) → All (Owned m) ((set_user n v s).users m).pending
  unfolding set_user
  Owned-set n v s here all m = elim (Bool-cases (m == n)) [
    | inl e ↦ rw e (subst (λ k. All (Owned k) v.pending) (sym (same_user m n e)) here)
    | inr e ↦ rw e (all m)
  ]

  -- A change to another user.
  pub other-Inv :
      (n : ℕ) (v : UserState) (log : List ℕ) (s : DataFlush)
      → (n == u) ≡ false
      → All (Owned n) v.pending
      → Inv log s
      → Inv log (set_user n v s)
  unfolding set_user
  other-Inv n v log s e here i =
      let same : (set_user n v s).users u ≡ s.users u = unfold set_user in rw (other u n e) refl in
      record {
        fits = subst (Fits log s.sent s.threads) (sym same) i.fits;
        owned = Owned-set n v s here i.owned;
        sound = i.sound;
        staffed = i.staffed;
        apart = i.apart;
      }

  -- A change to the user.
  pub own-Inv :
      (n : ℕ) (v : UserState) (log : List ℕ) (s : DataFlush)
      → n ≡ u
      → Fits log s.sent s.threads v
      → All (Owned n) v.pending
      → ((n : ℕ) → All (Owned n) (s.users n).pending)
      → All Sound s.threads
      → 0 < length s.threads
      → (s.global == u) ≡ false
      → Inv log (set_user n v s)
  unfolding set_user
  own-Inv n v log s e fits here all sound staffed apart =
      let same : v ≡ (set_user n v s).users u = unfold set_user in rw e (rw (self u) refl) in
      record {
        fits = subst (Fits log s.sent s.threads) same fits;
        owned = Owned-set n v s here all;
        sound = sound;
        staffed = staffed;
        apart = apart;
      }

  pub Fits-at :
      (log : List ℕ) (s : DataFlush) (n : ℕ)
      → n ≡ u
      → Inv log s
      → Fits log s.sent s.threads (s.users n)
  Fits-at log s n e i = subst (λ k. Fits log s.sent s.threads (s.users k)) (sym e) i.fits

  -- A user that is not connected any more pushes nothing.
  pub push-Inv :
      (x : Signal) (log : List ℕ) (s : DataFlush)
      → Good x
      → Inv log s
      → Inv (log ++ mine u x) (push x s)
  unfolding push
  push-Inv x log s good i = elim (Bool-cases (x.user == u)) [
    | inl e ↦
        let own : x.user ≡ u = same_user x.user u e in
        let w = s.users x.user in
        let f : Fits log s.sent s.threads w = Fits-at log s x.user own i in
        let v : UserState = record w { pending = w.pending ++ x ∷ [] } in
        let fits : Fits (log ++ x.ref ∷ []) s.sent s.threads v = record {
          order = rw (refs-append w.pending x) (
              regroup (answers u s.sent) (in_threads u s.threads) (finals w.notifications)
                (refs w.pending) (x.ref ∷ [])
              ∙ ap (λ l. l ++ x.ref ∷ []) f.order);
          within = f.within;
          stays = f.stays;
        } in
        let after =
          own-Inv x.user v (log ++ x.ref ∷ []) s own fits
            (All-append (Owned x.user) w.pending (x ∷ []) (i.owned x.user) ((refl, good), tt))
            i.owned i.sound i.staffed i.apart in
        rw e (
          subst (λ b. Inv (log ++ x.ref ∷ []) (if b then s else set_user x.user v s)) (sym f.stays)
            after)
    | inr e ↦ rw e (
        rw (append-nil log) (elim (Bool-cases (s.users x.user).quitting) [
          | inl q ↦ rw q i
          | inr q ↦ rw q (
              other-Inv x.user _ log s e
                (All-append (Owned x.user) (s.users x.user).pending (x ∷ []) (i.owned x.user)
                  ((refl, good), tt))
                i)
        ]))
  ]

  pub either-Inv :
      (b : Bool) (log : List ℕ) (s t : DataFlush)
      → Inv log s
      → Inv log t
      → Inv log (if b then s else t)
  either-Inv true log s t i j = i
  either-Inv false log s t i j = j
