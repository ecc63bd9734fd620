-- ===== src/Flusher/Loop.antt =====
-- The loop of `GetPending`, and `Process` of the main loop, for one user.
use beryldb.Prelude.{
  ℕ, ◌+◌, ◌≤◌, ◌≡◌, refl, sym, ap, ◌∙◌, subst, Bool, true, false, not, ◌&&◌, ◌||◌, List, [], ◌∷◌,
  All, length, arith, ◌==◌, if◌then◌else◌, Bool-cases, inl, inr,
}
use beryldb.Machine.{Outcome, ret, fault, ◌>>=◌}
use beryldb.Stl.{is_nil}
use beryldb.Flusher.{
  Signal, DataFlush, set_user, set_lock, to_use, process_front, pending_loop, get_pending, process,
  get_results,
}
use beryldb.Flusher.View.{finals, in_threads, to_use-lt}
use beryldb.Flusher.Order.{room, Owned, Inv, other-Inv, own-Inv, self, same_user, Fits-at}
use beryldb.Flusher.Results.{zero_of, get_results-Inv}
use beryldb.Flusher.Pending.{OnRet, post-own, post-other, set_lock-other}

either-ret :
    (P : DataFlush → Type 0) (b : Bool) (s t : DataFlush)
    → P s
    → P t
    → OnRet P (if b then ret s else ret t)
either-ret P true s t p q = p
either-ret P false s t p q = q

>>=-OnRet :
    (P : DataFlush → Type 0) (m : Outcome DataFlush) (f : DataFlush → Outcome DataFlush)
    → OnRet P m
    → ((s : DataFlush) → P s → OnRet P (f s))
    → OnRet P (m >>= f)
>>=-OnRet P (ret s) f p k = k s p
>>=-OnRet P (fault e) f p k = tt

module _ (u : ℕ) where
  front-other :
      (draw n : ℕ) (l : List Signal) (log : List ℕ) (s : DataFlush)
      → (n == u) ≡ false
      → All (Owned u n) l
      → Inv u log s
      → OnRet (Inv u log) (process_front draw n l s)
  unfolding process_front
  front-other draw n [] log s e a i = tt
  front-other draw n (x ∷ l) log s e a i =
      either-ret (Inv u log) s.running _ s
        (post-other u (to_use draw s.threads) x log _ (ap (λ m. m == u) a.0.0 ∙ e) a.0.1
          (other-Inv u n (record (s.users n) { pending = l }) log s e a.1 i))
        i

  locked-Inv :
      (n : ℕ) (log : List ℕ) (s : DataFlush)
      → n ≡ u
      → in_threads u s.threads ≡ []
      → finals (s.users n).notifications ≡ []
      → Inv u log s
      → Inv u log (set_lock n true s)
  unfolding set_lock
  locked-Inv n log s own idle back i =
      let f = Fits-at u log s n own i in
      own-Inv u n (record (s.users n) { lock = true }) log s own
        (record { order = f.order; within = rw idle (rw back (omega arith)); stays = f.stays })
        (i.owned n) i.owned i.sound i.staffed i.apart

  front-own :
      (draw n : ℕ) (l : List Signal) (log : List ℕ) (s : DataFlush)
      → n ≡ u
      → (s.users n).pending ≡ l
      → (s.users n).lock ≡ false
      → Inv u log s
      → OnRet (Inv u log) (process_front draw n l (set_lock n true s))
  unfolding process_front
  front-own draw n [] log s own q free i = tt
  front-own draw n (x ∷ l) log s own q free i =
      let w = s.users n in
      let f = Fits-at u log s n own i in
      let idle : in_threads u s.threads ≡ [] = zero_of u (in_threads u s.threads) (
        omega (
          arith,
          subst (λ b. length (in_threads u s.threads) + length (finals w.notifications) ≤ room b)
              free f.within,
        )) in
      let back : finals w.notifications ≡ [] = zero_of u (finals w.notifications) (
        omega (
          arith,
          subst (λ b. length (in_threads u s.threads) + length (finals w.notifications) ≤ room b)
              free f.within,
        )) in
      let s1 = set_lock n true s in
      let j = locked-Inv n log s own idle back i in
      let same : s1.users n ≡ record w { lock = true } =
        unfold set_lock set_user in rw (self u n) refl in
      let a : All (Owned u n) (x ∷ l) = subst (All (Owned u n)) q (i.owned n) in
      either-ret (Inv u log) s.running _ s1
        (post-own u (to_use draw s.threads) x l log s1 n own a.0.0 a.0.1
          (to_use-lt u draw s.threads i.staffed) (ap (λ v. v.pending) same ∙ q)
          (ap (λ v. v.lock) same) idle (ap (λ v. finals v.notifications) same ∙ back) a.1 j)
        j

  not_locked :
      (quitting nothing lock : Bool)
      → quitting ≡ false
      → (not quitting && (nothing || lock)) ≡ false
      → lock ≡ false
  not_locked true nothing lock q h = absurd (cc q)
  not_locked false true lock q h = absurd (cc h)
  not_locked false false lock q h = h

  pending_loop-Inv :
      (draws : ℕ → ℕ) (instances : List ℕ) (log : List ℕ) (s : DataFlush)
      → Inv u log s
      → OnRet (Inv u log) (pending_loop draws instances s)
  unfolding pending_loop
  pending_loop-Inv draws [] log s i = i
  pending_loop-Inv draws (n ∷ instances) log s i =
      let w = s.users n in
      let rest = pending_loop-Inv draws instances log in
      elim (Bool-cases (not w.quitting && (is_nil w.pending || w.lock))) [
        | inl e ↦
            subst
              (λ b. OnRet (Inv u log) (
                if b
                then pending_loop draws instances s
                else (process_front (draws n) n w.pending (set_lock n true s)
                    >>= pending_loop draws instances)))
              (sym e) (rest s i)
        | inr e ↦
            subst
              (λ b. OnRet (Inv u log) (
                if b
                then pending_loop draws instances s
                else (process_front (draws n) n w.pending (set_lock n true s)
                    >>= pending_loop draws instances)))
              (sym e)
              (>>=-OnRet (Inv u log) (process_front (draws n) n w.pending (set_lock n true s))
                (pending_loop draws instances)
                (elim (Bool-cases (n == u)) [
                  | inl own ↦
                      let same = same_user u n u own in
                      front-own (draws n) n w.pending log s same refl
                        (not_locked w.quitting (is_nil w.pending) w.lock
                          (Fits-at u log s n same i).stays e)
                        i
                  | inr apart ↦
                      front-other (draws n) n w.pending log (set_lock n true s) apart (i.owned n)
                        (set_lock-other u n true log s apart i)
                ])
                rest)
      ]

  get_pending-Inv :
      (draws : ℕ → ℕ) (log : List ℕ) (s : DataFlush)
      → Inv u log s
      → OnRet (Inv u log) (get_pending draws s)
  unfolding get_pending
  get_pending-Inv draws log s i = elim (Bool-cases (is_nil (s.users s.global).pending)) [
    | inl e ↦ rw e (pending_loop-Inv draws s.instances log s i)
    | inr e ↦ rw e (
        front-other (draws s.global) s.global (s.users s.global).pending log s i.apart
          (i.owned s.global) i)
  ]

  -- `Process` keeps the invariant.
  pub process-Inv :
      (draws : ℕ → ℕ) (log : List ℕ) (s : DataFlush)
      → Inv u log s
      → OnRet (Inv u log) (process draws s)
  unfolding process
  process-Inv draws log s i = elim (Bool-cases s.running) [
    | inl e ↦
        subst
          (λ b.
            OnRet (Inv u log) (if b then get_pending draws (get_results s.instances s) else ret s))
          (sym e)
          (get_pending-Inv draws log (get_results s.instances s)
            (get_results-Inv u s.instances log s i))
    | inr e ↦
        subst
          (λ b.
            OnRet (Inv u log) (if b then get_pending draws (get_results s.instances s) else ret s))
          (sym e) i
  ]
