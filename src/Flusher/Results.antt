-- ===== src/Flusher/Results.antt =====
-- `GetResults` of the flush queues, for one user.
use beryldb.Prelude.{
  ℕ, suc, ◌≤◌, ◌≡◌, refl, sym, ap, ◌∙◌, subst, Bool, true, false, List, [], ◌∷◌, ◌++◌, length,
  arith, ◌==◌, if◌then◌else◌, Bool-cases, inl, inr,
}
use mathlib.Core.List.{append_assoc, append-nil}
use beryldb.Flusher.{Signal, UserState, DataThread, DataFlush, set_user, result_of, get_results}
use beryldb.Flusher.View.{refs, finals, in_threads, answers, answers-append}
use beryldb.Flusher.Order.{
  room, Fits, Inv, other-Inv, own-Inv, self, same_user, Fits-at, either-Inv,
}

module _ (u : ℕ) where
  -- A reply that is no answer to the user.
  pub sent-Inv :
      (n : ℕ) (x : Signal) (log : List ℕ) (s : DataFlush)
      → answers u ((n, x) ∷ []) ≡ []
      → Inv u log s
      → Inv u log (record s { sent = s.sent ++ (n, x) ∷ [] })
  sent-Inv n x log s e i =
      let same : answers u (s.sent ++ (n, x) ∷ []) ≡ answers u s.sent =
        answers-append u s.sent n x ∙ rw e (append-nil (answers u s.sent)) in
      record {
        fits = record {
          order = rw same i.fits.order;
          within = i.fits.within;
          stays = i.fits.stays;
        };
        owned = i.owned;
        sound = i.sound;
        staffed = i.staffed;
        apart = i.apart;
      }

  pub zero_of : (xs : List ℕ) → length xs ≤ 0 → xs ≡ []
  zero_of [] h = refl
  zero_of (x ∷ xs) h = absurd (omega arith)

  pub room-le : (b : Bool) → room b ≤ 1
  room-le true = omega arith
  room-le false = omega arith

  -- The reply to a query that ran: it was the only one on its way.
  reply-Fits :
      (x : Signal) (l : List Signal) (log : List ℕ) (sent : List (ℕ × Signal))
      (threads : List DataThread) (w : UserState) (n : ℕ)
      → n ≡ u
      → x.query.partial ≡ false
      → w.notifications ≡ x ∷ l
      → Fits u log sent threads w
      → Fits u log (sent ++ (n, x) ∷ []) threads (record w { notifications = l; lock = false })
  reply-Fits x l log sent threads w n own whole q f =
      let a = answers u sent in
      let t = in_threads u threads in
      let back : finals w.notifications ≡ x.ref ∷ finals l = rw q (rw whole refl) in
      let size : length (finals w.notifications) ≡ suc (length (finals l)) =
        ap (λ (k : List ℕ). length k) back in
      let none_running : t ≡ [] = zero_of t (omega (arith, f.within, room-le w.lock, size)) in
      let none_back : finals l ≡ [] =
        zero_of (finals l) (omega (arith, f.within, room-le w.lock, size)) in
      let answered : answers u (sent ++ (n, x) ∷ []) ≡ a ++ x.ref ∷ [] =
        answers-append u sent n x ∙ rw own (rw (self u u) (rw whole refl)) in
      let shape : a ++ (t ++ (finals w.notifications ++ refs w.pending))
          ≡ a ++ x.ref ∷ refs w.pending =
        rw none_running (rw back (rw none_back refl)) in
      record {
        order = rw answered (
            rw none_running
              (rw none_back (append_assoc a (x.ref ∷ []) (refs w.pending) ∙ sym shape ∙ f.order)));
        within = rw none_running (rw none_back (omega arith));
        stays = f.stays;
      }

  result-Inv :
      (n : ℕ) (l : List Signal) (log : List ℕ) (s : DataFlush)
      → (s.users n).notifications ≡ l
      → Inv u log s
      → Inv u log (result_of n (s.users n) l s)
  unfolding result_of
  result-Inv n [] log s q i = i
  result-Inv n (x ∷ l) log s q i = elim (Bool-cases (n == u)) [
    | inr e ↦ other-Inv u n _ log _ e (i.owned n) (sent-Inv n x log s (rw e refl) i)
    | inl e ↦ elim (Bool-cases x.query.partial) [
      | inl p ↦
          let own = same_user u n u e in
          let j = sent-Inv n x log s (rw e (rw p refl)) i in
          let f = Fits-at u log (record s { sent = s.sent ++ (n, x) ∷ [] }) n own j in
          let back : finals (s.users n).notifications ≡ finals l = rw q (rw p refl) in
          let w = s.users n in
          let fits : Fits u log (s.sent ++ (n, x) ∷ []) s.threads (record w { notifications = l }) =
            record {
              order = rw (sym back) f.order;
              within = rw (sym back) f.within;
              stays = f.stays;
            } in
          subst
            (λ b. Inv u log (
              set_user n (record w { notifications = l; lock = if b then w.lock else false })
                (record s { sent = s.sent ++ (n, x) ∷ [] })))
            (sym p)
            (own-Inv u n (record w { notifications = l }) log
              (record s { sent = s.sent ++ (n, x) ∷ [] }) own fits (i.owned n) i.owned i.sound
              i.staffed i.apart)
      | inr p ↦
          let own = same_user u n u e in
          let w = s.users n in
          let fits = reply-Fits x l log s.sent s.threads w n own p q (Fits-at u log s n own i) in
          subst
            (λ b. Inv u log (
              set_user n (record w { notifications = l; lock = if b then w.lock else false })
                (record s { sent = s.sent ++ (n, x) ∷ [] })))
            (sym p)
            (own-Inv u n (record w { notifications = l; lock = false }) log
              (record s { sent = s.sent ++ (n, x) ∷ [] }) own fits (i.owned n) i.owned i.sound
              i.staffed i.apart)
    ]
  ]

  -- `GetResults` keeps the invariant.
  pub get_results-Inv :
      (instances : List ℕ) (log : List ℕ) (s : DataFlush)
      → Inv u log s
      → Inv u log (get_results instances s)
  unfolding get_results
  get_results-Inv [] log s i = i
  get_results-Inv (n ∷ instances) log s i = get_results-Inv instances log _ (
      either-Inv u (s.users n).quitting log s _ i
        (result-Inv n (s.users n).notifications log s refl i))
