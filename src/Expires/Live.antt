-- ===== src/Expires/Live.antt =====
-- A key with a timer is deleted in the end: the flush behind its time pushes the query.
use beryldb.Prelude.{
  ℕ, ◌<◌, ◌≡◌, ◌⊎◌, refl, Bool, true, false, List, [], ◌∷◌, ◌++◌, map, Str, arith, Bool-cases, inl,
  inr, ltb,
}
use beryldb.Machine.{ret, ◌>>=◌}
use beryldb.Machine.ℤ.{pos}
use beryldb.Stl.Timed.{insert, below, InOrder}
use beryldb.Stl.TimedLaws.{insert-InOrder}
use beryldb.Expires.{
  ExpireEntry, ExpireMap, ExpireManager, Push, del_query, new_entry, add, expire_delete, flush,
}
use beryldb.Expires.Mutex.{added, cleared, add_from_lem, cleared-InOrder}
use beryldb.Expires.Laws.{flush-below}

-- The query is among those that are pushed.
abbrev pub IsPushed : Push → List Push → Type 0
IsPushed p [] = ⊥
IsPushed p (x ∷ l) = (x ≡ p) ⊎ IsPushed p l

IsPushed-append : (p : Push) (l m : List Push) → IsPushed p m → IsPushed p (l ++ m)
IsPushed-append p [] m h = h
IsPushed-append p (x ∷ l) m h = inr (IsPushed-append p l m h)

-- An entry that is put at a time before the limit is below it.
IsPushed-insert :
    (time limit : ℕ) (e : ExpireEntry) (l : ExpireMap)
    → time < limit
    → IsPushed (expire_delete e) (map expire_delete (below limit (insert time e l)))
unfolding below insert
IsPushed-insert time limit e [] h =
    let early : ltb time limit ≡ true = ground arith in rw early (inl refl)
IsPushed-insert time limit e ((t, a) ∷ l) h =
    let early : ltb time limit ≡ true = ground arith in
    let rest = IsPushed-insert time limit e l h in
    elim (Bool-cases (ltb time t)) [
      | inl first ↦ rw (first, early) (inl refl)
      | inr later ↦ elim (Bool-cases (ltb t limit)) [
        | inl before ↦ rw (later, before) (inr rest)
        | inr behind ↦ rw (later, behind) rest
      ]
    ]

-- Where the mutex is free and the map is in the order of its times, `Add` of a schedule that is not negative and then
-- `Flush` with any time behind the one of the entry both return, and a query that deletes the key is pushed.
pub add-flush :
    (s : ExpireManager) (database schedule : ℕ) (key : Str) (select : ℕ) (epoch : Bool)
    (now time : ℕ)
    → s.mute ≡ false
    → InOrder s.expire_list
    → (new_entry database schedule key select epoch now).schedule < time
    → (s' : ExpireManager) × ((add database (pos schedule) key select epoch now s >>= λ r.
          flush time r.0)
        ≡ ret s')
      × IsPushed (del_query database select key) s'.pushed
unfolding add added new_entry expire_delete
add-flush s database schedule key select epoch now time free order due =
    let e = new_entry database schedule key select epoch now in
    let l = cleared s free database key select in
    let s1 = added s l e in
    (
      record s1 { pushed = s1.pushed ++ map expire_delete (below time s1.expire_list) },
      rw (add_from_lem s free database schedule key select epoch now) (
          flush-below time s1 free
            (insert-InOrder e.schedule e l (cleared-InOrder s (free, order) database key select))),
      IsPushed-append (expire_delete e) s.pushed _ (IsPushed-insert e.schedule time e l due),
    )
