-- ===== src/Expires/Tests.antt =====
-- The theorems about the timers applied to a concrete manager.
use beryldb.Prelude.{
  ℕ, ◌%◌, ◌≤◌, ◌≡◌, refl, true, false, Option, some, none, [], ◌∷◌, ◌++◌, map, Str, str_eq, arith,
  str_cmp,
}
use beryldb.Machine.{ret, ◌>>=◌, to_int, u32_mod}
use beryldb.Machine.ℤ.{pos}
use beryldb.Stl.Timed.{below, InOrder}
use beryldb.Stl.TimedLaws.{passing}
use beryldb.Expires.Live.{IsPushed, add-flush}
use beryldb.Expires.{ExpireManager, new_entry, del_query}
use beryldb.Expires.{
  ExpireEntry, ExpireManager, add, get_time, flush, new_entry, expire_delete, of_select, count,
}
use beryldb.Expires.Mutex.{adds, Returns, step, step-Returns}
use beryldb.Expires.Laws.{timers, IsDated, add-get_time, timers-add, flush-below, count-passing}

abbrev entry : Str → ℕ → ExpireEntry
entry key time = record {
  schedule = time;
  added = 5;
  epoch = true;
  secs = time;
  select = 1;
  key = key;
  database = 3;
}

-- Two keys of select 1 of database 3.
abbrev two_timers : ExpireManager
two_timers = record {
  expire_list = (10, entry (b'a' ∷ []) 10) ∷ (20, entry (b'b' ∷ []) 20) ∷ [];
  mute = false;
  pushed = [];
}

-- `DBM->Find` where only the empty name has a database.
abbrev only_empty : Str → Option ℕ
only_empty [] = some 3
only_empty (c ∷ s) = none

two_timers-InOrder : InOrder two_timers.expire_list
two_timers-InOrder = ((omega arith, tt), (tt, tt))

two_timers-IsDated : IsDated two_timers.expire_list
unfolding to_int
two_timers-IsDated = (refl, (refl, tt))

one_of_a : timers 3 (b'a' ∷ []) 1 two_timers ≤ 1
unfolding timers passing str_eq str_cmp
one_of_a = omega arith

step-Returns_example : Returns (step only_empty (adds 3 (pos 7) (b'a' ∷ []) 1 false 100) two_timers)
step-Returns_example =
    step-Returns only_empty two_timers (refl, two_timers-InOrder)
      (adds 3 (pos 7) (b'a' ∷ []) 1 false 100)

add-get_time_example :
    (add 3 (pos 7) (b'a' ∷ []) 1 false 100 two_timers >>= λ r.
    get_time 3 (b'a' ∷ []) 1 r.0 >>= λ t. ret t.1)
    ≡ ret (to_int (new_entry 3 7 (b'a' ∷ []) 1 false 100).schedule)
add-get_time_example =
    add-get_time two_timers refl 3 7 (b'a' ∷ []) 1 false 100 two_timers-IsDated one_of_a

timers-add_example :
    (add 3 (pos 7) (b'a' ∷ []) 1 false 100 two_timers >>= λ r. ret (timers 3 (b'a' ∷ []) 1 r.0))
    ≡ ret 1
timers-add_example =
    timers-add two_timers refl 3 7 (b'a' ∷ []) 1 false 100 two_timers-IsDated one_of_a

flush-below_example :
    flush 15 two_timers
    ≡ ret (record two_timers {
      pushed = two_timers.pushed ++ map expire_delete (below 15 two_timers.expire_list);
    })
flush-below_example = flush-below 15 two_timers refl two_timers-InOrder

count-passing_example :
    (count only_empty [] 1 two_timers >>= λ r. ret r.1)
    ≡ ret (passing (of_select 1 3) two_timers.expire_list % u32_mod)
count-passing_example = count-passing only_empty [] 3 1 two_timers refl refl

add-flush_example :
    (s' : ExpireManager) × ((add 3 (pos 7) (b'a' ∷ []) 1 false 100 two_timers >>= λ r.
    flush 108 r.0)
      ≡ ret s')
    × IsPushed (del_query 3 1 (b'a' ∷ [])) s'.pushed
add-flush_example =
    add-flush two_timers 3 7 (b'a' ∷ []) 1 false 100 108 refl two_timers-InOrder
      (unfold new_entry in omega arith)
