-- ===== src/Futures/Tests.antt =====
-- The theorems about the futures applied to a concrete manager.
use beryldb.Prelude.{◌≡◌, refl, true, false, [], ◌∷◌, ◌++◌, map, str_eq, str_cmp}
use beryldb.Machine.{ret, fault, relock}
use beryldb.Stl.Timed.{below}
use beryldb.Stl.TimedLaws.{passing}
use beryldb.Futures.{FutureManager, get_tte, flush, future_execute}
use beryldb.Futures.Laws.{get_tte_relock, futures_of, flush-below_futures}

abbrev one_future : FutureManager
one_future = record {
  future_list =
      (
        10,
        record {
          schedule = 10;
          added = 5;
          epoch = true;
          secs = 10;
          select = 1;
          key = b'a' ∷ [];
          value = [];
          database = 3;
        },
      )
      ∷ [];
  mute = false;
  pushed = [];
}

none_of_b : futures_of 3 (b'b' ∷ []) 1 one_future ≡ 0
unfolding futures_of passing str_eq str_cmp
none_of_b = refl

get_tte_relock_example : get_tte 3 (b'a' ∷ []) 1 one_future ≡ fault relock
get_tte_relock_example = get_tte_relock 3 (b'a' ∷ []) 1 one_future

flush-below_futures_example :
    flush 15 one_future
    ≡ ret (record one_future {
      pushed = one_future.pushed ++ map future_execute (below 15 one_future.future_list);
    })
flush-below_futures_example = flush-below_futures 15 one_future refl (tt, tt)
