-- ===== src/MultiMapHandler/Laws.antt =====
-- What the methods of the multimap do to the values that its keys have.
use beryldb.Prelude.{
  ◌<◌, ◌≡◌, ◌≢◌, ap, ◌∙◌, List, [], ◌∷◌, ◌++◌, Str, IsNonempty, All, length, str_eq, str_eq_iff,
  arith, ◌==◌, if◌then◌else◌, Ordering, str_cmp, All-append,
}
use mathlib.Core.List.{append_assoc, append-nil}
use beryldb.Machine.{u32_mod}
use beryldb.Stl.Ordered.{Pairs, multimap_insert, erase_key, values_of}
use beryldb.Stl.OrderedLaws.{
  IsWeaklyAscending, NotBelow, values_of-multimap_insert, values_of-erase_key, count_key-values_of,
  multimap_insert-IsWeaklyAscending, erase_key-IsWeaklyAscending, multimap_insert_end,
  not_lt_of_not_gt, values_of-nil,
}
use beryldb.MultiMapHandler
use beryldb.MultiMapHandler.{MultiMapHandler, get_vals_loop, copy_loop}

get_vals_loop-values_of :
    (key : Str) (results : List Str) (m : Pairs)
    → get_vals_loop key results m ≡ results ++ values_of key m
unfolding get_vals_loop values_of
get_vals_loop-values_of key results [] = rw append-nil
get_vals_loop-values_of key results ((k, v) ∷ m) = ground (
  arith,
  get_vals_loop-values_of key results m,
  get_vals_loop-values_of key (results ++ v ∷ []) m,
  append_assoc results (v ∷ []) (values_of key m),
  str_eq_iff k key,
  str_eq_iff key k,
)

-- On a multimap in order, `Add` of a key that is not empty puts the value behind those that the key has,
-- and leaves the values of every other key.
pub get_vals-add :
    (h : MultiMapHandler) (key value j : Str)
    → IsWeaklyAscending h.mhandler
    → IsNonempty key
    → (MultiMapHandler.get_vals (MultiMapHandler.add h key value) j).1 ≡ (
        if str_eq key j
        then (MultiMapHandler.get_vals h j).1 ++ value ∷ []
        else (MultiMapHandler.get_vals h j).1)
unfolding MultiMapHandler.add MultiMapHandler.get_vals
get_vals-add h [] value j a n = absurd n
get_vals-add h (c ∷ key) value j a n = ground (
  arith,
  get_vals_loop-values_of j [] h.mhandler,
  get_vals_loop-values_of j [] (multimap_insert (c ∷ key) value h.mhandler),
  values_of-multimap_insert (c ∷ key) value j h.mhandler a,
)

-- Where `GetVals` gives fewer than 2^32 values of a key, `Repeats` is their number.
pub repeats-get_vals :
    (h : MultiMapHandler) (key : Str)
    → length (MultiMapHandler.get_vals h key).1 < u32_mod
    → (MultiMapHandler.repeats h key).1 ≡ length (MultiMapHandler.get_vals h key).1
unfolding MultiMapHandler.repeats MultiMapHandler.get_vals
repeats-get_vals h key w = omega (
  arith,
  w,
  count_key-values_of key h.mhandler,
  ap length (get_vals_loop-values_of key [] h.mhandler),
)

-- `Remove` of a key that is not empty: where the multimap has not exactly one pair, it takes out
-- every value of the key and no other; the only pair goes whatever the key is.
pub get_vals-remove :
    (h : MultiMapHandler) (key j : Str)
    → IsNonempty key
    → (MultiMapHandler.get_vals (MultiMapHandler.remove h key) j).1 ≡ (
        if length h.mhandler == 1
        then []
        else if str_eq key j
        then []
        else (MultiMapHandler.get_vals h j).1)
unfolding MultiMapHandler.remove MultiMapHandler.get_vals
get_vals-remove h [] j n = absurd n
get_vals-remove h (c ∷ key) j n = ground (
  arith,
  get_vals_loop-values_of j [] [],
  get_vals_loop-values_of j [] h.mhandler,
  get_vals_loop-values_of j [] (erase_key (c ∷ key) h.mhandler),
  values_of-erase_key (c ∷ key) j h.mhandler,
  values_of-nil j,
)

-- `Add` and `Remove` on a multimap in the order of its keys keep that order.
pub add-remove-IsWeaklyAscending :
    (h : MultiMapHandler) (key value : Str)
    → IsWeaklyAscending h.mhandler
    → IsWeaklyAscending (MultiMapHandler.add h key value).mhandler
      × IsWeaklyAscending (MultiMapHandler.remove h key).mhandler
unfolding MultiMapHandler.add MultiMapHandler.remove
add-remove-IsWeaklyAscending h [] value a = (a, a)
add-remove-IsWeaklyAscending h (c ∷ key) value a = (
  multimap_insert-IsWeaklyAscending (c ∷ key) value h.mhandler a,
  ground (arith, erase_key-IsWeaklyAscending (c ∷ key) h.mhandler a),
)

NoneAbove-snoc :
    (done : Pairs) (p : Str × Str) (m : Pairs)
    → All (λ (q : Str × Str). All (λ (r : Str × Str). str_cmp q.0 r.0 ≢ Ordering.lt) done) m
    → NotBelow p.0 m
    → All
        (λ (q : Str × Str). All (λ (r : Str × Str). str_cmp q.0 r.0 ≢ Ordering.lt) (done ++ p ∷ []))
        m
NoneAbove-snoc done p [] b a = tt
NoneAbove-snoc done p (q ∷ m) b a = (
  All-append (λ (r : Str × Str). str_cmp q.0 r.0 ≢ Ordering.lt) done (p ∷ []) b.0
      (not_lt_of_not_gt p.0 q.0 a.0, tt),
  NoneAbove-snoc done p m b.1 a.1,
)

copy_loop_lem :
    (done m : Pairs)
    → IsWeaklyAscending m
    → All (λ (q : Str × Str). All (λ (r : Str × Str). str_cmp q.0 r.0 ≢ Ordering.lt) done) m
    → copy_loop done m ≡ done ++ m
unfolding copy_loop
copy_loop_lem done [] a b = rw append-nil
copy_loop_lem done ((k, v) ∷ m) a b =
    ap (λ (d : Pairs). copy_loop d m) (multimap_insert_end k v done b.0)
    ∙ copy_loop_lem (done ++ (k, v) ∷ []) m a.1 (NoneAbove-snoc done (k, v) m b.1 a.0)
    ∙ append_assoc done ((k, v) ∷ []) m

none-Before :
    (m : Pairs)
    → All (λ (q : Str × Str). All (λ (r : Str × Str). str_cmp q.0 r.0 ≢ Ordering.lt) []) m
none-Before [] = tt
none-Before (p ∷ m) = (tt, none-Before m)

-- `GetAll` of a multimap in order is a copy of it, pair by pair.
pub get_all_copy :
    (h : MultiMapHandler)
    → IsWeaklyAscending h.mhandler
    → (MultiMapHandler.get_all h).1 ≡ h.mhandler
unfolding MultiMapHandler.get_all
get_all_copy h a = copy_loop_lem [] h.mhandler a (none-Before h.mhandler)
