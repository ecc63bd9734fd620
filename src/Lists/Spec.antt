-- ===== src/Lists/Spec.antt =====
-- What the commands of src/brldb/lists.cpp that change a list make of it, as functions of the list of the key.
use beryldb.Prelude.{
  ℕ, ◌≡◌, Bool, true, false, Option, none, some, List, [], ◌∷◌, ◌++◌, reverse, Str, length, take,
  ◌==◌, if◌then◌else◌,
}
use mathlib.Core.Option
use beryldb.Machine.{Outcome, ret, fault}
use beryldb.Stl
use beryldb.Stl.{is_nil, mem, erase_first, remove_all, pop_back}
use beryldb.ListHandler
use beryldb.ListHandler.{ListHandler}
use beryldb.Convert.{convto_num}
use beryldb.Rocks.{Rocks, Deletes}
use beryldb.Query.Types.{Query, World}
use beryldb.Query.Prepare.{Run}
use beryldb.Lists.{
  lpush, lpushnx, lreverse, lsort, lresize, lpop_front, lpop_back, lpopall, ldel, lrop, lrfront,
}

-- The commands that write the key of a list or delete it: all that src/brldb/lists.cpp has.
pub data Command : Type 0 where
  push push_new reverse_list sort_list resize pop_front pop_last pop_all del rop rfront : Command

unfoldable pub run : (r : Rocks) → Command → Run r
run r push = lpush r
run r push_new = lpushnx r
run r reverse_list = lreverse r
run r sort_list = lsort r
run r resize = lresize r
run r pop_front = lpop_front r
run r pop_last = lpop_back r
run r pop_all = lpopall r
run r del = ldel r
run r rop = lrop r
run r rfront = lrfront r

-- A list that has no element is not stored.
unfoldable pub kept : List Str → Option (List Str)
kept [] = none
kept (x ∷ l) = some (x ∷ l)

abbrev pub tail : List Str → List Str
tail [] = []
tail (x ∷ l) = l

-- What a command makes of the list of the key, `none` where there is no key. LSORT turns the list round, as
-- LREVERSE does, and does not sort it; LPOPALL takes out an only element whatever it is; LRESIZE to a greater size
-- adds nothing that is stored, and of an empty list keeps the key.
unfoldable pub after : Command → Str → Option (List Str) → Option (List Str)
unfolding kept
after push v none = some (v ∷ [])
after push_new v none = some (v ∷ [])
after c v none = none
after push v (some l) = some (l ++ v ∷ [])
after push_new v (some l) = some (if mem v l then l else l ++ v ∷ [])
after reverse_list v (some l) = some (reverse l)
after sort_list v (some l) = some (reverse l)
after resize v (some l) = if convto_num v == 0 then none else some (take (convto_num v) l)
after pop_front v (some l) = kept (tail l)
after pop_last v (some l) = kept (Stl.pop_back l)
after pop_all v (some l) = kept (if length l == 1 then [] else remove_all v l)
after del v (some l) = elim (erase_first v l) [ none ↦ some l | some l' ↦ kept l' ]
after rop v (some []) = some []
after rop v (some (x ∷ l)) = kept (Stl.pop_back (x ∷ l))
after rfront v (some l) = some l

-- The command reads an element that it has destroyed: LFPOP, wherever the list has an element.
unfoldable pub dangles : Command → Option (List Str) → Bool
dangles rfront (some (x ∷ l)) = true
dangles c o = false

module _ (r : Rocks) where
  -- The list at a place of a store.
  unfoldable pub list_at : r.State → Str → Option (List Str)
  list_at s at = Option.map (λ v. (ListHandler.create v).mhandler) (r.get s at)

  -- The lists after a query on a database.
  unfoldable pub lists_after : ℕ → Outcome (Query × World r) → Str → Outcome (Option (List Str))
  lists_after db (ret (q, w)) at = ret (list_at (w.databases db) at)
  lists_after db (fault e) at = fault e

  -- No Put and no Delete fails.
  abbrev pub Writes : Type 0
  Writes = ((s : r.State) (k v : Str) → (s' : r.State) × (r.put s k v ≡ some s')) × Deletes r
