-- ===== src/Query/Replies.antt =====
-- What the methods `Run` of the queries of src/brldb share: the loaded value, the write of a changed one,
-- and the results of the loops that make pages.
use beryldb.Prelude.{
  ℕ, Bool, true, false, Option, none, some, List, ◌++◌, Str, codes, length, if◌then◌else◌,
}
use beryldb.Machine.{Outcome, ret, incr32, to_u32}
use beryldb.Handler.Types.{HandlerMsg, not_found, ok}
use beryldb.Rocks.{Rocks}
use beryldb.Query.Types.{DblCode, QueryFlags, Query, World}
use beryldb.Query.{get, write, access_set, set_ok}
use beryldb.Query.Paging.{Paging, page_loop, start}

abbrev pub is_msg_ok : Option HandlerMsg → Bool
is_msg_ok (some ok) = true
is_msg_ok m = false

abbrev pub is_msg_not_found : Option HandlerMsg → Bool
is_msg_not_found (some not_found) = true
is_msg_not_found m = false

-- The reply to a test.
abbrev pub one_or_zero : Bool → Str
one_or_zero true = codes "1"
one_or_zero false = codes "0"

-- The loop under the flags that fetch or count all elements.
abbrev pub flagged : QueryFlags → Query → List Str → Paging
flagged QueryFlags.core q l = record start { total = to_u32 (length l); result = l }
flagged QueryFlags.count q l = record start { total = to_u32 (length l) }
flagged f q l = page_loop q.offset q.limit l start

module _ (r : Rocks) where
  -- The value of `Get`, or `access_set(DBL_NOT_FOUND)`.
  abbrev pub with_value :
      Query → World r → (Str → Outcome (Query × World r)) → Outcome (Query × World r)
  with_value q w k = elim (get r q w q.dest) [
    | none ↦ ret (access_set DblCode.not_found q, w)
    | some v ↦ k v
  ]

  -- if (this->Write(...)) SetOK() else access_set(DBL_UNABLE_WRITE).
  unfoldable pub save : Query → World r → Str → Outcome (Query × World r)
  save q w v =
      let (w1, done) = write r q w q.dest v in
      ret (if done then set_ok q else access_set DblCode.unable_write q, w1)

  -- The end of the loops that make pages.
  abbrev pub paged : Query → World r → Paging → ℕ → Outcome (Query × World r)
  paged q w p counter = ret (
    set_ok (record q {
      subresult = incr32 p.tracker;
      partial = false;
      counter = counter;
      vec_data = p.result;
    }),
    record w { attached = w.attached ++ p.pages },
  )
