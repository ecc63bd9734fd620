-- ===== src/Lists/Typed.antt =====
-- The list commands through `Prepare`, as the queries of their classes.
use beryldb.Prelude.{◌≡◌, refl, Bool, true, IsBytes, str_eq, str_cmp}
use beryldb.Machine.{ret}
use beryldb.Stl.{mem}
use beryldb.Rocks.{Rocks, IsStore}
use beryldb.Query.Types.{Query, World, type_regs}
use beryldb.Query.Classes.{QueryClass, construct}
use beryldb.Query.Classes.Lists.{
  lpush_query, lpushnx_query, lreverse_query, lsort_query, lresize_query, lpop_front_query,
  lpop_back_query, lpopall_query, ldel_query, lrop_query, lrfront_query,
}
use beryldb.Query.Prepare.{prepare}
use beryldb.Query.Registered.{IsTyped}
use beryldb.Query.Kinds.{Kind, writes, reads, iterates, deletes, prepare-IsTyped}
use beryldb.Lists.Spec.{
  Command, push, push_new, reverse_list, sort_list, resize, pop_front, pop_last, pop_all, del, rop,
  rfront, run,
}
use beryldb.Lists.Local.{run-IsLocal}

unfoldable pub class_of : Command → QueryClass
class_of push = lpush_query
class_of push_new = lpushnx_query
class_of reverse_list = lreverse_query
class_of sort_list = lsort_query
class_of resize = lresize_query
class_of pop_front = lpop_front_query
class_of pop_last = lpop_back_query
class_of pop_all = lpopall_query
class_of del = ldel_query
class_of rop = lrop_query
class_of rfront = lrfront_query

pub class_of-Kind : (c : Command) (q : Query) → Kind (construct (class_of c) q).type
unfolding class_of construct
class_of-Kind push q = writes
class_of-Kind push_new q = writes
class_of-Kind reverse_list q = reads
class_of-Kind sort_list q = reads
class_of-Kind resize q = reads
class_of-Kind pop_front q = reads
class_of-Kind pop_last q = reads
class_of-Kind pop_all q = iterates
class_of-Kind del q = deletes
class_of-Kind rop q = reads
class_of-Kind rfront q = reads

pub class_of-list :
    (c : Command) (q : Query) → mem (construct (class_of c) q).base_request type_regs ≡ true
unfolding class_of construct mem str_eq str_cmp
class_of-list push q = refl
class_of-list push_new q = refl
class_of-list reverse_list q = refl
class_of-list sort_list q = refl
class_of-list resize q = refl
class_of-list pop_front q = refl
class_of-list pop_last q = refl
class_of-list pop_all q = refl
class_of-list del q = refl
class_of-list rop q = refl
class_of-list rfront q = refl

-- A command on lists that writes or deletes, prepared and run as the query of its class on a store that has
-- each key under one type at most, leaves it so.
pub command-IsTyped :
    (r : Rocks) (c : Command) (q q' : Query) (w w' : World r) (b : Bool)
    → IsStore r
    → IsTyped r (w.databases q.database)
    → IsBytes q.key
    → prepare r (run r c) (construct (class_of c) q) w ≡ ret (q', w', b)
    → IsTyped r (w'.databases q.database)
unfolding construct
command-IsTyped r c q q' w w' b store typed bytes e =
    prepare-IsTyped r (run r c) (construct (class_of c) q) q' w w' b (run-IsLocal r store c) typed
      bytes (class_of-list c q) (class_of-Kind c q) e
