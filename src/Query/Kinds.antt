-- ===== src/Query/Kinds.antt =====
-- `Prepare` keeps each key under one type whichever of the kinds of query it runs: those that read, that
-- read without an answer, that iterate and that delete as well as those that write.
use beryldb.Prelude.{
  ◌≡◌, refl, sym, ap, ◌∙◌, Bool, true, false, ◌&&◌, Option, none, some, Str, IsBytes, is_empty,
  str_eq, Bool-cases, inl, inr, if◌then◌else◌,
}
use beryldb.Machine.{ret}
use beryldb.Stl.{mem}
use beryldb.Rocks.{Rocks}
use beryldb.Query.Types.{QueryType, DblCode, Query, World, type_regs, process_null}
use beryldb.Query.{dest_of, registry_loop, registered, get_registry}
use beryldb.Query.Prepare.{
  Run, Prepared, runs, refuse, refuse_as, prepare, write_case, read_case, iter_case, delete_case,
  dispatch, check, check_key,
}
use beryldb.Query.Registered.{IsTyped, IsLocal, found-some, loaded, write_case_lem}
use beryldb.Query.Typing.{IsTyped-changes, runs-ret, unchanged, opened, write_as-IsTyped}

-- The kinds of query that look their own key up and run on its place alone.
pub data Kind : QueryType → Type 0 where
  writes : Kind QueryType.write
  reads : Kind QueryType.read
  iterates : Kind QueryType.iter
  deletes : Kind QueryType.delete

module _ (r : Rocks) (run : Run r) (local : IsLocal r run) (q : Query) (w : World r)
    (typed : IsTyped r (w.databases q.database)) (bytes : IsBytes q.key)
    (base : mem q.base_request type_regs ≡ true) where
  -- A method that runs on the place that was found.
  found-IsTyped :
      (q1 q' : Query) (w' : World r) (b b' : Bool) (t v : Str)
      → registry_loop r q w q.select_query q.key type_regs ≡ some (t, v)
      → (q1.dest ≡ dest_of q.key q.select_query t) × (q1.database ≡ q.database)
      → runs r run b q1 w ≡ ret (q', w', b')
      → IsTyped r (w'.databases q.database)
  unfolding IsLocal IsTyped
  found-IsTyped q1 q' w' b b' t v found (dest, db) e =
      let (m, stored) = found-some r q w q.select_query q.key type_regs t v found in
      IsTyped-changes r q (w.databases q.database) (w'.databases q.database) t bytes
        (λ at there. rw⁻¹ db (
          local q1 q' w w' (runs-ret r run b q1 q' w w' b' e) at
            (ap (λ d. str_eq d at) dest ∙ there)))
        (λ t' m' s. typed q.key q.select_query t' t bytes m' m s (v, stored)) typed

  -- Either result leaves the world.
  either-IsTyped :
      (c : Bool) (q1 q2 q' : Query) (w' : World r) (b : Bool)
      → (let left : Prepared r = if c then ret (q1, w, false) else ret (q2, w, false) in
          left ≡ ret (q', w', b))
      → IsTyped r (w'.databases q.database)
  either-IsTyped true q1 q2 q' w' b e = unchanged r run local q w typed bytes base q1 q' w' b e
  either-IsTyped false q1 q2 q' w' b e = unchanged r run local q w typed bytes base q2 q' w' b e

  -- The method is run on the place that was found, or refused.
  compared-IsTyped :
      (c : Bool) (q1 q2 q' : Query) (w' : World r) (b : Bool) (t v : Str)
      → registry_loop r q w q.select_query q.key type_regs ≡ some (t, v)
      → (q1.dest ≡ dest_of q.key q.select_query t) × (q1.database ≡ q.database)
      → (let left : Prepared r = if c then runs r run true q1 w else ret (q2, w, false) in
          left ≡ ret (q', w', b))
      → IsTyped r (w'.databases q.database)
  compared-IsTyped true q1 q2 q' w' b t v found at e = found-IsTyped q1 q' w' true b t v found at e
  compared-IsTyped false q1 q2 q' w' b t v found at e =
      unchanged r run local q w typed bytes base q2 q' w' b e

  read_case-IsTyped :
      (q' : Query) (w' : World r) (b : Bool)
      → read_case r run q w ≡ ret (q', w', b)
      → IsTyped r (w'.databases q.database)
  unfolding read_case get_registry registered
  read_case-IsTyped q' w' b e = by_found (registry_loop r q w q.select_query q.key type_regs) refl e
    where
      by_found :
          (o : Option (Str × Str))
          → registry_loop r q w q.select_query q.key type_regs ≡ o
          → (let (q1, found) = registered r q q.select_query q.key true o in
              if found
              then (if str_eq q1.identified q1.base_request
                  then runs r run true q1 w
                  else refuse_as r DblCode.invalid_type q1 w)
              else if str_eq q1.identified process_null
              then refuse r DblCode.not_found q1 w
              else ret (q1, w, false))
            ≡ ret (q', w', b)
          → IsTyped r (w'.databases q.database)
      by_found none found e = either-IsTyped (str_eq process_null process_null) _ _ q' w' b e
      by_found (some (t, v)) found e =
          compared-IsTyped (str_eq t q.base_request) (loaded q t v) _ q' w' b t v found (refl, refl)
            e

  iter_case-IsTyped :
      (q' : Query) (w' : World r) (b : Bool)
      → iter_case r run q w ≡ ret (q', w', b)
      → IsTyped r (w'.databases q.database)
  unfolding iter_case get_registry registered
  iter_case-IsTyped q' w' b e = by_found (registry_loop r q w q.select_query q.key type_regs) refl e
    where
      by_found :
          (o : Option (Str × Str))
          → registry_loop r q w q.select_query q.key type_regs ≡ o
          → (let (q1, found) = registered r q q.select_query q.key true o in
              if found
              then (if str_eq q1.identified q1.base_request
                  then runs r run true q1 w
                  else refuse_as r DblCode.invalid_type q1 w)
              else ret (q1, w, false))
            ≡ ret (q', w', b)
          → IsTyped r (w'.databases q.database)
      by_found none found e = either-IsTyped true _ q q' w' b e
      by_found (some (t, v)) found e =
          compared-IsTyped (str_eq t q.base_request) (loaded q t v) _ q' w' b t v found (refl, refl)
            e

  delete_case-IsTyped :
      (q' : Query) (w' : World r) (b : Bool)
      → delete_case r run q w ≡ ret (q', w', b)
      → IsTyped r (w'.databases q.database)
  unfolding delete_case get_registry registered
  delete_case-IsTyped q' w' b e =
      by_found (registry_loop r q w q.select_query q.key type_regs) refl e
    where
      by_found :
          (o : Option (Str × Str))
          → registry_loop r q w q.select_query q.key type_regs ≡ o
          → (let (q1, found) = registered r q q.select_query q.key false o in
              if found
              then runs r run true q1 w
              else if str_eq q1.identified process_null
              then refuse_as r DblCode.not_found q1 w
              else ret (q1, w, false))
            ≡ ret (q', w', b)
          → IsTyped r (w'.databases q.database)
      by_found none found e = either-IsTyped (str_eq process_null process_null) _ _ q' w' b e
      by_found (some (t, v)) found e =
          found-IsTyped (record q { identified = t; dest = dest_of q.key q.select_query t }) q' w'
            true b t v found (refl, refl) e

  write_case-IsTyped :
      (q' : Query) (w' : World r) (b : Bool)
      → write_case r run q w ≡ ret (q', w', b)
      → IsTyped r (w'.databases q.database)
  write_case-IsTyped q' w' b e =
      write_as-IsTyped r run local q w typed bytes base
        (registry_loop r q w q.select_query q.key type_regs) q' w' b refl
        (sym (write_case_lem r run q w) ∙ e)

  dispatch-IsTyped :
      (t : QueryType) (q' : Query) (w' : World r) (b : Bool)
      → Kind t
      → dispatch r run t q w ≡ ret (q', w', b)
      → IsTyped r (w'.databases q.database)
  unfolding dispatch
  dispatch-IsTyped t q' w' b writes e = write_case-IsTyped q' w' b e
  dispatch-IsTyped t q' w' b reads e = read_case-IsTyped q' w' b e
  dispatch-IsTyped t q' w' b iterates e = iter_case-IsTyped q' w' b e
  dispatch-IsTyped t q' w' b deletes e = delete_case-IsTyped q' w' b e

-- `Prepare` with its two tests written out.
abbrev prepared_by : (r : Rocks) → Run r → Query → World r → Bool → Bool → Prepared r
prepared_by r run q w closing missing =
    if closing
    then ret (record q { access = DblCode.status_broken }, w, false)
    else if missing
    then ret (record q { access = DblCode.miss_args }, w, false)
    else dispatch r run q.type (opened q) w

prepare-dispatch :
    (r : Rocks) (run : Run r) (q : Query) (w : World r)
    → prepare r run q w
      ≡ prepared_by r run q w (w.closing q.database) (q.key_required && is_empty q.key)
unfolding prepare check check_key
prepare-dispatch r run q w = elim (Bool-cases (w.closing q.database)) [
  | inl closing ↦ rw closing refl
  | inr open_db ↦ elim (Bool-cases (q.key_required && is_empty q.key)) [
    | inl missing ↦ rw (open_db, missing) refl
    | inr present ↦ rw (open_db, present) refl
  ]
]

-- `Prepare` of a query that writes, reads, iterates or deletes, whose method changes its own place only and
-- whose own type is one of the registry, leaves each key of the database under one type at most, if it was so before.
pub prepare-IsTyped :
    (r : Rocks) (run : Run r) (q q' : Query) (w w' : World r) (b : Bool)
    → IsLocal r run
    → IsTyped r (w.databases q.database)
    → IsBytes q.key
    → mem q.base_request type_regs ≡ true
    → Kind q.type
    → prepare r run q w ≡ ret (q', w', b)
    → IsTyped r (w'.databases q.database)
prepare-IsTyped r run q q' w w' b local typed bytes base kind e =
    by_tests (w.closing q.database) (q.key_required && is_empty q.key)
      (sym (prepare-dispatch r run q w) ∙ e)
  where
    by_tests :
        (closing missing : Bool)
        → prepared_by r run q w closing missing ≡ ret (q', w', b)
        → IsTyped r (w'.databases q.database)
    by_tests true missing e =
        unchanged r run local q w typed bytes base (record q { access = DblCode.status_broken }) q'
          w' b e
    by_tests false true e =
        unchanged r run local q w typed bytes base (record q { access = DblCode.miss_args }) q' w' b
          e
    by_tests false false e =
        dispatch-IsTyped r run local (opened q) w typed bytes base q.type q' w' b kind e
