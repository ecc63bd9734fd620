-- ===== src/Query/Prepare.antt =====
-- src/brldb/query.cpp: `QueryBase::Prepare`, which looks the key up, compares its type and runs the query.
use beryldb.Prelude.{
  ℕ, Bool, true, false, ◌&&◌, none, some, Str, str_eq, is_empty, ◌==◌, if◌then◌else◌,
}
use beryldb.Machine.{Outcome, ret, ◌>>=◌}
use beryldb.Convert.{convto_num}
use beryldb.Rocks.{Rocks}
use beryldb.Query.Types.{QueryType, DblCode, Query, World, process_null}
use beryldb.Query.{dest_of, get_registry, check_dest, del_future}

module _ (r : Rocks) where
  abbrev pub Run : Type 0
  Run = Query → World r → Outcome (Query × World r)

  abbrev pub Prepared : Type 0
  Prepared = Outcome (Query × World r × Bool)

  abbrev pub refuse : DblCode → Query → World r → Prepared
  refuse code q w = ret (record q { access = code }, w, false)

  abbrev pub refuse_as : DblCode → Query → World r → Prepared
  refuse_as code q w = ret (record q { access = code; response = q.identified }, w, false)

  abbrev pub runs : Run → Bool → Query → World r → Prepared
  runs run b q w = do (q', w') ← run q w; ret (q', w', b)

  abbrev pub is_base : Query → Bool
  is_base q = str_eq q.identified q.base_request

  abbrev pub is_null : Query → Bool
  is_null q = str_eq q.identified process_null

  -- The cases of the switch on the type of the query, one function for each.
  unfoldable pub write_case : Run → Query → World r → Prepared
  write_case run q w =
      let (q1, found) = get_registry r q w q.select_query q.key true in
      if found
      then (if is_base q1 then runs run true q1 w else refuse_as DblCode.invalid_type q1 w)
      else if is_null q1
      then runs run true (record q1 { dest = dest_of q1.key q1.select_query q1.base_request }) w
      else ret (q1, w, false)

  unfoldable pub read_case : Run → Query → World r → Prepared
  read_case run q w =
      let (q1, found) = get_registry r q w q.select_query q.key true in
      if found
      then (if is_base q1 then runs run true q1 w else refuse_as DblCode.invalid_type q1 w)
      else if is_null q1
      then refuse DblCode.not_found q1 w
      else ret (q1, w, false)

  -- The break behind `Run` leads to the false at the end.
  unfoldable pub read_allow_case : Run → Query → World r → Prepared
  read_allow_case run q w =
      let (q1, found) = get_registry r q w q.select_query q.key true in
      if found
      then (if is_base q1 then runs run false q1 w else refuse_as DblCode.invalid_type q1 w)
      else if is_null q1
      then runs run false q1 w
      else ret (q1, w, false)

  unfoldable pub diff_case : Run → Query → World r → Prepared
  diff_case run q w =
      let (q1, _) = get_registry r q w q.select_query q.key true in
      let result = check_dest r q1 w q1.select_query q1.value q1.identified q1.database in
      if is_null q1
      then refuse_as DblCode.not_found q1 w
      else if result == 1
      then runs run true q1 w
      else if result == 2
      then refuse_as DblCode.invalid_type q1 w
      else refuse_as DblCode.not_found q1 w

  -- RENAME, and MOVE with the select to move to.
  unfoldable pub rename_case : Run → (Query → ℕ × Str) → Query → World r → Prepared
  rename_case run to q w =
      let (q1, _) = get_registry r q w q.select_query q.key true in
      let result = check_dest r q1 w (to q1).0 (to q1).1 q1.identified q1.database in
      if is_null q1
      then refuse DblCode.not_found q1 w
      else if result == 2
      then refuse_as DblCode.invalid_type q1 w
      else runs run true q1 w

  unfoldable pub transfer_case : Run → Query → World r → Prepared
  transfer_case run q w =
      let (q1, _) = get_registry r q w q.select_query q.key true in
      if is_null q1 then refuse DblCode.not_found q1 w else elim q1.transf_db [
        | none ↦ refuse DblCode.unable_write q1 w
        | some db ↦
            if check_dest r q1 w q1.select_query q1.key q1.identified db == 2
            then refuse_as DblCode.invalid_type q1 w
            else runs run true q1 w
      ]

  unfoldable pub renamenx_case : Run → Query → World r → Prepared
  renamenx_case run q w =
      let (q1, _) = get_registry r q w q.select_query q.key true in
      if is_null q1
      then refuse DblCode.not_found q1 w
      else if check_dest r q1 w q1.select_query q1.value q1.identified q1.database == 0
      then runs run true q1 w
      else refuse DblCode.entry_exists q1 w

  unfoldable pub clone_case : Run → Query → World r → Prepared
  clone_case run q w =
      let (q1, _) = get_registry r q w q.select_query q.key true in
      let result = check_dest r q1 w (convto_num q1.value) q1.key q1.identified q1.database in
      if is_null q1
      then refuse_as DblCode.not_found q1 w
      else if result == 2
      then refuse_as DblCode.invalid_type q1 w
      else runs run true q1 w

  -- A key that is not there is copied all the same.
  unfoldable pub copy_case : Run → Query → World r → Prepared
  copy_case run q w =
      let (q1, _) = get_registry r q w q.select_query q.key true in
      if check_dest r q1 w q1.select_query q1.value q1.identified q1.database == 2
      then refuse_as DblCode.invalid_type q1 w
      else runs run true q1 w

  unfoldable pub touch_case : Run → Query → World r → Prepared
  touch_case run q w =
      let (q1, _) = get_registry r q w q.select_query q.key false in runs run true q1 w

  unfoldable pub future_case : Run → Query → World r → Prepared
  future_case run q w =
      let (q1, found) = get_registry r q w q.select_query q.key false in
      if found
      then (if is_base q1 then runs run true q1 w else refuse_as DblCode.invalid_type q1 w)
      else runs run true q1 w

  unfoldable pub future_run_case : Run → Query → World r → Prepared
  future_run_case run q w =
      let (q1, found) = get_registry r q w q.select_query q.key false in
      if found
      then (if is_base q1
          then runs run true q1 w
          else del_future r q1 w >>= λ w1. refuse_as DblCode.invalid_type q1 w1)
      else runs run false q1 w

  unfoldable pub expire_case : Run → Query → World r → Prepared
  expire_case run q w =
      let (q1, found) = get_registry r q w q.select_query q.key false in
      if found
      then (if is_base q1 then runs run true q1 w else refuse_as DblCode.invalid_type q1 w)
      else refuse DblCode.not_found q1 w

  unfoldable pub iter_case : Run → Query → World r → Prepared
  iter_case run q w =
      let (q1, found) = get_registry r q w q.select_query q.key true in
      if found
      then (if is_base q1 then runs run true q1 w else refuse_as DblCode.invalid_type q1 w)
      else ret (q1, w, false)

  -- The type that is found is not compared with the one of the query.
  unfoldable pub delete_case : Run → Query → World r → Prepared
  delete_case run q w =
      let (q1, found) = get_registry r q w q.select_query q.key false in
      if found
      then runs run true q1 w
      else if is_null q1
      then refuse_as DblCode.not_found q1 w
      else ret (q1, w, false)

  unfoldable pub dispatch : Run → QueryType → Query → World r → Prepared
  unfolding write_case read_case read_allow_case diff_case rename_case transfer_case renamenx_case
      clone_case copy_case touch_case future_case future_run_case expire_case iter_case delete_case
  dispatch run QueryType.write q w = write_case run q w
  dispatch run QueryType.lat q w = read_case run q w
  dispatch run QueryType.long q w = read_case run q w
  dispatch run QueryType.read q w = read_case run q w
  dispatch run QueryType.read_allow q w = read_allow_case run q w
  dispatch run QueryType.diff q w = diff_case run q w
  dispatch run QueryType.rename q w =
      rename_case run (λ (q1 : Query). (q1.select_query, q1.value)) q w
  dispatch run QueryType.transfer q w = transfer_case run q w
  dispatch run QueryType.renamenx q w = renamenx_case run q w
  dispatch run QueryType.clone q w = clone_case run q w
  dispatch run QueryType.move q w =
      rename_case run (λ (q1 : Query). (convto_num q1.value, q1.key)) q w
  dispatch run QueryType.copy q w = copy_case run q w
  dispatch run QueryType.exists q w = touch_case run q w
  dispatch run QueryType.type q w = touch_case run q w
  dispatch run QueryType.skip q w = runs run true q w
  dispatch run QueryType.future q w = future_case run q w
  dispatch run QueryType.future_run q w = future_run_case run q w
  dispatch run QueryType.expire q w = expire_case run q w
  dispatch run QueryType.iter q w = iter_case run q w
  dispatch run QueryType.delete q w = delete_case run q w
  dispatch run QueryType.test q w = ret (q, w, false)
  dispatch run QueryType.dbsize q w = ret (q, w, false)
  dispatch run QueryType.op q w = ret (q, w, false)
  dispatch run QueryType.setex q w = ret (q, w, false)
  dispatch run QueryType.sort q w = ret (q, w, false)

  unfoldable pub check : Query → World r → Query × Bool
  check q w =
      if w.closing q.database
      then (record q { access = DblCode.status_broken }, false)
      else (record q { access = DblCode.status_ok }, true)

  unfoldable pub check_key : Query → Query × Bool
  check_key q =
      if q.key_required && is_empty q.key
      then (record q { access = DblCode.miss_args }, false)
      else (q, true)

  unfoldable pub prepare : Run → Query → World r → Prepared
  unfolding dispatch check check_key
  prepare run q w =
      let (q1, open_db) = check q w in
      let (q2, has_key) = check_key q1 in
      if open_db
      then (if has_key then dispatch run q2.type q2 w else ret (q2, w, false))
      else ret (q1, w, false)
