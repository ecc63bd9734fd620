-- ===== src/Query/Reads.antt =====
-- What a query that reads does where its key is stored under its type.
use beryldb.Prelude.{
  ℕ, ◌≡◌, refl, ap, ◌∙◌, true, false, Option, none, some, List, [], ◌∷◌, Str, str_eq, str_eq_iff,
  str_eq_refl, arith, ◌&&◌, is_empty, if◌then◌else◌, Bool-cases, inl, inr,
}
use beryldb.Machine.{ret}
use beryldb.Stl.{mem}
use beryldb.Rocks.{Rocks}
use beryldb.Query.Types.{QueryType, DblCode, Query, World, type_regs, process_null}
use beryldb.Query.{dest_of, registry_loop, registered, get_registry, store_of}
use beryldb.Query.Prepare.{
  Run, Prepared, runs, refuse, refuse_as, prepare, read_case, dispatch, check, check_key,
}
use beryldb.Query.Registered.{loaded}
use beryldb.Query.Typing.{opened}

module _ (r : Rocks) where
  -- The key is stored under this type at most.
  unfoldable pub Only : r.State → Str → ℕ → Str → Type 0
  Only s key select base =
      (t : Str)
      → mem t type_regs ≡ true
      → str_eq t base ≡ false
      → r.get s (dest_of key select t) ≡ none

  module _ (q : Query) (w : World r) (select : ℕ) (key v : Str) where
    found_head :
        (t : Str) (types : List Str)
        → r.get (w.databases q.database) (dest_of key select t) ≡ some v
        → registry_loop r q w select key (t ∷ types) ≡ some (t, v)
    unfolding registry_loop store_of
    found_head t types stored = ground arith

    found_tail :
        (t : Str) (types : List Str)
        → r.get (w.databases q.database) (dest_of key select t) ≡ none
        → registry_loop r q w select key (t ∷ types) ≡ registry_loop r q w select key types
    unfolding registry_loop store_of
    found_tail t types missing = ground arith

  registry-only :
      (q : Query) (w : World r) (select : ℕ) (key base v : Str) (types : List Str)
      → ((t : Str)
          → mem t types ≡ true
          → str_eq t base ≡ false
          → r.get (w.databases q.database) (dest_of key select t) ≡ none)
      → r.get (w.databases q.database) (dest_of key select base) ≡ some v
      → mem base types ≡ true
      → registry_loop r q w select key types ≡ some (base, v)
  unfolding registry_loop mem store_of
  registry-only q w select key base v [] only stored m = cc
  registry-only q w select key base v (x ∷ types) only stored m =
      elim (Bool-cases (str_eq x base)) [
        | inl here ↦ rw ((str_eq_iff x base).0 here) (found_head q w select key v base types stored)
        | inr there ↦
            found_tail q w select key v x types (only x (rw (str_eq_refl x) refl) there)
            ∙ (registry-only q w select key base v types (λ t n. only t (ground arith)) stored
                (ground arith))
      ]

  -- What a query that reads does, by what the registry finds.
  read_as : Run r → Query → World r → Option (Str × Str) → Prepared r
  read_as run q w none = refuse r DblCode.not_found (record q { identified = process_null }) w
  read_as run q w (some (t, v)) =
      if str_eq t q.base_request
      then runs r run true (loaded q t v) w
      else refuse_as r DblCode.invalid_type (loaded q t v) w

  read_case_lem :
      (run : Run r) (q : Query) (w : World r)
      → read_case r run q w ≡ read_as run q w (registry_loop r q w q.select_query q.key type_regs)
  unfolding read_case get_registry registered read_as
  read_case_lem run q w = by_found (registry_loop r q w q.select_query q.key type_regs)
    where
      by_found :
          (o : Option (Str × Str))
          → (let (q1, found) = registered r q q.select_query q.key true o in
              if found
              then (if str_eq q1.identified q1.base_request
                  then runs r run true q1 w
                  else refuse_as r DblCode.invalid_type q1 w)
              else if str_eq q1.identified process_null
              then refuse r DblCode.not_found q1 w
              else ret (q1, w, false))
            ≡ read_as run q w o
      by_found none = rw (str_eq_refl process_null) refl
      by_found (some (t, v)) = refl

  prepare-read :
      (run : Run r) (q : Query) (w : World r)
      → q.type ≡ QueryType.read
      → w.closing q.database ≡ false
      → (q.key_required && is_empty q.key) ≡ false
      → prepare r run q w ≡ read_case r run (opened q) w
  unfolding prepare check check_key dispatch
  prepare-read run q w kind open_db present = rw (open_db, present, kind) refl

  -- A read of a key that is stored under the type of the query.
  pub read-stored :
      (run : Run r) (q : Query) (w : World r) (v : Str)
      → q.type ≡ QueryType.read
      → w.closing q.database ≡ false
      → (q.key_required && is_empty q.key) ≡ false
      → Only (w.databases q.database) q.key q.select_query q.base_request
      → mem q.base_request type_regs ≡ true
      → r.get (w.databases q.database) (dest_of q.key q.select_query q.base_request) ≡ some v
      → prepare r run q w ≡ runs r run true (loaded (opened q) q.base_request v) w
  unfolding Only read_as
  read-stored run q w v kind open_db present only base stored =
      prepare-read run q w kind open_db present
      ∙ read_case_lem run (opened q) w
      ∙ ap (read_as run (opened q) w) (
          registry-only (opened q) w q.select_query q.key q.base_request v type_regs only stored
            base)
      ∙ rw (str_eq_refl q.base_request) refl
