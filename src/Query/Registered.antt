-- ===== src/Query/Registered.antt =====
-- src/brldb/query.cpp: what the registry finds, and what a query that writes does with it.
use beryldb.Prelude.{
  ℕ, ◌≡◌, refl, true, false, Option, none, some, List, [], ◌∷◌, Str, IsBytes, str_eq, str_eq_iff,
  str_eq_refl, arith, Option-cases, inl, inr, if◌then◌else◌,
}
use beryldb.Machine.{ret}
use beryldb.Stl.{mem}
use beryldb.Rocks.{Rocks}
use beryldb.Query.Types.{DblCode, Query, World, type_regs, process_null}
use beryldb.Query.{dest_of, registry_loop, registered, get_registry, store_of}
use beryldb.Query.Prepare.{Run, Prepared, runs, refuse_as, write_case}

module _ (r : Rocks) where
  abbrev pub Stored : r.State → Str → Type 0
  Stored s at = (v : Str) × (r.get s at ≡ some v)

  -- Each key is stored under one type at most.
  unfoldable pub IsTyped : r.State → Type 0
  IsTyped s =
      (key : Str) (select : ℕ) (t t' : Str)
      → IsBytes key
      → mem t type_regs ≡ true
      → mem t' type_regs ≡ true
      → Stored s (dest_of key select t)
      → Stored s (dest_of key select t')
      → t ≡ t'

  -- The method changes its own place only.
  unfoldable pub IsLocal : Run r → Type 0
  IsLocal run =
      (q q' : Query) (w w' : World r)
      → run q w ≡ ret (q', w')
      → (at : Str) → str_eq q.dest at ≡ false
      → r.get (w'.databases q.database) at ≡ r.get (w.databases q.database) at

  module _ (q : Query) (w : World r) (select : ℕ) (key : Str) where
    abbrev place : Str → Str
    place t = dest_of key select t

    pub found-some :
        (types : List Str) (t v : Str)
        → registry_loop r q w select key types ≡ some (t, v)
        → (mem t types ≡ true) × (r.get (w.databases q.database) (place t) ≡ some v)
    unfolding registry_loop mem store_of
    found-some [] t v e = cc
    found-some (x ∷ types) t v e = elim (Option-cases (r.get (w.databases q.database) (place x))) [
      | inl miss ↦ ground (arith, found-some types t v)
      | inr (u, hit) ↦ ground (arith, str_eq_iff t t)
    ]

    pub found-none :
        (types : List Str) (t : Str)
        → registry_loop r q w select key types ≡ none
        → mem t types ≡ true
        → r.get (w.databases q.database) (place t) ≡ none
    unfolding registry_loop mem store_of
    found-none [] t e m = cc
    found-none (x ∷ types) t e m = elim (Option-cases (r.get (w.databases q.database) (place x))) [
      | inl miss ↦ ground (arith, str_eq_iff x t, found-none types t)
      | inr (u, hit) ↦ ground arith
    ]

-- The query with the value that the registry found, or with the place of a new key.
abbrev pub loaded : Query → Str → Str → Query
loaded q t v = record q { identified = t; dest = dest_of q.key q.select_query t; mapped = some v }

abbrev pub fresh : Query → Query
fresh q = record q { identified = process_null; dest = dest_of q.key q.select_query q.base_request }

module _ (r : Rocks) (run : Run r) (q : Query) (w : World r) where
  -- What a query that writes does, by what the registry finds.
  abbrev pub write_as : Option (Str × Str) → Prepared r
  write_as none = runs r run true (fresh q) w
  write_as (some (t, v)) =
      if str_eq t q.base_request
      then runs r run true (loaded q t v) w
      else refuse_as r DblCode.invalid_type (loaded q t v) w

  pub write_case_lem :
      write_case r run q w ≡ write_as (registry_loop r q w q.select_query q.key type_regs)
  unfolding write_case get_registry registered
  write_case_lem = by_found (registry_loop r q w q.select_query q.key type_regs)
    where
      by_found :
          (o : Option (Str × Str))
          → (let (q1, found) = registered r q q.select_query q.key true o in
              if found
              then (if str_eq q1.identified q1.base_request
                  then runs r run true q1 w
                  else refuse_as r DblCode.invalid_type q1 w)
              else if str_eq q1.identified process_null
              then runs r run true
                  (record q1 { dest = dest_of q1.key q1.select_query q1.base_request })
                  w
              else ret (q1, w, false))
            ≡ write_as o
      by_found none = rw (str_eq_refl process_null) refl
      by_found (some (t, v)) = refl
