-- ===== src/Query/Typing.antt =====
-- What changes of a store keep each key under one type, and what a query that writes does.
use beryldb.Prelude.{
  ℕ, ◌≡◌, refl, sym, ap, ◌∙◌, subst, Bool, true, false, ◌&&◌, is_empty, Option, none, some, Str,
  IsBytes, str_eq, str_eq_iff, Bool-cases, inl, inr, if◌then◌else◌,
}
use beryldb.Machine.{Outcome, ret, fault, ◌>>=◌}
use beryldb.Stl.{mem}
use beryldb.Rocks.{Rocks}
use beryldb.Query.Types.{QueryType, DblCode, Query, World, type_regs}
use beryldb.Query.{dest_of, registry_loop}
use beryldb.Query.Places.{dest_of-injective}
use beryldb.Query.Prepare.{
  Run, Prepared, runs, refuse_as, prepare, write_case, dispatch, check, check_key,
}
use beryldb.Query.Registered.{
  Stored, IsTyped, IsLocal, found-some, found-none, loaded, fresh, write_as,
}

module _ (r : Rocks) (q : Query) (store store' : r.State) (base : Str) (bytes : IsBytes q.key)
    (changes : (at : Str)
      → str_eq (dest_of q.key q.select_query base) at ≡ false
      → r.get store' at ≡ r.get store at)
    (only : (t : Str)
      → mem t type_regs ≡ true
      → Stored r store (dest_of q.key q.select_query t)
      → t ≡ base) where
  abbrev own : Str
  own = dest_of q.key q.select_query base

  own_place :
      (key : Str) (select : ℕ) (t : Str)
      → IsBytes key
      → str_eq own (dest_of key select t) ≡ true
      → (q.key ≡ key) × (q.select_query ≡ select) × (base ≡ t)
  own_place key select t b here =
      dest_of-injective q.key key q.select_query select base t bytes b ((str_eq_iff _ _).0 here)

  -- Another type of the key whose place changes is the same type.
  other_place :
      (key : Str) (select : ℕ) (t t' : Str)
      → IsBytes key
      → mem t' type_regs ≡ true
      → str_eq own (dest_of key select t) ≡ true
      → str_eq own (dest_of key select t') ≡ false
      → Stored r store' (dest_of key select t')
      → t ≡ t'
  other_place key select t t' b m here there (v, s) =
      let (k, n, e) = own_place key select t b here in
      let old : Stored r store (dest_of q.key q.select_query t') =
        (v, rw (k, n) (sym (changes _ there) ∙ s)) in
      sym e ∙ sym (only t' m old)

  pub IsTyped-changes : IsTyped r store → IsTyped r store'
  unfolding IsTyped
  IsTyped-changes typed key select t t' b m m' s s' =
      elim (Bool-cases (str_eq own (dest_of key select t))) [
        | inl here ↦ elim (Bool-cases (str_eq own (dest_of key select t'))) [
          | inl here' ↦ sym (own_place key select t b here).2 ∙ (own_place key select t' b here').2
          | inr there' ↦ other_place key select t t' b m' here there' s'
        ]
        | inr there ↦ elim (Bool-cases (str_eq own (dest_of key select t'))) [
          | inl here' ↦ sym (other_place key select t' t b m here' there s)
          | inr there' ↦
              typed key select t t' b m m' (s.0, sym (changes _ there) ∙ s.1)
                (s'.0, sym (changes _ there') ∙ s'.1)
        ]
      ]

some-none : {A : Type 0} {a : A} → some a ≡ none → ⊥
some-none e = cc

module _ (r : Rocks) (run : Run r) where
  with_flag : Bool → Query × World r → Prepared r
  with_flag b (q', w') = ret (q', w', b)

  abbrev without_flag : Prepared r → Outcome (Query × World r)
  without_flag (ret (q', w', b)) = ret (q', w')
  without_flag (fault e) = fault e

  flag-cancel : (b : Bool) (m : Outcome (Query × World r)) → without_flag (m >>= with_flag b) ≡ m
  unfolding with_flag
  flag-cancel b (ret (q', w')) = refl
  flag-cancel b (fault e) = refl

  pub runs-ret :
      (b : Bool) (q q' : Query) (w w' : World r) (b' : Bool)
      → runs r run b q w ≡ ret (q', w', b')
      → run q w ≡ ret (q', w')
  unfolding with_flag
  runs-ret b q q' w w' b' e = sym (flag-cancel b (run q w)) ∙ ap without_flag e

  world_of : World r → Prepared r → World r
  world_of w (ret (q', w', b)) = w'
  world_of w (fault e) = w

  module _ (local : IsLocal r run) (q : Query) (w : World r)
      (typed : IsTyped r (w.databases q.database)) (bytes : IsBytes q.key)
      (base : mem q.base_request type_regs ≡ true) where
    pub unchanged :
        (q1 q' : Query) (w' : World r) (b : Bool)
        → (let left : Prepared r = ret (q1, w, false) in left ≡ ret (q', w', b))
        → IsTyped r (w'.databases q.database)
    unfolding world_of
    unchanged q1 q' w' b e =
        subst (λ (x : World r). IsTyped r (x.databases q.database)) (ap (world_of w) e) typed

    pub write_as-IsTyped :
        (o : Option (Str × Str)) (q' : Query) (w' : World r) (b : Bool)
        → registry_loop r q w q.select_query q.key type_regs ≡ o
        → write_as r run q w o ≡ ret (q', w', b)
        → IsTyped r (w'.databases q.database)
    unfolding IsLocal IsTyped
    write_as-IsTyped none q' w' b found e =
        IsTyped-changes r q (w.databases q.database) (w'.databases q.database) q.base_request bytes
          (λ at. local (fresh q) q' w w' (runs-ret true (fresh q) q' w w' b e) at)
          (λ t m (v, s).
            absurd (some-none (sym s ∙ found-none r q w q.select_query q.key type_regs t found m)))
          typed
    write_as-IsTyped (some (t, v)) q' w' b found e = elim (Bool-cases (str_eq t q.base_request)) [
      | inl same ↦
          IsTyped-changes r q (w.databases q.database) (w'.databases q.database) q.base_request
            bytes
            (λ at there.
              local (loaded q t v) q' w w'
                (runs-ret true (loaded q t v) q' w w' b (
                  sym (
                    ap
                      (λ c.
                        if c
                        then runs r run true (loaded q t v) w
                        else refuse_as r DblCode.invalid_type (loaded q t v) w)
                      same)
                  ∙ e))
                at
                (ap (λ c. str_eq (dest_of q.key q.select_query c) at)
                    ((str_eq_iff t q.base_request).0 same)
                  ∙ there))
            (λ t' m s.
              typed q.key q.select_query t' t bytes m
                (found-some r q w q.select_query q.key type_regs t v found).0 s
                (v, (found-some r q w q.select_query q.key type_regs t v found).1)
              ∙ (str_eq_iff t q.base_request).0 same)
            typed
      | inr other ↦ unchanged _ q' w' b (
          sym (
            ap
              (λ c.
                if c
                then runs r run true (loaded q t v) w
                else refuse_as r DblCode.invalid_type (loaded q t v) w)
              other)
          ∙ e)
    ]

abbrev pub opened : Query → Query
opened q = record q { access = DblCode.status_ok }

-- `Prepare` of a query that writes.
abbrev pub prepare_write : (r : Rocks) → Run r → Query → World r → Prepared r
prepare_write r run q w =
    if w.closing q.database
    then ret (record q { access = DblCode.status_broken }, w, false)
    else if q.key_required && is_empty q.key
    then ret (record q { access = DblCode.miss_args }, w, false)
    else write_case r run (opened q) w

pub prepare-write :
    (r : Rocks) (run : Run r) (q : Query) (w : World r)
    → q.type ≡ QueryType.write
    → prepare r run q w ≡ prepare_write r run q w
unfolding prepare check check_key dispatch
prepare-write r run q w kind = elim (Bool-cases (w.closing q.database)) [
  | inl closing ↦ rw closing refl
  | inr open_db ↦ elim (Bool-cases (q.key_required && is_empty q.key)) [
    | inl missing ↦ rw (open_db, missing) refl
    | inr present ↦ rw (open_db, present, kind) refl
  ]
]
