-- ===== src/Keys/SetGet.antt =====
-- SET and GET through `Prepare`: the value that is set is the one that is got.
use beryldb.Prelude.{
  ℕ, ◌≡◌, refl, sym, ap, ◌∙◌, subst, true, false, Option, none, some, Str, IsBytes, str_eq, str_cmp,
  str_eq_iff, str_eq_refl, arith, ◌&&◌, is_empty, if◌then◌else◌, Bool-cases, Option-cases, inl, inr,
}
use beryldb.Machine.{ret}
use beryldb.Codec.{to_bin}
use beryldb.Codec.RoundTrip.{to_string-to_bin}
use beryldb.Stl.{mem}
use beryldb.Rocks.{Rocks, IsStore}
use beryldb.Query.Types.{QueryType, Query, World, type_regs, int_key}
use beryldb.Query.{dest_of, registry_loop, store_of, set_store, write, put_result, get, set_ok}
use beryldb.Query.Places.{dest_of-injective}
use beryldb.Query.Prepare.{Run, runs, prepare}
use beryldb.Query.Registered.{found-some, loaded, fresh, write_as, write_case_lem}
use beryldb.Query.Typing.{opened, prepare-write}
use beryldb.Query.Replies.{save}
use beryldb.Keys.{set, get_run, save_text, plain, answer}
use beryldb.Query.Reads.{Only, read-stored}

some-none : {A : Type 0} {a : A} → some a ≡ none → ⊥
some-none e = cc

true-false : true ≡ false → ⊥
true-false e = cc

module _ (r : Rocks) (store : IsStore r) (q : Query) (w : World r) (value : Str) where
  -- The world that is left when the value is put at the place of the query.
  stored_world : r.State → World r
  stored_world s = set_store r q.database s w

  set_run :
      (q1 : Query) (s : r.State)
      → q1.database ≡ q.database
      → r.put (w.databases q.database) q1.dest (to_bin q1.value) ≡ some s
      → set r q1 w ≡ ret (set_ok q1, stored_world s)
  unfolding set save_text save write put_result store_of stored_world
  set_run q1 s db e = rw (db, e) refl

  after_put :
      (at : Str) (s : r.State) (j : Str)
      → r.put (w.databases q.database) at value ≡ some s
      → r.get ((stored_world s).databases q.database) j
        ≡ (if str_eq at j then some value else r.get (w.databases q.database) j)
  unfolding stored_world set_store
  after_put at s j e = ground (arith, store.get-put (w.databases q.database) s at value j e)

  closing-stored : (s : r.State) (db : ℕ) → (stored_world s).closing db ≡ w.closing db
  unfolding stored_world set_store
  closing-stored s db = refl

  Only-put :
      (s : r.State)
      → r.put (w.databases q.database) (dest_of q.key q.select_query int_key) value ≡ some s
      → Only r (w.databases q.database) q.key q.select_query int_key
      → IsBytes q.key
      → Only r ((stored_world s).databases q.database) q.key q.select_query int_key
  unfolding Only
  Only-put s e only bytes t m other =
      after_put (dest_of q.key q.select_query int_key) s (dest_of q.key q.select_query t) e
      ∙ elim (Bool-cases
          (str_eq (dest_of q.key q.select_query int_key) (dest_of q.key q.select_query t))) [
            | inl same ↦
                let types : int_key ≡ t =
                  (dest_of-injective q.key q.key q.select_query q.select_query int_key t bytes bytes
                    ((str_eq_iff _ _).0 same)).2 in
                absurd (
                  true-false (
                    sym (subst (λ u. str_eq u int_key ≡ true) types (str_eq_refl int_key)) ∙ other))
            | inr apart ↦ rw apart (only t m other)
          ]

  runs-set :
      (q1 : Query) (s : r.State)
      → q1.database ≡ q.database
      → r.put (w.databases q.database) q1.dest (to_bin q1.value) ≡ some s
      → runs r (set r) true q1 w ≡ ret (set_ok q1, stored_world s, true)
  runs-set q1 s db e = rw (set_run q1 s db e) refl

  prepare-found :
      (run : Run r) (o : Option (Str × Str))
      → q.type ≡ QueryType.write
      → w.closing q.database ≡ false
      → (q.key_required && is_empty q.key) ≡ false
      → registry_loop r (opened q) w q.select_query q.key type_regs ≡ o
      → prepare r run q w ≡ write_as r run (opened q) w o
  prepare-found run o kind open_db present found =
      prepare-write r run q w kind
      ∙ rw (open_db, present) (write_case_lem r run (opened q) w)
      ∙ ap (write_as r run (opened q) w) found

  -- SET runs on the place of the key, whether the key is there or not.
  prepare-set :
      (s : r.State)
      → value ≡ to_bin q.value
      → q.type ≡ QueryType.write
      → q.base_request ≡ int_key
      → w.closing q.database ≡ false
      → (q.key_required && is_empty q.key) ≡ false
      → Only r (w.databases q.database) q.key q.select_query int_key
      → r.put (w.databases q.database) (dest_of q.key q.select_query int_key) value ≡ some s
      → (q' : Query) × (prepare r (set r) q w ≡ ret (q', stored_world s, true))
  unfolding Only
  prepare-set s text kind base open_db present only e =
      elim (Option-cases (registry_loop r (opened q) w q.select_query q.key type_regs)) [
        | inl missing ↦ (
          set_ok (fresh (opened q)),
          prepare-found (set r) none kind open_db present missing
              ∙ runs-set (fresh (opened q)) s refl (rw (base, ← text) e),
        )
        | inr ((t, v), found) ↦
            let (m, stored) = found-some r (opened q) w q.select_query q.key type_regs t v found in
            elim (Bool-cases (str_eq t int_key)) [
              | inl same ↦
                  let e' : t ≡ int_key = (str_eq_iff t int_key).0 same in
                  (
                    set_ok (loaded (opened q) t v),
                    prepare-found (set r) (some (t, v)) kind open_db present found
                        ∙ rw (subst (λ (b : Str). str_eq t b ≡ true) (sym base) same)
                            (runs-set (loaded (opened q) t v) s refl (rw (e', ← text) e)),
                  )
              | inr other ↦ absurd (some-none (sym stored ∙ only t m other))
            ]
      ]

int_key-registered : mem int_key type_regs ≡ true
unfolding mem str_eq str_cmp
int_key-registered = refl

-- SET of a key of bytes that is stored as nothing but a plain key, into a store that takes the value, and
-- then GET of the same key of the same select and database: both run and finish, and the reply to GET is the value of SET.
pub get-set :
    (r : Rocks) (q g : Query) (w : World r) (s : r.State)
    → IsStore r
    → IsBytes q.key × IsBytes q.value
    → (q.type ≡ QueryType.write) × (q.base_request ≡ int_key)
    → (g.type ≡ QueryType.read) × (g.base_request ≡ int_key)
    → (g.key ≡ q.key) × (g.select_query ≡ q.select_query) × (g.database ≡ q.database)
    → w.closing q.database ≡ false
    → is_empty q.key ≡ false
    → Only r (w.databases q.database) q.key q.select_query int_key
    → r.put (w.databases q.database) (dest_of q.key q.select_query int_key) (to_bin q.value)
      ≡ some s
    → (q' : Query) × (w' : World r) × (prepare r (set r) q w ≡ ret (q', w', true))
      × ((g' : Query) × (prepare r (get_run r) g w' ≡ ret (g', w', true)) × (g'.response ≡ q.value))
get-set r q g w s store (bytes, value) (kind, base) (kind', base') (key, select, db) open_db filled
      only e =
    let w' : World r = stored_world r store q w (to_bin q.value) s in
    let (q', sets) =
      prepare-set r store q w (to_bin q.value) s refl kind base open_db (ground arith) only e in
    let only' = Only-put r store q w (to_bin q.value) s e only bytes in
    let stored =
      after_put r store q w (to_bin q.value) (dest_of q.key q.select_query int_key) s
        (dest_of q.key q.select_query int_key) e in
    let gets =
      read-stored r (get_run r) g w' (to_bin q.value) kind'
        (rw db (closing-stored r store q w (to_bin q.value) s q.database ∙ open_db)) (ground arith)
        (rw (db, key, select, base') only') (rw base' int_key-registered)
        (rw (db, key, select, base')
          (stored ∙ rw (str_eq_refl (dest_of q.key q.select_query int_key)) refl)) in
    (
      q',
      w',
      sets,
      (
        set_ok (record (loaded (opened g) g.base_request (to_bin q.value)) {
          response = plain r (loaded (opened g) g.base_request (to_bin q.value)) w';
        }),
        gets ∙ unfold get_run answer in refl,
        unfold set_ok plain get in to_string-to_bin q.value value,
      ),
    )
