-- ===== src/Rocks.antt =====
-- RocksDB, which is not part of the repository: a store from texts to texts. A write may fail, and
-- Delete is a write; a read of a missing key gives a status that is not ok, which is `none`.
pub mod Memory
use beryldb.Prelude.{ℕ, ◌≡◌, Bool, Option, none, some, List, [], ◌∷◌, Str, str_eq, if◌then◌else◌}

pub data BatchOp : Type 0 where
  put_op : Str → Str → BatchOp
  delete_op : Str → BatchOp

pub record Rocks : Type 1 where
  pub State : Type 0
  pub get : State → Str → Option Str
  pub put : State → Str → Str → Option State
  pub delete : State → Str → Option State
  -- The pairs that an iterator goes through, from SeekToFirst() on.
  pub entries : State → List (Str × Str)
  -- Write of a WriteBatch.
  pub write : State → List BatchOp → Option State

-- What a lookup gives after a batch, from what it gave before.
abbrev pub after_batch : Str → Option Str → List BatchOp → Option Str
after_batch j v [] = v
after_batch j v (put_op k w ∷ ops) = after_batch j (if str_eq k j then some w else v) ops
after_batch j v (delete_op k ∷ ops) = after_batch j (if str_eq k j then none else v) ops

-- The documented behaviour: a write that succeeds is read back, and changes no other key.
pub record IsStore (r : Rocks) : Type 0 where
  pub get-put :
      (s s' : r.State) (k v j : Str)
      → r.put s k v ≡ some s'
      → r.get s' j ≡ (if str_eq k j then some v else r.get s j)
  pub get-delete :
      (s s' : r.State) (k j : Str)
      → r.delete s k ≡ some s'
      → r.get s' j ≡ (if str_eq k j then none else r.get s j)
  pub get-write :
      (s s' : r.State) (ops : List BatchOp) (j : Str)
      → r.write s ops ≡ some s'
      → r.get s' j ≡ after_batch j (r.get s j) ops

-- No Delete fails.
abbrev pub Deletes : Rocks → Type 0
Deletes r = (s : r.State) (k : Str) → (s' : r.State) × (r.delete s k ≡ some s')
