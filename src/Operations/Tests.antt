-- ===== src/Operations/Tests.antt =====
-- The counts of keys at a store in memory.
use beryldb.Prelude.{List, [], ◌∷◌, Str, codes}

abbrev names : List Str
names = codes "k" ∷ codes "m" ∷ codes "k" ∷ []
