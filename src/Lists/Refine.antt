-- ===== src/Lists/Refine.antt =====
-- The list commands against a store of lists: each command that returns is one function of the list of its key.
use beryldb.ListHandler
use beryldb.ListHandler.{ListHandler}
use beryldb.Rocks.{Rocks}
use beryldb.Query.Types.{Query}
