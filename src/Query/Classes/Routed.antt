-- ===== src/Query/Classes/Routed.antt =====
-- include/brldb/query.h: the queries that have a branch for each type of a key, as their constructors make them.
use beryldb.Prelude.{[]}
use beryldb.Query.Types.{QueryType}
use beryldb.Query.Classes.{QueryClass}

abbrev pub sort_query : QueryClass
sort_query = record { type = QueryType.sort; base_request = [] }

abbrev pub rename_query : QueryClass
rename_query = record { type = QueryType.rename; base_request = [] }

abbrev pub renamenx_query : QueryClass
renamenx_query = record { type = QueryType.renamenx; base_request = [] }

abbrev pub diff_query : QueryClass
diff_query = record { type = QueryType.diff; base_request = [] }

abbrev pub del_query : QueryClass
del_query = record { type = QueryType.delete; base_request = [] }

abbrev pub transfer_query : QueryClass
transfer_query = record { type = QueryType.transfer; base_request = [] }

abbrev pub move_query : QueryClass
move_query = record { type = QueryType.move; base_request = [] }

abbrev pub clone_query : QueryClass
clone_query = record { type = QueryType.clone; base_request = [] }

abbrev pub copy_query : QueryClass
copy_query = record { type = QueryType.copy; base_request = [] }

abbrev pub exists_query : QueryClass
exists_query = record { type = QueryType.exists; base_request = [] }
