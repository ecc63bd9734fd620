-- ===== src/Query/Classes/Databases.antt =====
-- include/brldb/query.h: the queries that name no type, as their constructors make them.
use beryldb.Prelude.{[]}
use beryldb.Query.Types.{QueryType}
use beryldb.Query.Classes.{QueryClass}

abbrev pub type_query : QueryClass
type_query = record { type = QueryType.type; base_request = [] }

abbrev pub total_query : QueryClass
total_query = record { type = QueryType.skip; base_request = [] }

abbrev pub glist_query : QueryClass
glist_query = record { type = QueryType.skip; base_request = [] }

abbrev pub list_query : QueryClass
list_query = record { type = QueryType.skip; base_request = [] }

abbrev pub test_dump_query : QueryClass
test_dump_query = record { type = QueryType.skip; base_request = [] }

abbrev pub touch_query : QueryClass
touch_query = record { type = QueryType.skip; base_request = [] }

abbrev pub ntouch_query : QueryClass
ntouch_query = record { type = QueryType.skip; base_request = [] }

abbrev pub sflush_query : QueryClass
sflush_query = record { type = QueryType.skip; base_request = [] }

abbrev pub future_list_query : QueryClass
future_list_query = record { type = QueryType.skip; base_request = [] }

abbrev pub expire_list_query : QueryClass
expire_list_query = record { type = QueryType.skip; base_request = [] }

abbrev pub dbreset_query : QueryClass
dbreset_query = record { type = QueryType.skip; base_request = [] }

abbrev pub dbsize_query : QueryClass
dbsize_query = record { type = QueryType.skip; base_request = [] }
