-- ===== src/Query/Classes/Maps.antt =====
-- include/brldb/query.h: the queries of maps, as their constructors make them.
use beryldb.Query.Types.{QueryType, int_map}
use beryldb.Query.Classes.{QueryClass}

abbrev pub hstrlen_query : QueryClass
hstrlen_query = record { type = QueryType.read; base_request = int_map }

abbrev pub hsetnx_query : QueryClass
hsetnx_query = record { type = QueryType.read_allow; base_request = int_map }

abbrev pub hset_query : QueryClass
hset_query = record { type = QueryType.write; base_request = int_map }

abbrev pub hdel_query : QueryClass
hdel_query = record { type = QueryType.delete; base_request = int_map }

abbrev pub hget_query : QueryClass
hget_query = record { type = QueryType.read; base_request = int_map }

abbrev pub hexists_query : QueryClass
hexists_query = record { type = QueryType.exists; base_request = int_map }

abbrev pub hvals_query : QueryClass
hvals_query = record { type = QueryType.read; base_request = int_map }

abbrev pub hgetall_query : QueryClass
hgetall_query = record { type = QueryType.read; base_request = int_map }

abbrev pub hlist_query : QueryClass
hlist_query = record { type = QueryType.read; base_request = int_map }

abbrev pub hwdel_query : QueryClass
hwdel_query = record { type = QueryType.iter; base_request = int_map }

abbrev pub hfind_query : QueryClass
hfind_query = record { type = QueryType.skip; base_request = int_map }
