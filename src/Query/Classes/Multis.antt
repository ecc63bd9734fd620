-- ===== src/Query/Classes/Multis.antt =====
-- include/brldb/query.h: the queries of multimaps, as their constructors make them.
use beryldb.Query.Types.{QueryType, int_mmap}
use beryldb.Query.Classes.{QueryClass}

abbrev pub mrepeats_query : QueryClass
mrepeats_query = record { type = QueryType.read; base_request = int_mmap }

abbrev pub msetnx_query : QueryClass
msetnx_query = record { type = QueryType.write; base_request = int_mmap }

abbrev pub mset_query : QueryClass
mset_query = record { type = QueryType.write; base_request = int_mmap }

abbrev pub mdel_query : QueryClass
mdel_query = record { type = QueryType.delete; base_request = int_mmap }

abbrev pub mget_query : QueryClass
mget_query = record { type = QueryType.read; base_request = int_mmap }

abbrev pub mvals_query : QueryClass
mvals_query = record { type = QueryType.read; base_request = int_mmap }

abbrev pub mgetall_query : QueryClass
mgetall_query = record { type = QueryType.read; base_request = int_mmap }

abbrev pub miter_query : QueryClass
miter_query = record { type = QueryType.read; base_request = int_mmap }

abbrev pub mexists_query : QueryClass
mexists_query = record { type = QueryType.iter; base_request = int_mmap }

abbrev pub mkeys_query : QueryClass
mkeys_query = record { type = QueryType.skip; base_request = int_mmap }
