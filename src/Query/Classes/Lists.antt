-- ===== src/Query/Classes/Lists.antt =====
-- include/brldb/query.h: the queries of lists, as their constructors make them.
use beryldb.Query.Types.{QueryType, int_list}
use beryldb.Query.Classes.{QueryClass}

abbrev pub lpush_query : QueryClass
lpush_query = record { type = QueryType.write; base_request = int_list }

abbrev pub llow_query : QueryClass
llow_query = record { type = QueryType.read; base_request = int_list }

abbrev pub lhigh_query : QueryClass
lhigh_query = record { type = QueryType.read; base_request = int_list }

abbrev pub lpushnx_query : QueryClass
lpushnx_query = record { type = QueryType.write; base_request = int_list }

abbrev pub lexist_query : QueryClass
lexist_query = record { type = QueryType.read; base_request = int_list }

abbrev pub lrepeats_query : QueryClass
lrepeats_query = record { type = QueryType.read; base_request = int_list }

abbrev pub lresize_query : QueryClass
lresize_query = record { type = QueryType.read; base_request = int_list }

abbrev pub lcount_query : QueryClass
lcount_query = record { type = QueryType.read; base_request = int_list }

abbrev pub lrop_query : QueryClass
lrop_query = record { type = QueryType.read; base_request = int_list }

abbrev pub lrfront_query : QueryClass
lrfront_query = record { type = QueryType.read; base_request = int_list }

abbrev pub lfront_query : QueryClass
lfront_query = record { type = QueryType.read; base_request = int_list }

abbrev pub lback_query : QueryClass
lback_query = record { type = QueryType.read; base_request = int_list }

abbrev pub lget_query : QueryClass
lget_query = record { type = QueryType.read; base_request = int_list }

abbrev pub lpop_front_query : QueryClass
lpop_front_query = record { type = QueryType.read; base_request = int_list }

abbrev pub lpop_back_query : QueryClass
lpop_back_query = record { type = QueryType.read; base_request = int_list }

abbrev pub lsort_query : QueryClass
lsort_query = record { type = QueryType.read; base_request = int_list }

abbrev pub lpos_query : QueryClass
lpos_query = record { type = QueryType.read; base_request = int_list }

abbrev pub lavg_query : QueryClass
lavg_query = record { type = QueryType.read; base_request = int_list }

abbrev pub lreverse_query : QueryClass
lreverse_query = record { type = QueryType.read; base_request = int_list }

abbrev pub lkeys_query : QueryClass
lkeys_query = record { type = QueryType.skip; base_request = int_list }

abbrev pub lpopall_query : QueryClass
lpopall_query = record { type = QueryType.iter; base_request = int_list }

abbrev pub ldel_query : QueryClass
ldel_query = record { type = QueryType.delete; base_request = int_list }
