-- ===== src/Query/Classes/Vectors.antt =====
-- include/brldb/query.h: the queries of vectors, as their constructors make them.
use beryldb.Query.Types.{QueryType, int_list, int_vector}
use beryldb.Query.Classes.{QueryClass}

abbrev pub vpush_query : QueryClass
vpush_query = record { type = QueryType.write; base_request = int_vector }

abbrev pub vsum_query : QueryClass
vsum_query = record { type = QueryType.read; base_request = int_vector }

abbrev pub vlow_query : QueryClass
vlow_query = record { type = QueryType.read; base_request = int_vector }

abbrev pub vhigh_query : QueryClass
vhigh_query = record { type = QueryType.read; base_request = int_vector }

abbrev pub vpushnx_query : QueryClass
vpushnx_query = record { type = QueryType.write; base_request = int_vector }

abbrev pub vget_query : QueryClass
vget_query = record { type = QueryType.read; base_request = int_vector }

abbrev pub vresize_query : QueryClass
vresize_query = record { type = QueryType.read; base_request = int_vector }

abbrev pub vexist_query : QueryClass
vexist_query = record { type = QueryType.read; base_request = int_vector }

abbrev pub vrepeats_query : QueryClass
vrepeats_query = record { type = QueryType.read; base_request = int_vector }

abbrev pub vcount_query : QueryClass
vcount_query = record { type = QueryType.read; base_request = int_vector }

abbrev pub vfront_query : QueryClass
vfront_query = record { type = QueryType.read; base_request = int_vector }

abbrev pub vback_query : QueryClass
vback_query = record { type = QueryType.read; base_request = int_vector }

abbrev pub vpop_front_query : QueryClass
vpop_front_query = record { type = QueryType.read; base_request = int_vector }

abbrev pub vpop_back_query : QueryClass
vpop_back_query = record { type = QueryType.read; base_request = int_vector }

abbrev pub vsort_query : QueryClass
vsort_query = record { type = QueryType.read; base_request = int_vector }

abbrev pub vpos_query : QueryClass
vpos_query = record { type = QueryType.read; base_request = int_vector }

abbrev pub vavg_query : QueryClass
vavg_query = record { type = QueryType.read; base_request = int_vector }

abbrev pub vreverse_query : QueryClass
vreverse_query = record { type = QueryType.read; base_request = int_vector }

abbrev pub vkeys_query : QueryClass
vkeys_query = record { type = QueryType.skip; base_request = int_list }

abbrev pub vfind_query : QueryClass
vfind_query = record { type = QueryType.iter; base_request = int_vector }

abbrev pub vdel_query : QueryClass
vdel_query = record { type = QueryType.delete; base_request = int_vector }
