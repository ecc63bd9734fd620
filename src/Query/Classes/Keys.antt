-- ===== src/Query/Classes/Keys.antt =====
-- include/brldb/query.h: the queries of plain keys, as their constructors make them.
use beryldb.Query.Types.{QueryType, int_key}
use beryldb.Query.Classes.{QueryClass}

abbrev pub getpersist_query : QueryClass
getpersist_query = record { type = QueryType.read; base_request = int_key }

abbrev pub getdel_query : QueryClass
getdel_query = record { type = QueryType.read; base_request = int_key }

abbrev pub insert_query : QueryClass
insert_query = record { type = QueryType.read; base_request = int_key }

abbrev pub char_query : QueryClass
char_query = record { type = QueryType.read; base_request = int_key }

abbrev pub getset_query : QueryClass
getset_query = record { type = QueryType.read; base_request = int_key }

abbrev pub count_query : QueryClass
count_query = record { type = QueryType.skip; base_request = int_key }

abbrev pub alpha_query : QueryClass
alpha_query = record { type = QueryType.read; base_request = int_key }

abbrev pub setnx_query : QueryClass
setnx_query = record { type = QueryType.write; base_request = int_key }

abbrev pub settx_query : QueryClass
settx_query = record { type = QueryType.write; base_request = int_key }

abbrev pub set_query : QueryClass
set_query = record { type = QueryType.write; base_request = int_key }

abbrev pub random_query : QueryClass
random_query = record { type = QueryType.skip; base_request = int_key }

abbrev pub modify_query : QueryClass
modify_query = record { type = QueryType.read; base_request = int_key }

abbrev pub op_query : QueryClass
op_query = record { type = QueryType.write; base_request = int_key }

abbrev pub get_query : QueryClass
get_query = record { type = QueryType.read; base_request = int_key }

abbrev pub getexp_query : QueryClass
getexp_query = record { type = QueryType.read; base_request = int_key }

abbrev pub get_occurs_query : QueryClass
get_occurs_query = record { type = QueryType.read; base_request = int_key }

abbrev pub get_substr_query : QueryClass
get_substr_query = record { type = QueryType.write; base_request = int_key }

abbrev pub strlen_query : QueryClass
strlen_query = record { type = QueryType.read; base_request = int_key }

abbrev pub append_query : QueryClass
append_query = record { type = QueryType.write; base_request = int_key }

abbrev pub setex_query : QueryClass
setex_query = record { type = QueryType.write; base_request = int_key }

abbrev pub future_del_query : QueryClass
future_del_query = record { type = QueryType.future; base_request = int_key }

abbrev pub future_query : QueryClass
future_query = record { type = QueryType.future; base_request = int_key }

abbrev pub expire_query : QueryClass
expire_query = record { type = QueryType.expire; base_request = int_key }

abbrev pub expireat_query : QueryClass
expireat_query = record { type = QueryType.read; base_request = int_key }

abbrev pub future_exec_query : QueryClass
future_exec_query = record { type = QueryType.future_run; base_request = int_key }

abbrev pub expire_del_query : QueryClass
expire_del_query = record { type = QueryType.read; base_request = int_key }

abbrev pub wdel_query : QueryClass
wdel_query = record { type = QueryType.skip; base_request = int_key }

abbrev pub search_query : QueryClass
search_query = record { type = QueryType.skip; base_request = int_key }

abbrev pub keys_query : QueryClass
keys_query = record { type = QueryType.skip; base_request = int_key }

abbrev pub isnum_query : QueryClass
isnum_query = record { type = QueryType.read; base_request = int_key }

abbrev pub isbool_query : QueryClass
isbool_query = record { type = QueryType.read; base_request = int_key }

abbrev pub asbool_query : QueryClass
asbool_query = record { type = QueryType.read; base_request = int_key }

abbrev pub ismatch_query : QueryClass
ismatch_query = record { type = QueryType.read; base_request = int_key }
