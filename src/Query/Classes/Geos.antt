-- ===== src/Query/Classes/Geos.antt =====
-- include/brldb/query.h: the queries of geo points, as their constructors make them.
use beryldb.Query.Types.{QueryType, int_geo}
use beryldb.Query.Classes.{QueryClass}

abbrev pub georem_query : QueryClass
georem_query = record { type = QueryType.skip; base_request = int_geo }

abbrev pub geocalc_query : QueryClass
geocalc_query = record { type = QueryType.skip; base_request = int_geo }

abbrev pub geoadd_pub_query : QueryClass
geoadd_pub_query = record { type = QueryType.write; base_request = int_geo }

abbrev pub geoadd_query : QueryClass
geoadd_query = record { type = QueryType.write; base_request = int_geo }

abbrev pub geoaddnx_query : QueryClass
geoaddnx_query = record { type = QueryType.write; base_request = int_geo }

abbrev pub geoget_custom_query : QueryClass
geoget_custom_query = record { type = QueryType.read; base_request = int_geo }

abbrev pub geoget_query : QueryClass
geoget_query = record { type = QueryType.read; base_request = int_geo }

abbrev pub geodistance_query : QueryClass
geodistance_query = record { type = QueryType.skip; base_request = int_geo }

abbrev pub gkeys_query : QueryClass
gkeys_query = record { type = QueryType.skip; base_request = int_geo }
