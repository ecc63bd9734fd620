-- ===== src/Query/Classes.antt =====
-- include/brldb/query.h: the classes of queries, by what their constructors set.
pub mod Routed
pub mod Keys
pub mod Lists
pub mod Vectors
pub mod Maps
pub mod Multis
pub mod Geos
pub mod Databases
use beryldb.Prelude.{Str}
use beryldb.Query.Types.{QueryType, Query}

pub record QueryClass : Type 0 where
  pub type : QueryType
  pub base_request : Str

-- A query of the class, from the fields that the command that makes it sets.
unfoldable pub construct : QueryClass → Query → Query
construct c q = record q { type = c.type; base_request = c.base_request }
