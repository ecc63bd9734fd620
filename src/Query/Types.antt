-- ===== src/Query/Types.antt =====
-- include/brldb/query.h and include/brldb/dbnumeric.h: what a query holds, and the world that it runs in.
use beryldb.Prelude.{ℕ, Bool, Option, List, [], ◌∷◌, Str, codes}
use beryldb.Machine.{ℤ}
use beryldb.Stl.Ordered.{Pairs}
use beryldb.Expires.{ExpireManager}
use beryldb.Futures.{FutureManager}
use beryldb.Rocks.{Rocks}

pub data StrFunction : Type 0 where
  str_to_low str_to_upper str_to_cap : StrFunction

pub data QueryType : Type 0 where
  rename copy type delete iter write test dbsize op read expire exists skip setex move clone :
      QueryType
  future future_run read_allow renamenx diff lat long transfer sort : QueryType

pub data QueryFlags : Type 0 where
  flags_none quiet core count global : QueryFlags

pub data DblCode : Type 0 where
  dbl_none status_failed status_ok miss_args not_found entry_exists manager_ok status_broken
        not_num :
      DblCode
  query_large interrupt invalid_type unable_write invalid_format invalid_range entry_expires :
      DblCode
  not_expiring batch_failed : DblCode

-- The registry types of make/models/constants.h, and their order in make/models/config.h.
abbrev pub int_key : Str
int_key = codes "1"

abbrev pub int_map : Str
int_map = codes "2"

abbrev pub int_list : Str
int_list = codes "3"

abbrev pub int_geo : Str
int_geo = codes "4"

abbrev pub int_mmap : Str
int_mmap = codes "5"

abbrev pub int_vector : Str
int_vector = codes "6"

abbrev pub int_expire : Str
int_expire = codes "8"

abbrev pub int_future : Str
int_future = codes "9"

abbrev pub type_regs : List Str
type_regs =
    int_list ∷ int_key ∷ int_geo ∷ int_map ∷ int_mmap ∷ int_vector ∷ int_expire ∷ int_future ∷ []

abbrev pub process_null : Str
process_null = codes "NULL"

-- The fields that the modelled queries use. `mapped` is `some` once a value is loaded.
pub record Query : Type 0 where
  pub finished : Bool
  pub key_required : Bool
  pub mapped : Option Str
  pub function : StrFunction
  pub flags : QueryFlags
  pub type : QueryType
  pub access : DblCode
  pub identified : Str
  pub dest : Str
  pub base_request : Str
  pub subresult : ℕ
  pub partial : Bool
  pub hesh : Str
  pub key : Str
  pub value : Str
  pub offset : ℤ
  pub limit : ℤ
  pub select_query : ℕ
  pub id : ℕ
  pub response : Str
  pub vec_data : List Str
  pub mmap : Pairs
  pub database : ℕ
  pub transf_db : Option ℕ
  pub counter : ℕ

-- A partial result that is attached to the user.
pub record Page : Type 0 where
  pub page_subresult : ℕ
  pub page_data : List Str
  pub page_mmap : Pairs

-- The databases by their pointers, the managers of timers, and the pages attached so far.
pub record World (r : Rocks) : Type 0 where
  pub databases : ℕ → r.State
  pub closing : ℕ → Bool
  pub name : ℕ → Str
  pub expires : ExpireManager
  pub futures : FutureManager
  pub now : ℕ
  pub attached : List Page
