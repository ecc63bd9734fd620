-- ===== src/Keys.antt =====
-- src/brldb/keys.cpp and operation.cpp: the commands on the value of a plain key, `Run` of each query on the
-- store. The C library's `toupper` and `tolower` are those of the C locale.
pub mod Scan
pub mod More
pub mod Laws
pub mod SetGet
pub mod Tests
use beryldb.Prelude.{
  ℕ, ◌+◌, ◌-◌, Bool, true, false, ◌&&◌, ◌||◌, Option, none, some, List, [], ◌∷◌, ◌++◌, map, Str,
  codes, str_eq, length, take, drop, get_elem?, leb, ltb, ◌==◌, if◌then◌else◌,
}
use beryldb.Machine.{Outcome, ret, fault, ◌>>=◌, ℤ}
use beryldb.Machine.ℤ.{pos, negsuc}
use beryldb.Codec.{to_bin, to_string, is_number}
use beryldb.Convert.{conv_numeric, convto_num}
use beryldb.Match.{glob}
use beryldb.Expires
use beryldb.Rocks.{Rocks}
use beryldb.Query.Types.{DblCode, StrFunction, Query, World}
use beryldb.Query.{
  get, write, delete, access_set, set_ok, or_empty, write_expire, expire_batch, del_expire,
  is_expiring,
}
use beryldb.Query.Prepare.{Run}
use beryldb.Query.Replies.{one_or_zero, save}

abbrev pub to_upper : ℕ → ℕ
to_upper c = if leb b'a' c && leb c b'z' then c - 32 else c

abbrev pub to_lower : ℕ → ℕ
to_lower c = if leb b'A' c && leb c b'Z' then c + 32 else c

-- The branches of `modify_query::Run`.
unfoldable pub modified : StrFunction → Str → Str
modified StrFunction.str_to_upper s = map to_upper s
modified StrFunction.str_to_low s = map to_lower s
modified StrFunction.str_to_cap [] = []
modified StrFunction.str_to_cap (c ∷ s) = to_upper c ∷ s

-- `found[flength]` below the length, as a text of one byte.
abbrev pub byte_at : Option ℕ → Option Str
byte_at none = none
byte_at (some c) = some (c ∷ [])

module _ (r : Rocks) where
  -- to_string(result.value).
  unfoldable pub plain : Query → World r → Str
  plain q w = to_string (or_empty (get r q w q.dest))

  -- The text is written, with the reply given.
  unfoldable pub save_text : Query → World r → Str → Outcome (Query × World r)
  unfolding save
  save_text q w text = save r q w (to_bin text)

  unfoldable pub answer : Query → World r → Str → Outcome (Query × World r)
  answer q w text = ret (set_ok (record q { response = text }), w)

  unfoldable pub set : Run r
  unfolding save_text
  set q w = save_text q w q.value

  pub setex : Run r
  setex q w = do
    w1 ← expire_batch r q w q.dest q.value q.key q.select_query q.id
    ret (set_ok q, w1)

  pub expireat : Run r
  expireat q w = do w1 ← write_expire r q w q.key q.select_query q.id; ret (set_ok q, w1)

  pub expire_del : Run r
  expire_del q w = do w1 ← del_expire r q w; ret (set_ok q, w1)

  unfoldable pub modify : Run r
  unfolding save_text plain
  modify q w =
      let text = modified q.function (plain q w) in save_text (record q { response = text }) w text

  pub char : Run r
  unfolding plain answer
  char q w = elim (byte_at (get_elem? (plain q w) (convto_num q.value))) [
    | none ↦ ret (access_set DblCode.invalid_range q, w)
    | some text ↦ answer q w text
  ]

  pub isnum : Run r
  unfolding plain answer
  isnum q w = answer q w (one_or_zero (is_number (plain q w) true))

  pub isbool : Run r
  unfolding plain answer
  isbool q w =
      let text = plain q w in
      answer q w (
        one_or_zero (
          str_eq text (codes "0")
          || str_eq text (codes "1")
          || str_eq text (codes "true")
          || str_eq text (codes "false")
          || str_eq text (codes "on")
          || str_eq text (codes "off")))

  pub getpersist : Run r
  unfolding plain
  getpersist q w = do w1 ← del_expire r q w; ret (set_ok (record q { response = plain q w }), w1)

  unfoldable pub get_run : Run r
  unfolding plain answer
  get_run q w = answer q w (plain q w)

  unfoldable pub strlen : Run r
  unfolding plain answer
  strlen q w = answer q w (conv_numeric (length (plain q w)))

  unfoldable pub getdel : Run r
  unfolding plain
  getdel q w = ret (set_ok (record q { response = plain q w }), delete r q w q.dest)

  unfoldable pub getset : Run r
  unfolding plain save_text
  getset q w = save_text (record q { response = plain q w }) w q.value

  unfoldable pub setnx : Run r
  unfolding save_text
  setnx q w = elim (get r q w q.dest) [
    | none ↦ save_text q w q.value
    | some v ↦ ret (access_set DblCode.entry_exists q, w)
  ]

  -- IsExpiring() < 0.
  abbrev pub not_expiring : ℤ → Bool
  not_expiring (pos n) = false
  not_expiring (negsuc n) = true

  -- A key with a timer is not written; a failed write is not reported.
  pub settx : Run r
  settx q w = do
    (w1, ttl) ← is_expiring r q w
    ret (
        if not_expiring ttl
        then (set_ok q, (write r q w1 q.dest (to_bin q.value)).0)
        else (access_set DblCode.entry_expires q, w1))

  unfoldable pub append : Run r
  unfolding plain save_text
  append q w = let text = plain q w ++ q.value in save_text (record q { response = text }) w text

  pub getexp : Run r
  unfolding plain
  getexp q w = do
    w1 ← write_expire r q w q.key q.select_query q.id
    ret (set_ok (record q { response = plain q w }), w1)

  pub asbool : Run r
  unfolding plain answer
  asbool q w =
      let text = plain q w in
      answer q w (
        if str_eq text (codes "1") || str_eq text (codes "true") || str_eq text (codes "on")
        then codes "true"
        else codes "false")

  pub ismatch : Run r
  unfolding plain answer
  ismatch q w = answer q w (one_or_zero (glob (plain q w) q.value))

  unfoldable pub insert : Run r
  unfolding plain save_text
  insert q w =
      let text = take q.id (plain q w) ++ q.value ++ drop q.id (plain q w) in
      if ltb (length (plain q w)) q.id
      then ret (access_set DblCode.invalid_range q, w)
      else save_text (record q { response = text }) w text
