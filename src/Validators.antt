-- ===== src/Validators.antt =====
-- src/daemon.cpp: which logins, keys, agents, databases and channels have a valid name. A char above 127
-- is negative in the source, and is in none of the ranges either way.
pub mod Laws
pub mod Tests
use beryldb.Prelude.{
  ℕ, zero, suc, Bool, true, false, not, ◌&&◌, ◌||◌, List, [], ◌∷◌, Str, is_empty, length, leb, ltb,
  ◌==◌, if◌then◌else◌,
}

-- From `A` to `}`.
abbrev pub is_word : ℕ → Bool
is_word c = leb b'A' c && leb c b'}'

abbrev pub is_decimal : ℕ → Bool
is_decimal c = leb b'0' c && leb c b'9'

-- name.empty() || name.length() < 3 || name.length() > 15
abbrev pub bad_length : Str → Bool
bad_length name = is_empty name || ltb (length name) 3 || ltb 15 (length name)

-- The loop over a login: `first` where the position is the first.
pub login_loop : Bool → Str → Bool
login_loop first [] = true
login_loop first (c ∷ s) =
    let rest = login_loop false s in
    if is_word c then rest else if (is_decimal c || c == b'-') && not first then rest else false

pub login_validator : Str → Bool
unfolding login_loop
login_validator login = if bad_length login then false else login_loop true login

pub key_loop : Str → Bool
key_loop [] = true
key_loop (c ∷ s) = let rest = key_loop s in if c == b'*' || c == b':' then false else rest

pub key_validator : Str → Bool
unfolding key_loop
key_validator key = if is_empty key then false else key_loop key

-- The loop of agents and of databases.
pub agent_loop : Str → Bool
agent_loop [] = true
agent_loop (c ∷ s) =
    let rest = agent_loop s in
    if is_word c then rest else if is_decimal c || c == b'-' || c == b'.' then rest else false

pub agent_validator : Str → Bool
unfolding agent_loop
agent_validator agent = if bad_length agent then false else agent_loop agent

pub db_validator : Str → Bool
unfolding agent_loop
db_validator name = if bad_length name then false else agent_loop name
