-- ===== src/Validators/Laws.antt =====
-- What the validators promise of a name.
use beryldb.Prelude.{
  ℕ, ◌≡◌, refl, Bool, true, false, ◌||◌, ◌↔◌, [], ◌∷◌, Str, All, IsNonempty, arith, ◌==◌,
}
use beryldb.Validators.{
  login_loop, login_validator, key_loop, key_validator, agent_loop, agent_validator, db_validator,
}

-- The byte neither stands for any text in a mask nor separates the stored elements.
abbrev pub IsFree : ℕ → Type 0
IsFree c = (c == b'*' || c == b':') ≡ false

key_loop-All : (s : Str) → key_loop s ≡ true → All IsFree s
unfolding key_loop
key_loop-All [] h = tt
key_loop-All (c ∷ s) h = (ground arith, key_loop-All s (ground arith))

All-key_loop : (s : Str) → All IsFree s → key_loop s ≡ true
unfolding key_loop
All-key_loop [] h = refl
All-key_loop (c ∷ s) h = rw h.0 (All-key_loop s h.1)

-- `KeyValidator` accepts exactly the keys that are not empty and hold neither `*` nor `:`.
pub key_validator_lem : (key : Str) → (key_validator key ≡ true) ↔ (IsNonempty key × All IsFree key)
unfolding key_validator
key_validator_lem [] = ((λ e. cc), (λ h. absurd h.0))
key_validator_lem (c ∷ s) = ((λ e. (tt, key_loop-All (c ∷ s) e)), (λ h. All-key_loop (c ∷ s) h.1))

login_loop-agent_loop : (first : Bool) (s : Str) → login_loop first s ≡ true → agent_loop s ≡ true
unfolding login_loop agent_loop
login_loop-agent_loop first [] h = refl
login_loop-agent_loop first (c ∷ s) h = ground (arith, login_loop-agent_loop false s)

-- A login that `LoginValidator` accepts is accepted by `AgentValidator` and by `DBValidator` too.
pub login-agent-db :
    (login : Str)
    → login_validator login ≡ true
    → (agent_validator login ≡ true) × (db_validator login ≡ true)
unfolding login_validator agent_validator db_validator
login-agent-db login h =
    let loop = login_loop-agent_loop true login in (ground (arith, loop), ground (arith, loop))
