-- ===== src/Validators/Tests.antt =====
-- The validators on concrete names.
use beryldb.Prelude.{refl, ◌≡◌, true, [], ◌∷◌}
use beryldb.Validators.{login_loop, login_validator}

ab1-login : login_validator (b'a' ∷ b'b' ∷ b'1' ∷ []) ≡ true
unfolding login_validator login_loop
ab1-login = refl
