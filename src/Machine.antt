-- ===== src/Machine.antt =====
-- What C++ adds to plain values: 32-bit counters, and operations whose behaviour the language does not
-- define. Such an operation returns the fault that it commits.
use beryldb.Prelude.{ℕ, ◌+◌, ◌-◌, ◌%◌, ◌^◌, ltb, if◌then◌else◌}

abbrev pub u32_mod : ℕ
u32_mod = 2 ^ 32

-- `counter++` of an unsigned int.
abbrev pub incr32 : ℕ → ℕ
incr32 n = (n + 1) % u32_mod

-- A size_t assigned to an unsigned int.
abbrev pub to_u32 : ℕ → ℕ
to_u32 n = n % u32_mod

pub data Fault : Type 0 where
  -- std::string constructed from the null pointer
  null_string : Fault
  -- erase(end())
  erase_end : Fault
  -- a read through a reference to an erased element
  dangling : Fault
  -- front() of an empty container
  empty_front : Fault
  -- a std::mutex locked again by the thread that holds it
  relock : Fault
  -- a method called through a null pointer
  null_pointer : Fault
  -- std::out_of_range, which nothing catches
  out_of_range : Fault
  -- a loop that never ends
  endless : Fault

pub data Outcome {ℓ} (A : Type ℓ) : Type ℓ where
  ret : A → Outcome A
  fault : Fault → Outcome A

infixl 5 ◌>>=◌ ◌>>◌
abbrev pub ◌>>=◌ {ℓ κ} : {A : Type ℓ} {B : Type κ} → Outcome A → (A → Outcome B) → Outcome B
ret a >>= f = f a
fault e >>= f = fault e

abbrev pub ◌>>◌ {ℓ κ} : {A : Type ℓ} {B : Type κ} → Outcome A → Outcome B → Outcome B
m >> k = m >>= λ _. k

-- `signed int` results, and the conversion of a time_t that is not negative.
pub data ℤ : Type 0 where
  pos : ℕ → ℤ
  negsuc : ℕ → ℤ

unfoldable pub to_int : ℕ → ℤ
to_int n = let w = n % u32_mod in if ltb w (2 ^ 31) then pos w else negsuc (u32_mod - w - 1)
