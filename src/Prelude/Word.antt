-- ===== src/Prelude/Word.antt =====
-- The C type `int`: an integer whose increment and decrement wrap at 32 bits.
use os_course.Prelude.{
  ℕ, zero, suc, ◌-◌, ◌%◌, ◌^◌, Option, none, some, Bool, ltb, ◌==◌, if◌then◌else◌,
}
use os_course.Prelude.Int.{ℤ, pos, negsuc}

abbrev pub int_max : ℕ
int_max = 2 ^ 31 - 1

-- `v + 1`; the signed overflow that C leaves undefined is taken to wrap.
abbrev pub int_succ : ℤ → ℤ
int_succ (pos n) = if n == int_max then negsuc int_max else pos (suc n)
int_succ (negsuc zero) = pos 0
int_succ (negsuc (suc n)) = negsuc n

-- `v - 1`
abbrev pub int_pred : ℤ → ℤ
int_pred (pos zero) = negsuc 0
int_pred (pos (suc n)) = pos n
int_pred (negsuc n) = if n == int_max then pos int_max else negsuc (suc n)

-- What a kernel function returns to its caller on success, and on failure.
abbrev pub success : ℤ
success = pos 0

abbrev pub failure : ℤ
failure = negsuc 0

-- The index that passes `id < 0 || id >= n`.
abbrev pub index_below : ℕ → ℤ → Option ℕ
index_below n (pos i) = if ltb i n then some i else none
index_below n (negsuc i) = none

-- Equality of integers, as C tests it.
abbrev pub int_eq : ℤ → ℤ → Bool
int_eq (pos a) (pos b) = a == b
int_eq (pos a) (negsuc b) = Bool.false
int_eq (negsuc a) (pos b) = Bool.false
int_eq (negsuc a) (negsuc b) = a == b

-- A 64-bit register read as an `int`.
abbrev pub as_int : ℕ → ℤ
as_int a = let m = a % 2 ^ 32 in if ltb m (2 ^ 31) then pos m else negsuc (2 ^ 32 - 1 - m)
