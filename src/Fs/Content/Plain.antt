-- ===== src/Fs/Content/Plain.antt =====
-- A memory of bytes without protection, for the examples on ex5/bonus/fs.c.
use os_course.Prelude.{
  ℕ, zero, suc, ◌+◌, ◌-◌, ◌<◌, ◌≡◌, ap, refl, arith, Option, some, List, [], ◌∷◌, ltb, leb, ◌&&◌,
  if◌then◌else◌, length, get_or,
}
use os_course.Fs.Content.Memory.{Copies}

abbrev pub Memory : Type 0
Memory = ℕ → ℕ

abbrev from : Memory → ℕ → ℕ → List ℕ
from m s zero = []
from m s (suc n) = m s ∷ from m (s + 1) n

length-from : (m : Memory) (s n : ℕ) → length (from m s n) ≡ n
length-from m s zero = refl
length-from m s (suc n) = ap suc (length-from m (s + 1) n)

get_or-from : (m : Memory) (s n i : ℕ) → i < n → get_or (from m s n) i 0 ≡ m (s + i)
get_or-from m s zero i h = absurd (omega arith)
get_or-from m s (suc n) zero h = ap m (omega arith)
get_or-from m s (suc n) (suc i) h = ground (
  arith,
  get_or-from m (s + 1) n i (omega arith),
  ap m {x = s + 1 + i} {y = s + suc i} (omega arith),
)

abbrev pub store : ℕ → List ℕ → Memory → Option Memory
store d bytes m =
    some (λ x. if leb d x && ltb x (d + length bytes) then get_or bytes (x - d) 0 else m x)

abbrev pub fetch : ℕ → ℕ → Memory → Option (List ℕ)
fetch s n m = some (from m s n)

-- An example of what the copying functions may be.
pub memory-Copies : Copies store fetch (λ m x. m x) 100
memory-Copies = record {
  small = omega arith;
  out_copies = λ d bytes m h. (_, refl, λ x. refl);
  in_copies = λ s n m h. (from m s n, refl, length-from m s n, λ i hi. get_or-from m s n i hi);
}
