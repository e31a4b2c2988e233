-- ===== src/Fs/Content/Memory.antt =====
-- What `readi` and `writei` of ex5/bonus/fs.c rely on of `either_copyout` and `either_copyin`.
use os_course.Prelude.{
  ℕ, ◌+◌, ◌-◌, ◌^◌, ◌<◌, ◌≤◌, ◌≡◌, Option, some, List, ltb, leb, ◌&&◌, if◌then◌else◌, length,
  get_or,
}

-- The addresses below `room` are the caller's own.
pub record Copies {M : Type 0} (copyout : ℕ → List ℕ → M → Option M)
    (copyin : ℕ → ℕ → M → Option (List ℕ)) (byte : M → ℕ → ℕ) (room : ℕ) : Type 0 where
  pub small : room < 2 ^ 64
  pub out_copies :
      (d : ℕ) (bytes : List ℕ) (m : M)
      → d + length bytes ≤ room
      → (m' : M) × (copyout d bytes m ≡ some m')
        × ((x : ℕ)
            → byte m' x
              ≡ (if leb d x && ltb x (d + length bytes) then get_or bytes (x - d) 0 else byte m x))
  pub in_copies :
      (s n : ℕ) (m : M)
      → s + n ≤ room
      → (bytes : List ℕ) × (copyin s n m ≡ some bytes)
        × (length bytes ≡ n)
        × ((i : ℕ) → i < n → get_or bytes i 0 ≡ byte m (s + i))
