-- ===== src/Files/Permit.antt =====
-- Which files `sys_open` of ex5/bonus/sysfile.c opens.
use os_course.Prelude.{
  ℕ, ◌≡◌, ◌⊎◌, ◌∙◌, sym, ap, refl, Bool, true, false, Option, none, some, arith, ◌==◌, ◌&&◌,
  is_unset, if◌then◌else◌, Bool-cases, inl, inr,
}
use os_course.Prelude.Int.{ℤ, pos, negsuc, ltb_ℤ}
use os_course.Prelude.Word.{int_eq}
use os_course.Fs.{Inode, bit_at, check_permission}
use os_course.Files.Open.{
  CharList, FileSystem, has, give_up, with_file, bad_device, open_locked, after_create, after_namei,
  sys_open,
}

-- The bits that a mode without flags asks for.
abbrev pub Permits : ℕ → Inode → Type 0
Permits omode ip =
    ((omode ≡ 0) ⊎ (omode ≡ 2) → bit_at 8 ip.content.permissions ≡ true)
    × ((omode ≡ 1) ⊎ (omode ≡ 2) → bit_at 7 ip.content.permissions ≡ true)

check_permission-Permits :
    (ip : Inode) (omode : ℕ) → ltb_ℤ (check_permission ip omode) (pos 0) ≡ false → Permits omode ip
unfolding check_permission
check_permission-Permits ip omode h = (λ x. ground arith, λ x. ground arith)

module _ {W : Type 0} (fs : FileSystem W) where
  abbrev opens : ℤ × W → Bool
  opens (pos fd, w) = true
  opens (negsuc k, w) = false

  open_locked-opens :
      (ip omode : ℕ) (w : W)
      → opens (open_locked fs ip omode w) ≡ true
      → ltb_ℤ (check_permission (fs.inode ip w) omode) (pos 0) ≡ false
  open_locked-opens ip omode w h =
      elim (Bool-cases (ltb_ℤ (check_permission (fs.inode ip w) omode) (pos 0))) [
        | inr e ↦ e
        | inl e ↦ ground (
          arith,
          sym (
                ap
                  (λ b. opens (
                    if b
                    then give_up fs ip w
                    else (if bad_device fs (fs.inode ip w)
                        then give_up fs ip w
                        else with_file fs ip omode (fs.filealloc w))))
                  e)
              ∙ h,
        )
      ]

  after_namei-opens :
      (omode : ℕ) (r : Option ℕ × W)
      → opens (after_namei fs omode r) ≡ true
      → (ip : ℕ) × (w : W) × (r ≡ (some ip, w)) × Permits omode (fs.inode ip (fs.ilock ip w))
  after_namei-opens omode (none, w) h = ground (arith, h)
  after_namei-opens omode (some ip, w) h =
      let w' = fs.ilock ip w in
      let is_dir = int_eq (fs.inode ip w').content.type fs.t_dir && is_unset (omode == 0) in
      elim (Bool-cases is_dir) [
        | inl e ↦ ground (
          arith,
          sym (ap (λ b. opens (if b then give_up fs ip w' else open_locked fs ip omode w')) e) ∙ h,
        )
        | inr e ↦ (
          ip,
          w,
          refl,
          check_permission-Permits (fs.inode ip w') omode (
              open_locked-opens ip omode w' (
                sym (ap (λ b. opens (if b then give_up fs ip w' else open_locked fs ip omode w')) e)
                ∙ h)),
        )
      ]

  -- A mode without O_CREATE: `sys_open` gives a descriptor only for a file that its path names, and, where
  -- the mode is O_RDONLY or O_RDWR, only if its owner may read it; where it is O_WRONLY or O_RDWR, only
  -- if its owner may write it, by the bits as they are once the inode is locked.
  pub sys_open-Permits :
      (path : CharList) (omode fd : ℕ) (w w' : W)
      → has fs.o_create omode ≡ false
      → sys_open fs (some path) omode w ≡ (pos fd, w')
      → (ip : ℕ) × (v : W) × (fs.namei path (fs.begin_op w) ≡ (some ip, v))
        × Permits omode (fs.inode ip (fs.ilock ip v))
  unfolding sys_open
  sys_open-Permits path omode fd w w' no_create e =
      let v = fs.begin_op w in
      after_namei-opens omode (fs.namei path v) (
        sym (
          ap
            (λ b. opens (
              if b
              then after_create fs omode (fs.create path v)
              else after_namei fs omode (fs.namei path v)))
            no_create)
        ∙ ap opens e)
