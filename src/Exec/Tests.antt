-- ===== src/Exec/Tests.antt =====
-- A kernel with one file, for ex5/bonus/exec.c.
use os_course.Prelude.{
  ℕ, ◌+◌, ◌-◌, ◌*◌, ◌%◌, ◌^◌, ◌≤◌, ◌<◌, ◌≡◌, refl, ◌⊎◌, true, false, some, List, [], ◌∷◌, arith,
  ltb, leb, if◌then◌else◌, length,
}
use os_course.Prelude.Int.{pos, negsuc}
use os_course.Exec.{
  CharList, Machine, Image, pgsize, maxarg, lower, returned, pushed, push_strings, loadseg_from,
  loadseg, load_program, exec,
}
use os_course.Fs.{bit_at}
use os_course.Exec.Loads.{stuck, loadseg_terminates}
use os_course.Exec.Clean.{exec_fails_clean, exec_permits}
use os_course.Exec.Starts.{Grows, exec_starts}

-- The state counts the operations of the log that are open.
abbrev kernel : (ℕ → ℕ) → Machine ℕ ℕ
kernel copies = record {
  begin_op = λ w. w + 1;
  end_op = λ w. w - 1;
  namei = λ path w. (some 3, w);
  ilock = λ ip w. w;
  iunlockput = λ ip w. w;
  permissions = λ ip w. pos 448;
  read_header = λ ip w. (some (record { magic = 77; entry = 100; phoff = 64; phnum = 1 }), w);
  read_segment = λ ip off w.
      (some (record { type = 1; flags = 5; off = 4096; vaddr = 0; filesz = 100; memsz = 5000 }), w);
  readi = λ ip pa off n w. (true, w);
  proc_pagetable = λ w. (some 9, w);
  proc_freepagetable = λ pt sz w. w;
  uvmalloc =
      λ pt old new r w. (if leb new (2 ^ 38) then (if ltb new old then old else new) else 0, w);
  uvmclear = λ pt va w. w;
  walkaddr = λ pt va w. 1;
  copyout = λ pt va s w. (true, w);
  copyout_words = λ pt va s w. (leb (length s) (copies w), w);
  elf_magic = 77;
  elf_prog_load = 1;
}

abbrev shell : Image ℕ
shell = record { pagetable = 8; sz = 4096; name = 115 ∷ 104 ∷ []; a1 = 0; epc = 24; sp = 4000 }

abbrev bin_cat : CharList
bin_cat = 47 ∷ 99 ∷ 97 ∷ 116 ∷ []

abbrev words : List CharList
words = (99 ∷ 97 ∷ 116 ∷ []) ∷ (120 ∷ []) ∷ []

abbrev cat : Image ℕ
cat = record {
  pagetable = 9;
  sz = 16384;
  name = 99 ∷ 97 ∷ 116 ∷ [];
  a1 = 16320;
  epc = 100;
  sp = 16320;
}

abbrev roomy : Machine ℕ ℕ
roomy = kernel (λ w. 9)

cat-starts : exec roomy bin_cat words shell 0 ≡ returned (pos 2) cat 0
unfolding exec load_program loadseg_from push_strings lower
cat-starts = refl

cat-fails : exec (kernel (λ w. 0)) bin_cat words shell 0 ≡ returned (negsuc 0) shell 0
unfolding exec load_program loadseg_from push_strings lower
cat-fails = refl

exec_fails_clean_example : shell ≡ shell
exec_fails_clean_example =
    exec_fails_clean (kernel (λ w. 0)) bin_cat words shell 0 0 0 shell cat-fails

exec_permits_example :
    (ip : ℕ) × (v : ℕ) × (roomy.namei bin_cat 1 ≡ (some ip, v))
    × ((pos 448 ≡ pos 0) ⊎ (bit_at 6 (pos 448) ≡ true))
exec_permits_example = exec_permits roomy bin_cat words shell 0 0 2 cat cat-starts

roomy-Grows : Grows roomy bin_cat words shell
roomy-Grows pt old new r w h = ground arith

exec_starts_example :
    (2 ≡ length words)
    × (2 < maxarg)
    × (cat.a1 ≡ cat.sp)
    × (cat.sp % 16 ≡ 0)
    × (cat.sz ≤ cat.sp + pgsize)
    × (cat.sp + (2 + 1) * 8 ≤ cat.sz)
exec_starts_example =
    exec_starts roomy bin_cat words shell (omega arith, (omega arith, tt)) roomy-Grows 0 0 2 cat
      cat-starts

words-pushed : push_strings roomy 9 12288 words 0 16384 [] 1 ≡ pushed 16352 (16368 ∷ 16352 ∷ []) 1
unfolding push_strings lower
words-pushed = refl

loadseg_terminates_example : stuck (loadseg roomy 9 0 3 4096 5000 1) ≡ false
loadseg_terminates_example = loadseg_terminates roomy 9 0 3 4096 5000 1 (omega arith)
