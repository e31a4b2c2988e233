-- ===== src/Files/LinkTests.antt =====
-- A file system that counts what is held, pages in a list and counted files, for ex5/bonus/sysfile.c.
use os_course.Prelude.{
  ℕ, zero, suc, ◌≡◌, ◌⊎◌, refl, ap, true, false, Option, none, some, List, [], ◌∷◌, ◌++◌, ◌==◌,
  if◌then◌else◌, length, replicate,
}
use os_course.Prelude.Int.{pos}
use os_course.Fs.{Inode, blank}
use os_course.Proc.{nofile}
use os_course.Files.Open.{FileSystem}
use os_course.Files.Links.{Links, sys_link, sys_unlink, sys_mkdir, sys_mknod, sys_chdir}
use os_course.Files.Balance.{Returns, Balanced}
use os_course.Files.Balance.Create.{calls_balanced}
use os_course.Directory.{strncmp_equal}
use os_course.Files.{fetchaddr, in_space}
use os_course.Files.Spawn.{copy_args, free_args, sys_exec, sys_pipe}
use os_course.Files.Spawn.Pages.{Lends, Freed, sys_exec-Freed}
use os_course.Files.Spawn.Pipe.{Counts, Undone, Made, sys_pipe-Ends}

record Taken : Type 0 where
  refs : ℕ
  locked : ℕ
  ops : ℕ

abbrev less : ℕ → ℕ
less zero = zero
less (suc n) = n

abbrev found : {X : Type 0} → X → Taken → Option X × Taken
found x w = (some x, record w { refs = suc w.refs })

abbrev unlocked : Taken → Taken
unlocked w = record w { locked = less w.locked }

abbrev dropped : Taken → Taken
dropped w = record w { refs = less w.refs }

-- Inode 5 is a directory, and the others are files.
abbrev node : ℕ → Inode
node k = record {
  dev = 1;
  inum = k;
  ref = pos 1;
  valid = true;
  content = record blank { type = if k == 5 then pos 1 else pos 2; nlink = pos 1; size = 32 };
}

abbrev counting : FileSystem Taken
counting = record {
  begin_op = λ w. record w { ops = suc w.ops };
  end_op = λ w. record w { ops = less w.ops };
  namei = λ path w. found 7 w;
  create = λ path w. found 7 w;
  ilock = λ k w. record w { locked = suc w.locked };
  iunlock = λ k w. unlocked w;
  iunlockput = λ k w. dropped (unlocked w);
  itrunc = λ k w. w;
  inode = λ k w. node k;
  filealloc = λ w. (none, w);
  fdalloc = λ f w. (none, w);
  fileclose = λ f w. w;
  set_file = λ f file w. w;
  t_dir = pos 1;
  t_file = pos 2;
  t_device = pos 3;
  ndev = pos 10;
  o_create = 9;
  o_trunc = 10;
}

abbrev counting_links : Links Taken
counting_links = record {
  nameiparent = λ path w. found (5, 97 ∷ []) w;
  iput = λ k w. dropped w;
  iupdate = λ k w. w;
  set_content = λ k c w. w;
  dirlookup = λ k name w. found (7, 64) w;
  dirlink = λ k name inum w. (false, w);
  read_entry = λ k off w. (some 0, w);
  clear_entry = λ k off w. (true, w);
  ialloc = λ dev kind w. found 8 w;
}

abbrev Holds : ℕ → ℕ → ℕ → Taken → Type 0
Holds r l o w = w ≡ record { refs = r; locked = l; ops = o }

counting-Balanced : Balanced counting counting_links Holds
counting-Balanced = record {
  begins = λ r l o w h. ap counting.begin_op h;
  ends = λ r l o w h. ap counting.end_op h;
  finds = λ r l o p w h. ap (λ v. (found {X = ℕ} 7 v).1) h;
  finds_parent = λ r l o p w h. ap (λ v. (found {X = ℕ} 7 v).1) h;
  looks_up = λ r l o dp name w h. ap (λ v. (found {X = ℕ} 7 v).1) h;
  allocates = λ r l o dev kind w h. ap (λ v. (found {X = ℕ} 7 v).1) h;
  locks = λ r l o k w h. ap (λ v. counting.ilock k v) h;
  unlocks = λ r l o k w h. ap unlocked h;
  puts = λ r l o k w h. ap dropped h;
  unlocks_puts = λ r l o k w h. ap (λ v. dropped (unlocked v)) h;
  updates = λ r l o k w h. h;
  sets = λ r l o k c w h. h;
  enters = λ r l o k name inum w h. h;
  reads = λ r l o k off w h. h;
  clears = λ r l o k off w h. h;
}

abbrev at_rest : Taken
at_rest = record { refs = 1; locked = 0; ops = 0 }

calls_balanced_example :
    Holds 1 0 0 (sys_link counting counting_links (some (97 ∷ [])) (some (98 ∷ [])) at_rest).1
    × Returns (Holds 1 0 0) (sys_unlink counting counting_links (some (97 ∷ [])) at_rest)
    × Holds 1 0 0 (sys_mkdir counting counting_links (some (97 ∷ [])) at_rest).1
    × Holds 1 0 0 (sys_mknod counting counting_links (some (97 ∷ [])) (pos 1) (pos 2) at_rest).1
    × Holds 1 0 0 (sys_chdir counting counting_links (some (97 ∷ [])) 5 at_rest).2
calls_balanced_example =
    calls_balanced counting counting_links Holds counting-Balanced 0 0 0 (some (97 ∷ []))
      (some (98 ∷ [])) (pos 1) (pos 2) 5 at_rest refl

-- The undone `link`, a removed file and a `chdir` to what is no directory.
removes : sys_unlink counting counting_links (some (97 ∷ [])) at_rest ≡ some (pos 0, at_rest)
unfolding sys_unlink strncmp_equal
removes = refl

-- The pages that are taken are a list; the only argument is at 50.
abbrev words : List ℕ → ℕ → Option ℕ
words pages addr = some (if addr == 0 then 50 else 0)

abbrev take_page : List ℕ → Option ℕ × List ℕ
take_page pages = (some (length pages), pages ++ length pages ∷ [])

abbrev rest_of : List ℕ → List ℕ
rest_of [] = []
rest_of (page ∷ pages) = pages

abbrev IsTaken : List ℕ → List ℕ → Type 0
IsTaken pages w = w ≡ pages

pages-Lends :
    Lends words 100 take_page
      (λ u p w. (true, w))
      (λ p w. rest_of w)
      (λ path argv w. (pos 1, w))
      IsTaken
pages-Lends = record {
  takes = λ pages w h. ap (λ v. v ++ length w ∷ []) h;
  frees = λ page pages w h. ap rest_of h;
  fetches = λ pages u page w h. h;
  runs = λ pages path argv w h. h;
}

sys_exec-Freed_example :
    Freed words 100 take_page
      (λ u p w. (true, w))
      (λ p w. rest_of w)
      (λ path argv w. (pos 1, w))
      IsTaken
      pages-Lends
      (97 ∷ [])
      (sys_exec words 100 take_page
        (λ u p w. (true, w))
        (λ p w. rest_of w)
        (λ path argv w. (pos 1, w))
        (some (97 ∷ []))
        0
        [])
sys_exec-Freed_example =
    sys_exec-Freed words 100 take_page (λ u p w. (true, w)) (λ p w. rest_of w)
      (λ path argv w. (pos 1, w)) IsTaken pages-Lends (97 ∷ []) 0 [] refl

-- One argument, and its page is free again.
exec_runs :
    sys_exec words 100 take_page
      (λ u p w. (true, w))
      (λ p w. rest_of w)
      (λ path argv w. (pos (length argv), w))
      (some (97 ∷ []))
      0
      []
    ≡ (pos 1, [])
unfolding sys_exec copy_args free_args fetchaddr in_space
exec_runs = refl

abbrev pipe_made : ℕ → Option (ℕ × ℕ) × ℕ
pipe_made w = (some (3, 4), suc (suc w))

abbrev IsCount : ℕ → ℕ → Type 0
IsCount n w = w ≡ n

pipes-Counts : Counts pipe_made (λ f w. less w) (λ addr fd w. (fd == 0, w)) IsCount
pipes-Counts = record {
  pipes = λ n w h. ap (λ v. suc (suc v)) h;
  closes = λ n f w h. ap less h;
  tells = λ n addr fd w h. h;
}

abbrev no_files : List (Option ℕ)
no_files = replicate nofile none

-- The second `copyout` fails.
sys_pipe-Ends_example :
    Undone pipe_made
      (λ f w. less w)
      (λ addr fd w. (fd == 0, w))
      IsCount
      0
      no_files
      (sys_pipe pipe_made (λ f w. less w) (λ addr fd w. (fd == 0, w)) 200 no_files 0)
    ⊎ Made pipe_made
        (λ f w. less w)
        (λ addr fd w. (fd == 0, w))
        IsCount
        0
        200
        no_files
        (sys_pipe pipe_made (λ f w. less w) (λ addr fd w. (fd == 0, w)) 200 no_files 0)
sys_pipe-Ends_example =
    sys_pipe-Ends pipe_made (λ f w. less w) (λ addr fd w. (fd == 0, w)) IsCount pipes-Counts 0 200
      no_files 0 refl refl
