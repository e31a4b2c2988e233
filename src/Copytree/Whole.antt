-- ===== src/Copytree/Whole.antt =====
-- The copy that ex5/copytree.c makes of a whole tree.
use os_course.Prelude.{List}
use os_course.Copytree.Tree.{Entries}
