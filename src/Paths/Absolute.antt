-- ===== src/Paths/Absolute.antt =====
-- Absolute targets under a root.
use kratos_harness.Common.{List, split, [], ◌++◌, Text, codes, ◌==◌, nat_eq, text_eq, if◌then◌else◌}
use kratos_harness.Paths.Canonicalize.{onto, walk_absolute}

-- A root with one separator behind it
abbrev pub under : Text → Text
under root = if root == codes "/" then codes "/" else root ++ codes "/"

-- The segments of an absolute target
absolute_segments : Text → List Text
absolute_segments target = onto (walk_absolute (split b'/' target) []) []
