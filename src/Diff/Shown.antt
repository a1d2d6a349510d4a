-- ===== src/Diff/Shown.antt =====
-- agent/diff.py, `build_change_set`: which files a reviewer is shown.
