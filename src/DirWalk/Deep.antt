-- ===== src/DirWalk/Deep.antt =====
-- `dirwalk` on a directory whose path has the greatest length that fits into `fullpath`.
