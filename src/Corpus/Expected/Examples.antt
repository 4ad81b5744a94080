-- ===== src/Corpus/Expected/Examples.antt =====
-- The expectations over the committed workload.
