-- ===== src/Config/Overflow.antt =====
-- A configuration with more rates than the program has room for.
