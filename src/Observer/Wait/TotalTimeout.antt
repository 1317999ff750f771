-- ===== src/Observer/Wait/TotalTimeout.antt =====
-- What the total timeout of `_wait_for_entity` does.
