-- ===== src/Updates/Order.antt =====
-- ddb/feature/core/actions.py, `CheckRequiredVersion`: a newer ddb is good for what an older one is.
