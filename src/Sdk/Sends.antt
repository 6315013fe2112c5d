-- ===== src/Sdk/Sends.antt =====
-- What `send` of src/tename/sdk/sessions.py yields.
