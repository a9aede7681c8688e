-- ===== src/SessionSecurity/Replay.antt =====
-- backend/services/session_security_service.py: what becomes of the refresh tokens it hands out.
