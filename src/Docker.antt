-- ===== src/Docker.antt =====
-- The logs of containers: core/docker_mcp/log_decode.py.
pub mod Logs
pub mod Frames
