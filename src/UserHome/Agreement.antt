-- ===== src/UserHome/Agreement.antt =====
-- src/synology_mcp/user_home.py: what the three signals decide.
use synology_mcp.Platform.{Platform}
