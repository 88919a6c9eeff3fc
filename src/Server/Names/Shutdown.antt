-- ===== src/Server/Names/Shutdown.antt =====
-- Closing the server, in any state that it reaches.
use go_cfc.Server.Handlers.Dispatch.{Reach}
use go_cfc.Server.Names.Invariant.{Table}
