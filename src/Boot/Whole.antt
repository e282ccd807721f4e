-- ===== src/Boot/Whole.antt =====
-- src/config.rs and src/main.rs: a server that is started from a configuration file, and its replies.
use bare_server.Site.{Site}
use bare_server.Config.{Config}
