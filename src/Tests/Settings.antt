-- ===== src/Tests/Settings.antt =====
-- Runs of the settings, the media types and the deadlines, and their theorems applied.
use bare_server.Base.{none, List, [], ◌∷◌, codes}
use bare_server.Settings.{default_headers, HeaderConfig}
use bare_server.Deadline.{DeadlineIo}
use bare_server.Deadline.Rate.{Write}

abbrev with_policy : HeaderConfig
with_policy = record default_headers { csp = codes "default-src 'self'" }

abbrev fresh : DeadlineIo
fresh = record { idle = 30; window = 0; moved = 0; deadline = none; phase = none }

abbrev slow : List Write
slow = record { now = 1; taken = 2000 } ∷ record { now = 31; taken = 10 } ∷ []
