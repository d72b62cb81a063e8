-- ===== src/Ide/Tests.antt =====
-- Runs of the request queue at concrete inputs.
use wei_os.Ide.{Request}

abbrev block_9 : Request
block_9 = record { blockno = 9; buf = 1 }

abbrev block_5 : Request
block_5 = record { blockno = 5; buf = 2 }
