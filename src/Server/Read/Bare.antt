-- ===== src/Server/Read/Bare.antt =====
-- A command that comes without a count of parameters, and which of them ends the process:
-- `command_GET` reads its parameter through NULL.
use ketamarouter.Base.{◌∷◌, Bytes}
use ketamarouter.Session.{Session, Command}

-- The line of a command without parameters.
abbrev pub bare : Bytes → Bytes
bare name = b'+' ∷ name
