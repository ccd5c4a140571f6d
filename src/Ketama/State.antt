-- ===== src/Ketama/State.antt =====
-- The types of src/ketama.h and `Ketama_new`. A pointer that may be NULL is an `Option`; memory of
-- `malloc` that nothing has been written to holds `none`.
use ketamarouter.Base.{ℕ, List, Option, none, Bytes}

-- `mcs`: a point on the circle and the server that owns it.
pub record Mcs : Type 0 where
  pub point : ℕ
  pub ordinal : ℕ

pub record ServerInfo : Type 0 where
  pub addr : Bytes
  pub memory : ℕ

-- `continuum` holds the cells that were written, of which there are `numpoints`.
pub record Ketama : Type 0 where
  pub numpoints : ℕ
  pub numservers : ℕ
  pub maxservers : ℕ
  pub memory : ℕ
  pub continuum : Option (List Mcs)
  pub servers : Option (List (Option ServerInfo))

abbrev pub addr_size : ℕ
addr_size = 255

unfoldable pub ketama_new : Ketama
ketama_new = record {
  numpoints = 0;
  numservers = 0;
  maxservers = 0;
  memory = 0;
  continuum = none;
  servers = none;
}
