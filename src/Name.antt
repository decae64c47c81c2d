-- ===== src/Name.antt =====
-- src/services/name: the CORBA naming service, as text (name-support.c) and as a server
-- (orbit-name-server.c).
pub mod Text
pub mod Server
mod Tests
use orbit.Base.{ℕ, List}

-- `CosNaming_NameComponent`, its texts without the final 0.
pub record Component : Type 0 where
  pub id : List ℕ
  pub kind : List ℕ

-- `CosNaming_Name`
abbrev pub Name : Type 0
Name = List Component
