-- ===== src/Managed/Release.antt =====
-- The `Release` of internal/managed/release.go. A byte slice is the list of its bytes.
use geoflow_updater.Prelude.{ℕ, String, List}

abbrev pub Bytes : Type 0
Bytes = List ℕ

pub record Release : Type 0 where
  pub sequence : ℕ  -- uint64
  pub minimum_updater_protocol : ℕ  -- uint64
  pub version : String
  pub source_commit : String
  pub app_image : String
  pub web_image : String
  pub postgres_images : List (String × String)
  pub redis_images : List (String × String)
  pub compose_template : Bytes
  pub version_document : Bytes
  pub upgrade_plan : Bytes
