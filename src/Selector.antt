-- ===== src/Selector.antt =====
-- harness/src/select.rs: the selector grammar `<entrant>[:<variant>][@<image>]` and its expansion
-- against the loaded entrants. The proofs are in the modules below.
pub mod Split
pub mod Parse
pub mod Expand
use spate_benchmark.Prelude.{Text, Option}

pub record Selector : Type 0 where
  pub entrant : Text
  pub variant : Text
  pub image : Option Text
