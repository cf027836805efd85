-- ===== src/Core/Ojp.antt =====
-- core/src/ojp.rs: the rows of a departure board.
pub mod Journeys
pub mod Request
pub mod Patterns
pub mod Xml
pub mod Events
use traintime_api.Common.{Bool, Option, Text, ℤ}

pub record FlatDeparture : Type 0 where
  pub to : Text
  pub category : Text
  pub number : Text
  pub departure : ℤ
  pub delay : Option ℤ
  pub platform : Text
  pub platform_changed : Bool
  pub train_number : Option Text
  pub operator_ref : Option Text
