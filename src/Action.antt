-- ===== src/Action.antt =====
-- src/action.rs: identifiers, names and groups of actions, and their risk.
pub mod Id
pub mod Names
pub mod Kinds
pub mod Parsing
use tale.Prelude.{String}

pub data Risk : Type 0 where
  observe reversible disruptive destructive_or_secret : Risk

unfoldable pub label : Risk → String
label observe = "observe"
label reversible = "reversible"
label disruptive = "disruptive"
label destructive_or_secret = "destructive or secret"
