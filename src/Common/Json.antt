-- ===== src/Common/Json.antt =====
-- The entries of a parsed JSON object, as nlohmann::json gives them out: contains, at and get_to.
use mathlib.Core.Bool.{Bool}
use mathlib.Core.Option.{Option}
use tjtools.Common.Result.{Result, ok, err}

pub data Field (A : Type 0) : Type 0 where
  missing mistyped : Field A
  value : A → Field A

-- at() and get_to(), which throw.
abbrev pub at : {E A : Type 0} → E → Field A → Result E A
at e (value a) = ok a
at e _ = err e

-- The same behind contains(): what is missing keeps its value.
abbrev pub at_or : {E A : Type 0} → E → A → Field A → Result E A
at_or e a missing = ok a
at_or e a field = at e field

-- A configuration file: what it is, and its content if that is JSON.
pub record ConfigFile (R : Type 0) : Type 0 where
  pub is_regular_file : Bool
  pub good : Bool
  pub content : Option R
