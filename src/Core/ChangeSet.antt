-- ===== src/Core/ChangeSet.antt =====
-- core/change_set.py: the change of an object and the result of its verification.
use blender_ai_sidebar.Prelude.{String, List, Option}
use blender_ai_sidebar.Core.Json.{Value, Fields}

pub data VerificationStatus : Type 0 where
  pass fail : VerificationStatus

-- `before` is whatever the tool's result has under that key.
pub record ChangeSet : Type 0 where
  pub operation : String
  pub target_name : String
  pub before : Option Value
  pub expected_after : Fields
  pub actual_after : Fields

-- The dictionaries of `mismatches`.
pub record Mismatch : Type 0 where
  pub property : String
  pub expected : Value
  pub actual : Value
  pub diff : Value

pub record VerificationResult : Type 0 where
  pub status : VerificationStatus
  pub operation : String
  pub target_name : String
  pub mismatches : List Mismatch
  pub summary : String
