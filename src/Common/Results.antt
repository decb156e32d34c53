-- ===== src/Common/Results.antt =====
-- `Result` and `unwrap`, and a value that a method returns beside its receiver.
pub data Result (A E : Type 0) : Type 0 where
  ok : A → Result A E
  err : E → Result A E
