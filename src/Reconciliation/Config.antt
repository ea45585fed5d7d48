-- ===== src/Reconciliation/Config.antt =====
-- backend/src/reconcileflow/reconciliation/config.py. A Decimal is an integer of small units; the
-- tests for `bool` and for `Decimal` are met by the types.
use reconcileflow_ai.Prelude.{ℕ, if◌then◌else◌, ◌&&◌, not}
use reconcileflow_ai.Prelude.Int.{ℤ, pos, pos_part, leb_ℤ, ltb_ℤ}

pub record ReconciliationConfig : Type 0 where
  pub amount_tolerance : ℤ
  pub date_tolerance_days : ℕ
  pub maximum_group_size : ℕ

pub data ConfigError : Type 0 where
  negative_amount_tolerance negative_date_tolerance group_size_out_of_range : ConfigError

pub data Configured : Type 0 where
  ok : ReconciliationConfig → Configured
  err : ConfigError → Configured

-- The constructor with its checks, in the order of `__post_init__`.
unfoldable pub configure : ℤ → ℤ → ℤ → Configured
configure tolerance days size =
    if ltb_ℤ tolerance (pos 0)
    then err negative_amount_tolerance
    else if ltb_ℤ days (pos 0)
    then err negative_date_tolerance
    else if not (leb_ℤ (pos 2) size && leb_ℤ size (pos 10))
    then err group_size_out_of_range
    else ok (record {
      amount_tolerance = tolerance;
      date_tolerance_days = pos_part days;
      maximum_group_size = pos_part size;
    })
