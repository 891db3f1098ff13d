-- ===== src/Quota/Types.antt =====
-- The rows that the AIU quota code reads and writes (packages/db, apps/api/src/runtime).
-- Identifiers and texts that are only compared are numbers; an instant is in milliseconds.
use token_pilot.Base.{ℕ, Bool, true, false, Option, List, ◌&&◌, ◌==◌}
use token_pilot.Base.Int.{ℤ}

pub data PeriodType : Type 0 where
  calendar_day calendar_week calendar_month fixed_window lifetime unknown : PeriodType

abbrev pub period_rank : PeriodType → ℕ
period_rank calendar_day = 0
period_rank calendar_week = 1
period_rank calendar_month = 2
period_rank fixed_window = 3
period_rank lifetime = 4
period_rank unknown = 5

abbrev pub same_period : PeriodType → PeriodType → Bool
same_period a b = period_rank a == period_rank b

-- `AiuReservationStatus`
pub data Status : Type 0 where
  reserved settled released expired unknown_status : Status

abbrev pub is_reserved : Status → Bool
is_reserved reserved = true
is_reserved _ = false

abbrev pub is_settled : Status → Bool
is_settled settled = true
is_settled _ = false

pub record User : Type 0 where
  pub id : ℕ
  pub application_id : ℕ
  pub external_id : ℕ
  pub blocked : Bool

pub record Quota : Type 0 where
  pub id : ℕ
  pub application_id : ℕ
  pub user_id : ℕ
  pub policy_id : Option ℕ
  pub period_type : PeriodType
  pub period_start : ℕ
  pub period_end : Option ℕ
  pub limit : ℤ
  pub consumed : ℤ
  pub reserved : ℤ
  pub hard_limit : Bool
  pub enabled : Bool
  pub lock_version : ℕ

pub record Reservation : Type 0 where
  pub id : ℕ
  pub application_id : ℕ
  pub user_id : ℕ
  pub quota_id : ℕ
  pub operation_id : ℕ
  pub virtual_model : ℕ
  pub candidate_model_ids : List ℕ
  pub estimated : ℤ
  pub reserved : ℤ
  pub settled : ℤ
  pub token_hash : ℕ
  pub status : Status
  pub expires_at : ℕ
  pub settled_at : Option ℕ
  pub released_at : Option ℕ
  pub lock_version : ℕ

-- `AiuLedgerEntryType`
pub data EntryType : Type 0 where
  grant reserve consume settlement_delta reservation_release expire adjustment : EntryType

-- The texts of `idempotencyKey`: the template, and what is put into it.
pub data KeyKind : Type 0 where
  reservation_reserve reservation_settle reservation_released reservation_expire : KeyKind
  usage_consume usage_settle usage_reconcile : KeyKind
  quota_period policy_change policy_none quota_setting quota_reset : KeyKind

abbrev pub key_rank : KeyKind → ℕ
key_rank reservation_reserve = 0
key_rank reservation_settle = 1
key_rank reservation_released = 2
key_rank reservation_expire = 3
key_rank usage_consume = 4
key_rank usage_settle = 5
key_rank usage_reconcile = 6
key_rank quota_period = 7
key_rank policy_change = 8
key_rank policy_none = 9
key_rank quota_setting = 10
key_rank quota_reset = 11

pub record Key : Type 0 where
  pub kind : KeyKind
  pub subject : ℕ
  pub detail : ℕ
  pub nonce : ℕ

abbrev pub same_key : Key → Key → Bool
same_key a b =
    key_rank a.kind == key_rank b.kind
    && (a.subject == b.subject && (a.detail == b.detail && a.nonce == b.nonce))

pub record Entry : Type 0 where
  pub application_id : ℕ
  pub user_id : ℕ
  pub quota_id : ℕ
  pub entry_type : EntryType
  pub consumed_delta : ℤ
  pub reserved_delta : ℤ
  pub consumed_after : ℤ
  pub reserved_after : ℤ
  pub limit_after : ℤ
  pub source_event_id : Option ℕ
  pub source_reservation_id : Option ℕ
  pub key : Key

-- What one serializable transaction sees. The quota table is keyed by `id`, and `quota_of` is its
-- unique index on the user; the rows of the other two tables are in the order of insertion.
pub record Store : Type 0 where
  pub users : List User
  pub quotas : ℕ → Option Quota
  pub quota_of : ℕ → Option ℕ
  pub reservations : List Reservation
  pub ledger : List Entry
