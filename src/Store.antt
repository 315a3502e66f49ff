-- ===== src/Store.antt =====
-- The rows of the SQLite tables, and the state that a request works on.
--   baseline/orders_store.py, baseline/payments_store.py, baseline/plans_store.py,
--   baseline/user_store.py and baseline/repositories/
-- A row is a record with the fields that the modelled code reads or writes. A time is a number
-- of seconds, `none` for an empty text; the text form of times (`isoformat`) is not modelled.
pub mod Repository
use fake_ui.Prelude.{ℕ, Bool, String, List, Option, ℤ, Decimal, Float}
use fake_ui.Prelude.Table.{Table}

-- payment["status"]
pub data Status : Type 0 where
  awaiting_payment detected confirmed failed expired ambiguous : Status

pub record Payment : Type 0 where
  pub id : String
  pub order_id : String
  pub username : String
  pub method_id : String
  pub status : Status
  pub asset : String
  pub chain : String
  pub txid : String
  pub usd_amount : String
  pub crypto_amount : Option Decimal
  pub rate_usd : String
  pub address : String
  pub qr_payload : String
  pub detected_amount : Option Decimal
  pub confirmations : ℕ
  pub error : String
  pub created_at : Option ℕ
  pub updated_at : Option ℕ
  pub expires_at : Option ℕ
  pub verified_at : Option ℕ
  pub ambiguous_at : Option ℕ

-- order["status"]
pub data OrderStatus : Type 0 where
  pending completed cancelled : OrderStatus

pub record Order : Type 0 where
  pub id : String
  pub username : String
  pub kind : String
  pub plan_id : String
  pub amount : String
  pub status : OrderStatus
  pub note : String
  pub operator : String
  pub payment_id : String
  pub payment_status : Option Status
  pub created_at : Option ℕ
  pub updated_at : Option ℕ
  pub cancelled_at : Option ℕ
  pub cancelled_by : String
  pub confirmed_at : Option ℕ
  pub confirmed_by : String
  pub recovered_at : Option ℕ

pub record Method : Type 0 where
  pub id : String
  pub asset : String
  pub chain : String
  pub address : String
  pub token_contract : String
  pub decimals : ℕ
  pub confirmations_required : ℕ
  pub scan_block_lookback : ℕ
  pub enabled : Bool

pub record Plan : Type 0 where
  pub id : String
  pub days : ℤ
  pub traffic_gb : Float
  -- the text of `float(price)`
  pub price : String
  pub node_groups : List String

-- last_xray_stats and last_node_stats (uplink, downlink), and last_hy2_stats (tx, rx)
pub record Counters : Type 0 where
  pub up : ℕ
  pub down : ℕ

pub record User : Type 0 where
  pub username : String
  pub enabled : Bool
  pub panel_password : String
  pub sub_token : String
  pub expires_at : Option ℕ
  pub note : String
  pub plan_id : String
  pub node_groups : List String
  pub node_ids : List String
  pub quota_bytes : ℕ
  pub used_bytes : ℕ
  pub quota_exceeded : Bool
  pub expired : Bool
  pub last_xray_stats : Counters
  pub last_hy2_stats : Counters
  -- by "xray:" and the id of a node; a node that was never read is missing
  pub last_node_stats : Table Counters
  pub hy2_username : String

-- audit_log.write(operator, action, target, ...)
pub record AuditEntry : Type 0 where
  pub operator : String
  pub action : String
  pub target : String

pub record World : Type 0 where
  pub payments : Table Payment
  pub orders : Table Order
  pub methods : Table Method
  pub plans : Table Plan
  pub users : Table User
  pub audit : List AuditEntry

-- What a request takes from outside: the clock, the random texts that it draws, the hash
-- of a password, the catalogue of
-- node ids, the traffic counters of a user, and how the command that hands the users on to Xray
-- and Hysteria2 ended (`none`, or its output).
pub record Env : Type 0 where
  pub now : ℕ
  pub order_id : String
  pub token : String
  pub password : String
  pub hash : String → String
  pub node_catalog : List String
  pub xray_stats : String → Counters
  pub hy2_stats : String → Counters
  pub sync_failure : Option String
