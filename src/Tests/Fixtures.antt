-- ===== src/Tests/Fixtures.antt =====
-- A small panel: one user with one plan, one pending order, and the order's payment.
use fake_ui.Prelude.{true, false, none, some, [], refl, pos, Decimal}
use fake_ui.Prelude.Table.{lookup, insert}
use fake_ui.Prelude.Text.{strip}
use fake_ui.Prelude.Result.{ok}
use fake_ui.Store.{Payment, Status, Order, OrderStatus, Method, Plan, Counters, User, World, Env}
use fake_ui.Store.Repository.{IsKeyed, insert-IsKeyed}
use fake_ui.Orders.{order_row}
use fake_ui.Payments.Txids.{IsValid, insert-IsValid}
use fake_ui.Service.{Verification, Verifier}
use fake_ui.Service.Sound.{IsSound}

abbrev pub amount : Decimal
amount = record { negative = false; coefficient = 9; places = 0 }

abbrev pub payment : Payment
payment = record {
  id = "pay";
  order_id = "ord";
  username = "ann";
  method_id = "usdt";
  status = Status.awaiting_payment;
  asset = "USDT";
  chain = "polygon";
  txid = "";
  usd_amount = "9";
  crypto_amount = some amount;
  rate_usd = "1";
  address = "0xabc";
  qr_payload = "";
  detected_amount = none;
  confirmations = 0;
  error = "";
  created_at = some 1000;
  updated_at = none;
  expires_at = some 5000;
  verified_at = none;
  ambiguous_at = none;
}

abbrev pub order : Order
order = record {
  id = "ord";
  username = "ann";
  kind = "extend";
  plan_id = "month";
  amount = "9";
  status = OrderStatus.pending;
  note = "";
  operator = "ann";
  payment_id = "pay";
  payment_status = some Status.awaiting_payment;
  created_at = some 1000;
  updated_at = none;
  cancelled_at = none;
  cancelled_by = "";
  confirmed_at = none;
  confirmed_by = "";
  recovered_at = none;
}

abbrev pub no_traffic : Counters
no_traffic = record { up = 0; down = 0 }

abbrev pub user : User
user = record {
  username = "ann";
  enabled = true;
  panel_password = "";
  sub_token = "token";
  expires_at = some 2000;
  note = "";
  plan_id = "month";
  node_groups = [];
  node_ids = [];
  quota_bytes = 0;
  used_bytes = 0;
  quota_exceeded = false;
  expired = false;
  last_xray_stats = no_traffic;
  last_hy2_stats = no_traffic;
  last_node_stats = [];
  hy2_username = "ann";
}

abbrev pub method : Method
method = record {
  id = "usdt";
  asset = "USDT";
  chain = "polygon";
  address = "0xabc";
  token_contract = "0xdef";
  decimals = 6;
  confirmations_required = 3;
  scan_block_lookback = 100;
  enabled = true;
}

abbrev pub plan : Plan
plan = record {
  id = "month";
  days = pos 30;
  traffic_gb = record { negative = false; mantissa = 100; shift = 0 };
  price = "9";
  node_groups = [];
}

abbrev pub world : World
world = record {
  payments = insert "pay" payment [];
  orders = insert "ord" order [];
  methods = insert "usdt" method [];
  plans = insert "month" plan [];
  users = insert "ann" user [];
  audit = [];
}

abbrev pub env : Env
env = record {
  now = 3000;
  order_id = "ord2";
  token = "token2";
  password = "secret";
  hash = λ s. s;
  node_catalog = [];
  xray_stats = λ name. no_traffic;
  hy2_stats = λ name. no_traffic;
  sync_failure = none;
}

-- What the chain says of the payment.
abbrev pub confirmation : Verification
confirmation = record {
  status = Status.confirmed;
  detected_amount = some amount;
  confirmations = 3;
  error = "";
  txid = "0xAA";
}

abbrev pub detection : Verification
detection = record confirmation { status = Status.detected; confirmations = 1 }

abbrev pub verify : Verifier
verify payments p m = ok confirmation

pub payments-IsValid : IsValid world.payments
unfolding strip lookup
payments-IsValid =
    insert-IsValid "pay" payment []
      (record { keyed = λ k p e. absurd cc; unique = λ j k p q ne e f n. absurd cc })
      (refl, refl, refl) (λ j q ne e n. absurd cc)

pub orders-IsKeyed : IsKeyed order_row world.orders
unfolding strip lookup
orders-IsKeyed =
    insert-IsKeyed order_row [] "ord" order (record { at = λ k v e. absurd cc }) (refl, refl, refl)

pub world-IsSound : IsSound world
world-IsSound = record { payments = payments-IsValid; orders = orders-IsKeyed }
