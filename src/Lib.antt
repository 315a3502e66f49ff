-- ===== src/Lib.antt =====
-- fake-ui: the part of the panel that sells subscriptions and meters them, and its tunnels.
--
-- A user orders a plan, pays the order in a crypto currency, and the panel checks the payment on
-- the chain and then creates, renews or replaces the user's subscription. Metering adds the
-- counters of the proxies to the user's used bytes. The Python code keeps payments, orders,
-- plans, methods and users in SQLite tables and hands the users on to Xray and Hysteria2. Tunnels
-- lead public domains to services at home: the panel keeps their catalogue, checks their domains,
-- builds Xray's configuration for them and pairs the agents that serve them.
--
-- The state and the parameters
--   Store           the rows and the state `World` that a request works on, and `Env`, what a
--                   request takes from outside: the clock, random texts, the hash of a password,
--                   the counters of a user, and how the external sync ended.
--   Store.Repository  baseline/repositories/sqlite_*.py: upsert, update and delete by key.
--   Prelude         shared names; Prelude.Action is a state monad with errors, in which a call
--                   that raises keeps what it has written, as the Python code does;
--                   Prelude.Keeps has the rules by which such code preserves a predicate.
--
-- The components
--   Orders          baseline/orders_store.py: record_order, get_order, update_order.
--   Payments        baseline/payments_store.py: create_payment, update_payment, attach_txid,
--                   txid_used; Payments.Txids, Create and Frame hold their theorems.
--   Plans           baseline/plans_store.py: load_plans and get_plan.
--   Users           baseline/user_store.py: activity, flags, quota arithmetic.
--   Admin           baseline/user_admin.py: enforce_users_now, normalize_node_ids; Admin.Create
--                   has create_airport_user, Admin.Actions airport_user_action, Admin.Confirm
--                   renewals, confirm_order and cancel_order; theorems in Admin.Frames, Once, Done
--                   and Returns.
--   Service         baseline/payment_service.py: owned payments, expiry, apply_verification,
--                   refresh_payment, submit_tx_and_verify; Service.Errors is _sanitize_error,
--                   Service.Checkout create_payment_for_order; theorems in Service.Sound,
--                   Effects, Settlement, Done and Once.
--   Verifier        baseline/payment_verifier.py: the verification of a receipt or transaction;
--                   Verifier.Numbers reads numbers from texts; theorems in Sound and Erc20.
--   Scan            baseline/payment_service.py: the scans for a payment without a transaction
--                   id and verify_payment (Scan.Verify); theorems in Scan.Range, Paid,
--                   Groups, Sound and Written.
--   Quota           baseline/quota_collect.py, with nodes_for_user of baseline/node_catalog.py;
--                   theorems in Quota.Growth.
--   Login           baseline/security.py: the limit on failed logins; theorems in Login.Limit.
--   Cache           baseline/cache_store.py: TTLCache; theorems in Cache.Fresh.
--   Catalog         what catalogues of items with ids share: one is found, put and removed by its
--                   id; Catalog.Distinct is about items that differ pairwise, Catalog.View about
--                   the catalogue as a map.
--   Tunnels         baseline/tunnel_catalog.py: a tunnel and the values that others use;
--                   Tunnels.Clean has the functions that check a field, Ports next_portal_port,
--                   Normalize normalize_tunnel and the operations. Theorems: Tunnels.Distinct, with
--                   Sought and Steps for the parts, and Refine for sequences of calls.
--   Tunnels.Portal  baseline/tunnel_config_builder.py: build_portal_config; theorems in Rebuild.
--   Desktops        baseline/desktop_catalog.py: normalize_device and the operations on the
--                   catalogue; Desktops.Clean has clean_id. Theorems in Distinct, Steps and Run.
--   Domains         baseline/tunnel_domains.py: clean_domain, classify_domain, domain_options,
--                   validate_tunnel_domain; theorems in Domains.Accepted.
--   Pairing         baseline/agent_pairing.py: create_pairing, validate_pairing_record,
--                   mark_pairing_used; Pairing.Bootstrap has bootstrap_agent. Theorems in
--                   Pairing.Marked, Once, Own and Atomic.
--   Resets          baseline/password_reset_service.py with baseline/registration_store.py and
--                   baseline/repositories/sqlite_registrations.py: send_code and confirm; theorems
--                   in Resets.Attempts, Users, Confirmed and Counted.
--   Tests           a small panel, and the theorems at concrete inputs.
--
-- Service is the client of all stores and of Admin. It takes what the chain says of a payment as
-- the parameter `Verifier`, which `Scan.Verify.verify_payment` fills; that in turn takes the
-- answers of nodes and explorers as the parameter `Chain`. Service.Checkout takes the rates and
-- the wallet texts of baseline/payment_rates.py and payment_wallets.py as the parameter `Pricing`.
-- Tunnels.Portal builds its part of the configuration from the tunnels of the catalogue. The
-- resolver, the reader of IP addresses, the hashes and the mail server are parameters of Domains,
-- Desktops, Pairing and Resets. Pairing writes in transactions that are rolled back after a raise;
-- Resets does not.
--
-- How the code is read
--   A time is a natural number of seconds and is constant within a request; `none` is an empty
--   time. Texts are ASCII where case matters. Decimal amounts are scaled integers, floats dyadic
--   fractions. A table is an association list by primary key, since no modelled query depends on
--   the order of rows. `save_users` writes the whole table; only the row that changed is written
--   here, which is the same for requests that do not overlap. Ports are natural numbers, so the
--   checks for negative ones do not occur. A block ahead of the tip has no confirmations, where the
--   code reports a negative number. Every collection stores its readings, where the code writes
--   users only after a change, as which the first reading of a node alone does not count.
--
-- Fuel
--   `Payments.fresh_id` draws ids until one is free; one draw more than there are payments is
--   enough for distinct draws. `Scan.Range.fetch_range` halves a range of blocks; one step more
--   than the distance of its ends is enough, since each half is shorter. The fetch in chunks has
--   one step for each block. `Tunnels.Ports.next_free` has a step for each used port and one more,
--   which is enough to find one that is free.
--
-- What is not modelled
--   Credentials of the proxies' protocols, log files, texts that are only shown, the HTTP layer,
--   sessions, registrations, the network of the desktops, the fields of the bridges' configuration,
--   other configuration files, backups and the front end. The timestamps' text form and the
--   retention of traffic samples. SQLite and the network are outside the code.
pub mod Prelude
pub mod Store
pub mod Orders
pub mod Payments
pub mod Plans
pub mod Users
pub mod Admin
pub mod Service
pub mod Verifier
pub mod Scan
pub mod Quota
pub mod Login
pub mod Cache
pub mod Catalog
pub mod Tunnels
pub mod Pairing
pub mod Domains
pub mod Resets
pub mod Desktops
pub mod Tests
