-- ===== src/Desktops/Run.antt =====
-- Any sequence of calls of baseline/desktop_catalog.py keeps the devices apart.
use fake_ui.Prelude.{
  ℕ, String, Bool, Option, none, some, List, [], ◌∷◌, ◌≢◌, Option-cases, inl, inr,
}
use mathlib.Core.Path.{subst}
use fake_ui.Prelude.Action.{lift}
use fake_ui.Prelude.Keeps.{Keeps-lift, Keeps-bind}
use fake_ui.Catalog.{find_item, put_item}
use fake_ui.Catalog.Distinct.{
  All-map, All-put_item, put_item-Pairwise, All-remove_item, remove_item-Pairwise, find_item-id,
  find_item-All, find_item-Fits,
}
use fake_ui.Desktops.Clean.{clean_device_id}
use fake_ui.Desktops.{
  Device, DeviceRequest, device_id, upsert_device, removed_device, delete_device, switched_device,
  set_device_enabled,
}
use fake_ui.Desktops.Distinct.{Separate, IsProper, IsSeparate, separate-Differ}
use fake_ui.Desktops.Steps.{GivesText, upsert_device-IsSeparate}

removed_device-keeps :
    (id : String) (found : Option Device) (devices : List Device)
    → IsSeparate devices
    → IsSeparate (removed_device id found devices).1
removed_device-keeps id none devices h = h
removed_device-keeps id (some d) devices h = record {
  apart = remove_item-Pairwise device_id id Separate devices h.apart;
  proper = All-remove_item device_id id IsProper devices h.proper;
}

delete_device-IsSeparate :
    (value : String) (devices : List Device)
    → IsSeparate devices
    → IsSeparate (delete_device value devices).1
unfolding delete_device
delete_device-IsSeparate value devices h =
    (Keeps-bind {P = IsSeparate} (lift (clean_device_id value))
        (λ id ds. removed_device id (find_item device_id id ds) ds)
        (Keeps-lift (clean_device_id value))
        (λ id. record {
          at = λ ds kept. removed_device-keeps id (find_item device_id id ds) ds kept;
        })).at
      devices h

switched_device-keeps :
    (id : String) (enabled : Bool) (now : ℕ) (devices : List Device)
    → IsSeparate devices
    → IsSeparate (switched_device id enabled now (find_item device_id id devices) devices).1
switched_device-keeps id enabled now devices h =
    elim (Option-cases (find_item device_id id devices)) [
      | inl missing ↦ rw missing h
      | inr (d, found) ↦
          let d' : Device = record d { enabled = enabled; updated_at = now } in
          let p = find_item-All device_id IsProper id devices d h.proper found in
          let proper' : IsProper d' = record {
            id = p.id;
            named = p.named;
            wg_ip = p.wg_ip;
            user = p.user;
            ports = record {
              desktop = p.ports.desktop;
              listen = p.ports.listen;
              remote = p.ports.remote;
            };
          } in
          let fits =
            All-map {Q = λ x. device_id x ≢ d.id → Separate d' x}
              (λ x fit ne.
                let a = fit ne in
                record { ids = a.ids; wg_ips = a.wg_ips; users = a.users; keys = a.keys })
              devices
              (find_item-Fits device_id Separate separate-Differ id devices d h.apart found) in
          rw found (
            subst (λ key. IsSeparate (put_item device_id key d' devices))
              (find_item-id device_id id devices d found)
              (record {
                apart =
                    put_item-Pairwise device_id Separate separate-Differ d' devices fits h.apart;
                proper =
                    All-put_item device_id Separate separate-Differ d' IsProper devices proper'
                      h.proper;
              }))
    ]

set_device_enabled-IsSeparate :
    (now : ℕ) (value : String) (enabled : Bool) (devices : List Device)
    → IsSeparate devices
    → IsSeparate (set_device_enabled now value enabled devices).1
unfolding set_device_enabled
set_device_enabled-IsSeparate now value enabled [] h = h
set_device_enabled-IsSeparate now value enabled (d ∷ rest) h =
    (Keeps-bind {P = IsSeparate} (lift (clean_device_id value))
        (λ id ds. switched_device id enabled now (find_item device_id id ds) ds)
        (Keeps-lift (clean_device_id value))
        (λ id. record { at = λ ds kept. switched_device-keeps id enabled now ds kept })).at
      (d ∷ rest) h

-- A call of the catalogue, with what the clock and the random source give it.
pub data DeviceCall : Type 0 where
  upsert_one : ℕ → String → DeviceRequest → DeviceCall
  delete_one : String → DeviceCall
  enable_one : ℕ → String → Bool → DeviceCall

module _ (ip_address : String → Option String) where
  unfoldable pub run_calls : List DeviceCall → List Device → List Device
  run_calls [] devices = devices
  run_calls (upsert_one now drawn r ∷ calls) devices =
      run_calls calls (upsert_device ip_address now drawn r devices).1
  run_calls (delete_one value ∷ calls) devices = run_calls calls (delete_device value devices).1
  run_calls (enable_one now value enabled ∷ calls) devices =
      run_calls calls (set_device_enabled now value enabled devices).1

  -- Any sequence of calls leads from a catalogue of devices that share no id, no WireGuard
  -- address, no user and no given public key, and whose ports fit into sixteen bits, with
  -- WireGuard's not 0, to such a catalogue, however the calls end, if the text of an address is
  -- never empty.
  pub run_calls-IsSeparate :
      (calls : List DeviceCall) (devices : List Device)
      → GivesText ip_address
      → IsSeparate devices
      → IsSeparate (run_calls calls devices)
  unfolding run_calls
  run_calls-IsSeparate [] devices text h = h
  run_calls-IsSeparate (upsert_one now drawn r ∷ calls) devices text h =
      run_calls-IsSeparate calls (upsert_device ip_address now drawn r devices).1 text
        (upsert_device-IsSeparate ip_address text now drawn r devices h)
  run_calls-IsSeparate (delete_one value ∷ calls) devices text h =
      run_calls-IsSeparate calls (delete_device value devices).1 text
        (delete_device-IsSeparate value devices h)
  run_calls-IsSeparate (enable_one now value enabled ∷ calls) devices text h =
      run_calls-IsSeparate calls (set_device_enabled now value enabled devices).1 text
        (set_device_enabled-IsSeparate now value enabled devices h)
