-- ===== src/Tests/DesktopExamples.antt =====
-- A device that is put into the catalogue and switched off.
use fake_ui.Prelude.{
  is_empty, Bool, true, String, false, Option, none, some, List, [], ◌∷◌, str_eq, if◌then◌else◌,
  ◌≡◌, refl, arith,
}
use fake_ui.Desktops.{Device, DeviceRequest}
use fake_ui.Desktops.Distinct.{IsSeparate}
use fake_ui.Desktops.Steps.{GivesText}
use fake_ui.Desktops.Run.{DeviceCall, upsert_one, enable_one, run_calls, run_calls-IsSeparate}

-- A reader of addresses that knows one.
abbrev one_address : String → Option String
one_address raw = if str_eq raw "10.77.0.2" then some "10.77.0.2" else none

known : (a b : String) → some a ≡ some b → is_empty a ≡ false → is_empty b ≡ false
known a b e h = cc

unknown : (ip : String) → ◌≡◌ {A = Option String} none (some ip) → ⊥
unknown ip e = cc

answer-given :
    (b : Bool) (ip : String)
    → (if b then some "10.77.0.2" else none) ≡ some ip
    → is_empty ip ≡ false
answer-given true ip e = known "10.77.0.2" ip e refl
answer-given false ip e = absurd (unknown ip e)

one_address-GivesText : GivesText one_address
one_address-GivesText raw ip e = answer-given (str_eq raw "10.77.0.2") ip e

abbrev mac : DeviceRequest
mac = record {
  id = some "MacBook 控制端";
  name = none;
  enabled = none;
  role = some "controller";
  platform = none;
  desktop_protocol = none;
  desktop_port = none;
  wg_ip = some "10.77.0.2/32";
  wg_private_key = none;
  wg_public_key = none;
  wg_preshared_key = none;
  hysteria_user = some "desktop:mac";
  hysteria_password = none;
  listen_host = none;
  listen_port = none;
  remote_host = none;
  remote_port = none;
}

abbrev calls : List DeviceCall
calls = upsert_one 1000 "pw" mac ∷ enable_one 1001 "macbook" false ∷ []

no_devices-IsSeparate : IsSeparate []
no_devices-IsSeparate = record { apart = tt; proper = tt }

run_calls-IsSeparate_example : IsSeparate (run_calls one_address calls [])
run_calls-IsSeparate_example =
    run_calls-IsSeparate one_address calls [] one_address-GivesText no_devices-IsSeparate

abbrev users : List Device → List String
users [] = []
users (d ∷ rest) = d.hysteria_user ∷ users rest

users_test : users (run_calls one_address calls []) ≡ "desktop-mac" ∷ []
unfolding run_calls fake_ui.Desktops.set_device_enabled fake_ui.Desktops.upsert_device
    fake_ui.Prelude.Action.◌>>=◌ fake_ui.Prelude.Action.lift fake_ui.Desktops.device_id_of
    fake_ui.Desktops.clean_role fake_ui.Desktops.clean_platform fake_ui.Desktops.clean_protocol
    fake_ui.Desktops.clean_wg_ip fake_ui.Desktops.clean_hysteria_user fake_ui.Desktops.check_device
    fake_ui.Desktops.used_by_devices fake_ui.Desktops.check_ports fake_ui.Desktops.device_of
users_test = refl
