-- ===== src/Desktops.antt =====
-- baseline/desktop_catalog.py: the catalogue of devices that are reached by remote desktop. A request
-- names the fields that it gives; ports are natural numbers. What `ipaddress.ip_address` makes of a
-- text is a parameter (none for a ValueError); the clock and the drawn password are arguments.
pub mod Clean
pub mod Distinct
pub mod Steps
pub mod Run
use fake_ui.Prelude.{
  ℕ, String, Bool, true, false, not, ◌&&◌, ◌||◌, ◌==◌, ltb, Option, none, some, List, [], ◌∷◌, any,
  if◌then◌else◌, is_empty, str_eq,
}
use Prim.Native.String
use fake_ui.Prelude.Text.{strip, lower, starts_with, drop}
use fake_ui.Prelude.Clean.{split_on, any_char}
use fake_ui.Prelude.Result.{Result, ok, err, raise_if, or_raise, ◌>>=◌, ◌>>◌}
use fake_ui.Prelude.Action.{Action, lift}
use fake_ui.Prelude.Action
use fake_ui.Catalog.{find_item, put_item, remove_item, column}
use fake_ui.Tunnels.Clean.{one_of, or_default}
use fake_ui.Tunnels.Normalize.{or_text, or_port, text_of}
use fake_ui.Desktops.Clean.{clean_device_id}

pub record Device : Type 0 where
  pub id : String
  pub name : String
  pub enabled : Bool
  pub role : String
  pub platform : String
  pub desktop_protocol : String
  pub desktop_port : ℕ
  pub wg_ip : String
  pub wg_cidr : String
  pub wg_private_key : String
  pub wg_public_key : String
  pub wg_preshared_key : String
  pub hysteria_user : String
  pub hysteria_password : String
  pub listen_host : String
  pub listen_port : ℕ
  pub remote_host : String
  pub remote_port : ℕ
  pub connection_target : String
  pub created_at : ℕ
  pub updated_at : ℕ

-- The `data` of a request; `none` for a key that it does not have.
pub record DeviceRequest : Type 0 where
  pub id : Option String
  pub name : Option String
  pub enabled : Option Bool
  pub role : Option String
  pub platform : Option String
  pub desktop_protocol : Option String
  pub desktop_port : Option ℕ
  pub wg_ip : Option String
  pub wg_private_key : Option String
  pub wg_public_key : Option String
  pub wg_preshared_key : Option String
  pub hysteria_user : Option String
  pub hysteria_password : Option String
  pub listen_host : Option String
  pub listen_port : Option ℕ
  pub remote_host : Option String
  pub remote_port : Option ℕ

abbrev pub device_id : Device → String
device_id d = d.id

-- `data.get(key, existing.get(key, default))`
abbrev pub asked {ℓ} : {A : Type ℓ} → Option A → Option Device → (Device → A) → A → A
asked (some a) existing field default = a
asked none (some d) field default = field d
asked none none field default = default

unfoldable pub clean_role : String → Result String
unfolding strip lower
clean_role value =
    one_of ("controller" ∷ "host" ∷ "both" ∷ []) "desktop role is invalid"
      (lower (or_default value "host"))

unfoldable pub clean_platform : String → Result String
unfolding strip lower
clean_platform value =
    one_of ("macos" ∷ "linux" ∷ "windows" ∷ []) "desktop platform is invalid"
      (lower (or_default value "macos"))

unfoldable pub clean_protocol : String → Result String
unfolding strip lower
clean_protocol value =
    one_of ("sunshine" ∷ "rdp" ∷ "vnc" ∷ "rustdesk" ∷ "ssh" ∷ "custom" ∷ [])
      "desktop protocol is invalid" (lower (or_default value "sunshine"))

-- PROTOCOL_PORTS
abbrev pub protocol_port : String → ℕ
protocol_port protocol =
    if str_eq protocol "sunshine"
    then 47984
    else if str_eq protocol "rdp"
    then 3389
    else if str_eq protocol "vnc"
    then 5900
    else if str_eq protocol "rustdesk"
    then 21115
    else if str_eq protocol "ssh"
    then 22
    else 0

abbrev pub dashed : String → String
dashed user = if starts_with user "desktop:" then String.◌++◌ "desktop-" (drop 8 user) else user

unfoldable pub clean_hysteria_user : String → String → Result String
unfolding strip
clean_hysteria_user value id =
    let user = strip value in
    let renamed = dashed user in
    if is_empty user
    then ok (String.◌++◌ "desktop-" id)
    else if not (starts_with renamed "desktop-") || any_char (λ c. c == 58) renamed
    then err "desktop Hysteria2 user must start with desktop- and cannot contain colon"
    else ok renamed

abbrev pub head_part : List String → String
head_part [] = ""
head_part (s ∷ rest) = s

-- The sets of `used_values`, without the item `exclude_id`.
pub record UsedByDevices : Type 0 where
  pub ids : List String
  pub wg_ips : List String
  pub hysteria_users : List String
  pub wg_public_keys : List String

unfoldable pub used_by_devices : List Device → String → UsedByDevices
unfolding column
used_by_devices devices exclude_id = record {
  ids = column device_id (λ d. not (is_empty d.id)) device_id exclude_id devices;
  wg_ips = column device_id (λ d. not (is_empty d.wg_ip)) (λ d. d.wg_ip) exclude_id devices;
  hysteria_users =
      column device_id (λ d. not (is_empty d.hysteria_user)) (λ d. d.hysteria_user) exclude_id
        devices;
  wg_public_keys =
      column device_id (λ d. not (is_empty d.wg_public_key)) (λ d. d.wg_public_key) exclude_id
        devices;
}

unfoldable pub check_device : String → String → String → String → UsedByDevices → Result (Unit {0})
check_device id wg_ip hysteria_user wg_public_key used = do
  raise_if (any (str_eq id) used.ids) "desktop device id is duplicated"
  raise_if (any (str_eq wg_ip) used.wg_ips) "WireGuard IP is duplicated"
  raise_if (any (str_eq hysteria_user) used.hysteria_users) "desktop Hysteria2 user is duplicated"
  raise_if (not (is_empty wg_public_key) && any (str_eq wg_public_key) used.wg_public_keys)
      "WireGuard public key is duplicated"

unfoldable pub check_ports : Device → Result (Unit {0})
check_ports d = do
  raise_if (ltb 65535 d.desktop_port) "desktop port is invalid"
  raise_if (d.listen_port == 0 || ltb 65535 d.listen_port) "WireGuard listen port is invalid"
  raise_if (d.remote_port == 0 || ltb 65535 d.remote_port) "WireGuard remote port is invalid"

abbrev id_of_existing : Option Device → String
id_of_existing none = ""
id_of_existing (some d) = d.id

abbrev name_of_existing : Option Device → String
name_of_existing none = ""
name_of_existing (some d) = d.name

abbrev created : Option Device → ℕ → ℕ
created none now = now
created (some d) now = d.created_at

abbrev pub public_key_of : DeviceRequest → Option Device → String
public_key_of r existing = strip (asked r.wg_public_key existing (λ d. d.wg_public_key) "")

unfoldable pub device_id_of : DeviceRequest → Option Device → Result String
unfolding clean_device_id
device_id_of r existing = clean_device_id (
    or_text (or_text (or_text (text_of r.id) (id_of_existing existing)) (text_of r.name))
      (name_of_existing existing))

unfoldable pub device_of :
    DeviceRequest
    → Option Device
    → ℕ
    → String
    → String
    → String
    → String
    → String
    → String
    → String
    → Device
unfolding strip
device_of r existing now drawn id role platform protocol wg_ip hysteria_user = record {
  id = id;
  name = strip (or_text (asked r.name existing (λ d. d.name) id) id);
  enabled = asked r.enabled existing (λ d. d.enabled) true;
  role = role;
  platform = platform;
  desktop_protocol = protocol;
  desktop_port =
      or_port (asked r.desktop_port existing (λ d. d.desktop_port) 0) (protocol_port protocol);
  wg_ip = wg_ip;
  wg_cidr = String.◌++◌ wg_ip "/32";
  wg_private_key = strip (asked r.wg_private_key existing (λ d. d.wg_private_key) "");
  wg_public_key = public_key_of r existing;
  wg_preshared_key = strip (asked r.wg_preshared_key existing (λ d. d.wg_preshared_key) "");
  hysteria_user = hysteria_user;
  hysteria_password =
      or_text (strip (asked r.hysteria_password existing (λ d. d.hysteria_password) "")) drawn;
  listen_host =
      strip (or_text (asked r.listen_host existing (λ d. d.listen_host) "127.0.0.1") "127.0.0.1");
  listen_port = or_port (asked r.listen_port existing (λ d. d.listen_port) 51820) 51820;
  remote_host =
      strip (or_text (asked r.remote_host existing (λ d. d.remote_host) "127.0.0.1") "127.0.0.1");
  remote_port = or_port (asked r.remote_port existing (λ d. d.remote_port) 51820) 51820;
  connection_target = wg_ip;
  created_at = created existing now;
  updated_at = now;
}

module _ (ip_address : String → Option String) where
  unfoldable pub clean_wg_ip : String → Result String
  unfolding strip split_on
  clean_wg_ip value =
      let raw = strip value in
      if is_empty raw
      then err "WireGuard IP is required"
      else or_raise (ip_address (head_part (split_on 47 raw))) "WireGuard IP is invalid"

  unfoldable pub normalize_device :
      ℕ → String → DeviceRequest → Option Device → List Device → Result Device
  normalize_device now drawn r existing devices = do
    id ← device_id_of r existing
    role ← clean_role (asked r.role existing (λ d. d.role) "host")
    platform ← clean_platform (asked r.platform existing (λ d. d.platform) "macos")
    protocol ←
        clean_protocol (asked r.desktop_protocol existing (λ d. d.desktop_protocol) "sunshine")
    wg_ip ← clean_wg_ip (asked r.wg_ip existing (λ d. d.wg_ip) "")
    hysteria_user ←
        clean_hysteria_user (asked r.hysteria_user existing (λ d. d.hysteria_user) "") id
    check_device id wg_ip hysteria_user (public_key_of r existing) (used_by_devices devices id)
    let item = device_of r existing now drawn id role platform protocol wg_ip hysteria_user
    check_ports item
    ok item

  abbrev pub stored_device : String → Result Device → List Device → Result Device × List Device
  stored_device id (ok d) devices = (ok d, put_item device_id id d devices)
  stored_device id (err e) devices = (err e, devices)

  unfoldable pub upsert_device : ℕ → String → DeviceRequest → Action (List Device) Device
  unfolding clean_device_id normalize_device find_item put_item
  upsert_device now drawn r =
      Action.◌>>=◌ (lift (clean_device_id (or_text (text_of r.id) (text_of r.name)))) (λ id devices.
        stored_device id (normalize_device now drawn r (find_item device_id id devices) devices)
          devices)

abbrev pub removed_device : String → Option Device → List Device → Result Device × List Device
removed_device id (some d) devices = (ok d, remove_item device_id id devices)
removed_device id none devices = (err "desktop device not found", devices)

unfoldable pub delete_device : String → Action (List Device) Device
unfolding clean_device_id find_item remove_item
delete_device value =
    Action.◌>>=◌ (lift (clean_device_id value))
      λ id devices. removed_device id (find_item device_id id devices) devices

abbrev pub switched_device :
    String → Bool → ℕ → Option Device → List Device → Result Device × List Device
switched_device id enabled now (some d) devices =
    let d' : Device = record d { enabled = enabled; updated_at = now } in
    (ok d', put_item device_id id d' devices)
switched_device id enabled now none devices = (err "desktop device not found", devices)

-- The id is cleaned in the loop: an empty catalogue answers before it is looked at.
unfoldable pub set_device_enabled : ℕ → String → Bool → Action (List Device) Device
unfolding clean_device_id find_item put_item
set_device_enabled now value enabled [] = (err "desktop device not found", [])
set_device_enabled now value enabled (d ∷ rest) =
    Action.◌>>=◌ (lift (clean_device_id value))
      (λ id devices. switched_device id enabled now (find_item device_id id devices) devices)
      (d ∷ rest)
