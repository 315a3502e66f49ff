-- ===== src/Desktops/Distinct.antt =====
-- The catalogue of baseline/desktop_catalog.py keeps its devices apart.
use fake_ui.Prelude.{
  ◌≤◌, String, true, false, ◌||◌, ◌==◌, ltb, not, List, [], ◌∷◌, All, any, is_empty, str_eq, eq_iff,
  ◌≡◌, ◌≢◌, sym, ap, ◌∙◌, arith,
}
use fake_ui.Prelude.Result.{ok, raise_if, >>=-eq-ok, raise_if-eq-ok}
use fake_ui.Catalog.Distinct.{Pairwise, Differ, Fits, All-zip, column-unused}
use fake_ui.Desktops.Clean.{clean_device_id}
use fake_ui.Desktops.{Device, device_id, used_by_devices, check_device, check_ports}

-- Two devices share no id, no WireGuard address, no user, and no public key that is given.
pub record Separate (a b : Device) : Type 0 where
  pub ids : a.id ≢ b.id
  pub wg_ips : a.wg_ip ≢ b.wg_ip
  pub users : a.hysteria_user ≢ b.hysteria_user
  pub keys : is_empty b.wg_public_key ≡ false → a.wg_public_key ≢ b.wg_public_key

-- The ports fit into sixteen bits, and the ports of WireGuard are not 0.
pub record InRange (d : Device) : Type 0 where
  pub desktop : d.desktop_port ≤ 65535
  pub listen : (1 ≤ d.listen_port) × (d.listen_port ≤ 65535)
  pub remote : (1 ≤ d.remote_port) × (d.remote_port ≤ 65535)

pub check_ports-InRange : (d : Device) → check_ports d ≡ ok tt → InRange d
unfolding check_ports
check_ports-InRange d e =
    let (_, desktop, e1) =
      >>=-eq-ok (raise_if (ltb 65535 d.desktop_port) "desktop port is invalid") _ e in
    let (_, listen, remote) =
      >>=-eq-ok
        (raise_if (d.listen_port == 0 || ltb 65535 d.listen_port)
          "WireGuard listen port is invalid")
        _ e1 in
    let h1 = raise_if-eq-ok _ _ _ desktop in
    let h2 = raise_if-eq-ok _ _ _ listen in
    let h3 = raise_if-eq-ok _ _ _ remote in
    record {
      desktop = ground (arith, h1);
      listen = (ground (arith, h2), ground (arith, h2));
      remote = (ground (arith, h3), ground (arith, h3));
    }

-- The fields are given, and the id is in its clean form.
pub record IsProper (d : Device) : Type 0 where
  pub id : clean_device_id d.id ≡ ok d.id
  pub named : is_empty d.id ≡ false
  pub wg_ip : is_empty d.wg_ip ≡ false
  pub user : is_empty d.hysteria_user ≡ false
  pub ports : InRange d

pub record IsSeparate (devices : List Device) : Type 0 where
  pub apart : Pairwise Separate devices
  pub proper : All IsProper devices

pub separate-Differ : Differ device_id Separate
separate-Differ = record {
  symmetric = λ a b h. record {
    ids = λ e. h.ids (sym e);
    wg_ips = λ e. h.wg_ips (sym e);
    users = λ e. h.users (sym e);
    keys = λ given e. h.keys (ap is_empty e ∙ given) (sym e);
  };
  ids = λ a b h. h.ids;
}

text_ne : (s a : String) → str_eq s a ≡ false → s ≢ a
text_ne s a h e = ground (arith, eq_iff s a)

-- What the checks say of one other device.
abbrev pub Unshared : Device → Device → Type 0
Unshared d x =
    (device_id x ≢ d.id → not (is_empty x.wg_ip) ≡ true → str_eq d.wg_ip x.wg_ip ≡ false)
    × (device_id x ≢ d.id
        → not (is_empty x.hysteria_user) ≡ true
        → str_eq d.hysteria_user x.hysteria_user ≡ false)
    × (device_id x ≢ d.id
        → not (is_empty x.wg_public_key) ≡ true
        → is_empty d.wg_public_key ≡ false
        → str_eq d.wg_public_key x.wg_public_key ≡ false)

abbrev WithKey : Device → Device → Type 0
WithKey d x =
    (device_id x ≢ d.id
      → not (is_empty x.hysteria_user) ≡ true
      → str_eq d.hysteria_user x.hysteria_user ≡ false)
    × (device_id x ≢ d.id
        → not (is_empty x.wg_public_key) ≡ true
        → is_empty d.wg_public_key ≡ false
        → str_eq d.wg_public_key x.wg_public_key ≡ false)

column-key :
    (key : String) (exclude : String) (xs : List Device)
    → (is_empty key ≡ false
        → All
            (λ (x : Device).
              device_id x ≢ exclude
              → not (is_empty x.wg_public_key) ≡ true
              → str_eq key x.wg_public_key ≡ false)
            xs)
    → All
        (λ (x : Device).
          device_id x ≢ exclude
          → not (is_empty x.wg_public_key) ≡ true
          → is_empty key ≡ false
          → str_eq key x.wg_public_key ≡ false)
        xs
column-key key exclude [] h = tt
column-key key exclude (x ∷ xs) h =
    (λ ne given keyed. (h keyed).0 ne given, column-key key exclude xs (λ keyed. (h keyed).1))

pub check_device-Unshared :
    (d : Device) (devices : List Device)
    → check_device d.id d.wg_ip d.hysteria_user d.wg_public_key (used_by_devices devices d.id)
      ≡ ok tt
    → All (Unshared d) devices
unfolding check_device used_by_devices
check_device-Unshared d devices e =
    let used = used_by_devices devices d.id in
    let (_, _, e1) =
      >>=-eq-ok (raise_if (any (str_eq d.id) used.ids) "desktop device id is duplicated") _ e in
    let (_, ips, e2) =
      >>=-eq-ok (raise_if (any (str_eq d.wg_ip) used.wg_ips) "WireGuard IP is duplicated") _ e1 in
    let (_, users, keys) =
      >>=-eq-ok
        (raise_if (any (str_eq d.hysteria_user) used.hysteria_users)
          "desktop Hysteria2 user is duplicated")
        _ e2 in
    let on_users =
      column-unused device_id (λ x. not (is_empty x.hysteria_user)) (λ x. x.hysteria_user)
        (str_eq d.hysteria_user) d.id devices (raise_if-eq-ok _ _ _ users) in
    let on_keys = column-key d.wg_public_key d.id devices (λ keyed.
      column-unused device_id (λ x. not (is_empty x.wg_public_key)) (λ x. x.wg_public_key)
        (str_eq d.wg_public_key) d.id devices (rw keyed at (raise_if-eq-ok _ _ _ keys))) in
    All-zip (λ x ip others. (ip, others.0, others.1)) devices
      (column-unused device_id (λ x. not (is_empty x.wg_ip)) (λ x. x.wg_ip) (str_eq d.wg_ip) d.id
        devices (raise_if-eq-ok _ _ _ ips))
      (All-zip {R = WithKey d} (λ x user key. (user, key)) devices on_users on_keys)

pub Unshared-Fits :
    (d : Device) (devices : List Device)
    → All IsProper devices
    → All (Unshared d) devices
    → Fits device_id Separate separate-Differ d devices
Unshared-Fits d devices proper free =
    All-zip
      (λ x p f ne. record {
        ids = λ e. ne (sym e);
        wg_ips = text_ne d.wg_ip x.wg_ip (f.0 ne (ap not p.wg_ip));
        users = text_ne d.hysteria_user x.hysteria_user (f.1 ne (ap not p.user));
        keys = λ given e.
            text_ne d.wg_public_key x.wg_public_key (f.2 ne (ap not given) (ap is_empty e ∙ given))
              e;
      })
      devices proper free
