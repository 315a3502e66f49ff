-- ===== src/Desktops/Steps.antt =====
-- `upsert_device` of baseline/desktop_catalog.py keeps the catalogue's devices apart.
use fake_ui.Prelude.{
  ℕ, String, true, false, ◌||◌, ◌==◌, not, Option, none, some, List, if◌then◌else◌, is_empty, ◌≡◌,
  refl, sym, ap, ◌∙◌, arith, Bool-cases, Option-cases, inl, inr,
}
use Prim.Native.String
use Prim.Native.String.append
use mathlib.Core.Path.{subst}
use fake_ui.Prelude.Text.{strip, starts_with}
use fake_ui.Prelude.Result.{Result, ok, err, >>=-eq-ok, or_raise-eq_ok, ok-injective, err-ne-ok}
use fake_ui.Prelude.Clean.{any_char, split_on}
use fake_ui.Prelude.Action.{lift, lift-ok}
use fake_ui.Prelude.Keeps.{Keeps-lift, Keeps-bind_on}
use fake_ui.Catalog.{find_item, put_item}
use fake_ui.Catalog.Distinct.{All-put_item, put_item-Pairwise, find_item-id, find_item-All}
use fake_ui.Tunnels.Normalize.{or_text, text_of}
use fake_ui.Desktops.Clean.{clean_device_id, clean_device_id_idem}
use fake_ui.Desktops.{
  Device, DeviceRequest, device_id, asked, clean_role, clean_platform, clean_protocol,
  clean_hysteria_user, clean_wg_ip, used_by_devices, check_device, check_ports, device_id_of,
  device_of, normalize_device, stored_device, upsert_device, dashed, head_part, public_key_of,
}
use fake_ui.Desktops.Distinct.{
  IsProper, IsSeparate, Separate, separate-Differ, check_device-Unshared, Unshared-Fits,
  check_ports-InRange,
}

prefixed-given : (s : String) → is_empty (String.◌++◌ "desktop-" s) ≡ false
prefixed-given s = ap is_empty (append.cons "d" "esktop-" s)

prefix-given : (s : String) → starts_with s "desktop-" ≡ true → is_empty s ≡ false
prefix-given String.[] h = absurd cc
prefix-given (String.◌∷◌ c s) h = refl

chosen-given :
    (user renamed id out : String)
    → (if is_empty user
        then ok (String.◌++◌ "desktop-" id)
        else if not (starts_with renamed "desktop-") || any_char (λ c. c == 58) renamed
        then err "desktop Hysteria2 user must start with desktop- and cannot contain colon"
        else ok renamed)
      ≡ ok out
    → is_empty out ≡ false
chosen-given user renamed id out e = ground (arith, prefixed-given id, prefix-given renamed)

clean_hysteria_user-given :
    (value id user : String) → clean_hysteria_user value id ≡ ok user → is_empty user ≡ false
unfolding clean_hysteria_user
clean_hysteria_user-given value id user e =
    chosen-given (strip value) (dashed (strip value)) id user e

or_text-empty : (a : String) → or_text a "" ≡ a
or_text-empty String.[] = refl
or_text-empty (String.◌∷◌ c a) = refl

-- What is known of an item that `normalize_device` returned.
pub record NormalizedDevice (r : DeviceRequest) (existing : Option Device) (devices : List Device)
    (d : Device) : Type 0 where
  pub id : device_id_of r existing ≡ ok d.id
  pub wg_ip : is_empty d.wg_ip ≡ false
  pub user : is_empty d.hysteria_user ≡ false
  pub checked :
      check_device d.id d.wg_ip d.hysteria_user d.wg_public_key (used_by_devices devices d.id)
      ≡ ok tt
  pub ports : check_ports d ≡ ok tt

-- The canonical text of an address is not empty.
abbrev pub GivesText : (String → Option String) → Type 0
GivesText ip_address = (raw ip : String) → ip_address raw ≡ some ip → is_empty ip ≡ false

module _ (ip_address : String → Option String) (text : GivesText ip_address) where
  clean_wg_ip-given :
      (value ip : String) → clean_wg_ip ip_address value ≡ ok ip → is_empty ip ≡ false
  unfolding clean_wg_ip
  clean_wg_ip-given value ip e = elim (Bool-cases (is_empty (strip value))) [
    | inl empty ↦ absurd (err-ne-ok "WireGuard IP is required" ip (rw empty at e))
    | inr given ↦
        let address = head_part (split_on 47 (strip value)) in
        text address ip
          (or_raise-eq_ok (ip_address address) "WireGuard IP is invalid" ip (rw given at e))
  ]

  normalize_device-NormalizedDevice :
      (now : ℕ) (drawn : String) (r : DeviceRequest) (existing : Option Device)
      (devices : List Device) (d : Device)
      → normalize_device ip_address now drawn r existing devices ≡ ok d
      → NormalizedDevice r existing devices d
  unfolding normalize_device device_of
  normalize_device-NormalizedDevice now drawn r existing devices d e =
      let (id, e_id, e1) = >>=-eq-ok (device_id_of r existing) _ e in
      let (role, _, e2) =
        >>=-eq-ok (clean_role (asked r.role existing (λ d. d.role) "host")) _ e1 in
      let (platform, _, e3) =
        >>=-eq-ok (clean_platform (asked r.platform existing (λ d. d.platform) "macos")) _ e2 in
      let (protocol, _, e4) =
        >>=-eq-ok
          (clean_protocol (asked r.desktop_protocol existing (λ d. d.desktop_protocol) "sunshine"))
          _ e3 in
      let given_ip = asked r.wg_ip existing (λ d. d.wg_ip) "" in
      let (wg_ip, e_ip, e5) = >>=-eq-ok (clean_wg_ip ip_address given_ip) _ e4 in
      let given_user = asked r.hysteria_user existing (λ d. d.hysteria_user) "" in
      let (user, e_user, e6) = >>=-eq-ok (clean_hysteria_user given_user id) _ e5 in
      let (_, e_check, e7) =
        >>=-eq-ok
          (check_device id wg_ip user (public_key_of r existing) (used_by_devices devices id)) _
          e6 in
      let item = device_of r existing now drawn id role platform protocol wg_ip user in
      let (_, e_ports, e8) = >>=-eq-ok (check_ports item) _ e7 in
      subst (NormalizedDevice r existing devices) (ok-injective item d e8) (record {
        id = e_id;
        wg_ip = clean_wg_ip-given given_ip wg_ip e_ip;
        user = clean_hysteria_user-given given_user id user e_user;
        checked = e_check;
        ports = e_ports;
      })

  put-IsSeparate :
      (r : DeviceRequest) (existing : Option Device) (devices : List Device) (d : Device)
      → IsSeparate devices
      → clean_device_id d.id ≡ ok d.id
      → is_empty d.id ≡ false
      → NormalizedDevice r existing devices d
      → IsSeparate (put_item device_id d.id d devices)
  put-IsSeparate r existing devices d h clean named n = record {
    apart =
        put_item-Pairwise device_id Separate separate-Differ d devices
          (Unshared-Fits d devices h.proper (check_device-Unshared d devices n.checked)) h.apart;
    proper =
        All-put_item device_id Separate separate-Differ d IsProper devices
          (record {
            id = clean;
            named = named;
            wg_ip = n.wg_ip;
            user = n.user;
            ports = check_ports-InRange d n.ports;
          })
          h.proper;
  }

  sought-none :
      (r : DeviceRequest) (id id' : String)
      → clean_device_id (or_text (text_of r.id) (text_of r.name)) ≡ ok id
      → device_id_of r none ≡ ok id'
      → id' ≡ id
  unfolding device_id_of
  sought-none r id id' e e' =
      let a = text_of r.id in
      let b = text_of r.name in
      let same : or_text (or_text (or_text a "") b) "" ≡ or_text a b =
        or_text-empty (or_text (or_text a "") b) ∙ ap (λ t. or_text t b) (or_text-empty a) in
      ok-injective id' id (sym e' ∙ ap clean_device_id same ∙ e)

  sought-some :
      (r : DeviceRequest) (old : Device) (id : String)
      → clean_device_id (or_text (text_of r.id) (text_of r.name)) ≡ ok id
      → old.id ≡ id
      → IsProper old
      → device_id_of r (some old) ≡ ok id
  unfolding device_id_of
  sought-some r old id e same proper =
      let a = text_of r.id in
      let b = text_of r.name in
      elim (Bool-cases (is_empty a)) [
        | inl without ↦ rw (without, proper.named, proper.named) (proper.id ∙ ap ok same)
        | inr with ↦ rw (with, with, with) (rw with at e)
      ]

  Normalized-id :
      (r : DeviceRequest) (id : String) (devices : List Device) (d : Device)
      → IsSeparate devices
      → clean_device_id (or_text (text_of r.id) (text_of r.name)) ≡ ok id
      → NormalizedDevice r (find_item device_id id devices) devices d
      → d.id ≡ id
  Normalized-id r id devices d h sought n = elim (Option-cases (find_item device_id id devices)) [
    | inl missing ↦ sought-none r id d.id sought (ap (device_id_of r) (sym missing) ∙ n.id)
    | inr (old, found) ↦
        let kept =
          sought-some r old id sought (find_item-id device_id id devices old found)
            (find_item-All device_id IsProper id devices old h.proper found) in
        ok-injective d.id id (sym (ap (device_id_of r) (sym found) ∙ n.id) ∙ kept)
  ]

  stored_device-keeps :
      (id : String) (outcome : Result Device) (devices : List Device)
      → ((d : Device) → outcome ≡ ok d → IsSeparate (put_item device_id id d devices))
      → IsSeparate devices
      → IsSeparate (stored_device ip_address id outcome devices).1
  stored_device-keeps id (ok d) devices put h = put d refl
  stored_device-keeps id (err e) devices put h = h

  -- Whether upsert_device returns or raises, the catalogue stays one of devices that share no id.
  pub upsert_device-IsSeparate :
      (now : ℕ) (drawn : String) (r : DeviceRequest) (devices : List Device)
      → IsSeparate devices
      → IsSeparate (upsert_device ip_address now drawn r devices).1
  unfolding upsert_device
  upsert_device-IsSeparate now drawn r devices h =
      let sought = clean_device_id (or_text (text_of r.id) (text_of r.name)) in
      (Keeps-bind_on {P = IsSeparate} (lift sought)
          (λ id ds.
            stored_device ip_address id
              (normalize_device ip_address now drawn r (find_item device_id id ds) ds) ds)
          (Keeps-lift sought)
          (λ s s' id got. record {
            at = λ ds kept.
                stored_device-keeps id
                  (normalize_device ip_address now drawn r (find_item device_id id ds) ds) ds
                  (λ d e.
                    let n =
                      normalize_device-NormalizedDevice now drawn r (find_item device_id id ds) ds d
                        e in
                    let clean = lift-ok sought s s' id got in
                    let same = Normalized-id r id ds d kept clean n in
                    let (fixed, named) =
                      clean_device_id_idem (or_text (text_of r.id) (text_of r.name)) id clean in
                    subst (λ key. IsSeparate (put_item device_id key d ds)) same
                      (put-IsSeparate r (find_item device_id id ds) ds d kept
                        (subst (λ key. clean_device_id key ≡ ok key) (sym same) fixed)
                        (ap is_empty same ∙ named) n))
                  kept;
          })).at
        devices h
