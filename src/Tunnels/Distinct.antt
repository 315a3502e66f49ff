-- ===== src/Tunnels/Distinct.antt =====
-- The catalogue of baseline/tunnel_catalog.py keeps its tunnels apart: what that means, and that an item
-- that passed the checks fits.
pub mod Sought
pub mod Steps
pub mod Refine
use fake_ui.Prelude.{
  ℕ, String, Bool, true, false, ◌&&◌, ◌||◌, ◌==◌, not, Option, none, some, List, [], ◌∷◌, All, any,
  if◌then◌else◌, is_empty, str_eq, eq_iff, ◌≡◌, ◌≢◌, refl, sym, ap, ◌∙◌, arith, Bool-cases,
  Option-cases, inl, inr,
}
use Prim.Native.String
use mathlib.Core.Path.{subst}
use fake_ui.Prelude.Text.{lower}
use fake_ui.Prelude.Result.{
  Result, ok, err, raise_if, ◌>>=◌, >>=-eq-ok, raise_if-eq-ok, ok-injective,
}
use fake_ui.Prelude.Action.{Action, lift, lift-ok}
use fake_ui.Prelude.Action
use fake_ui.Prelude.Keeps.{Keeps, Keeps-lift, Keeps-bind, Keeps-bind_on}
use fake_ui.Catalog.{find_item, put_item, remove_item}
use fake_ui.Catalog.Distinct.{
  Pairwise, Differ, Fits, All-map, All-zip, All-put_item, put_item-Pairwise, All-remove_item,
  remove_item-Pairwise, column-unused, find_item-id, find_item-All, find_item-Fits,
}
use fake_ui.Tunnels.{Tunnel, Request, Used, used_values, tunnel_id}
use fake_ui.Tunnels.Clean.{clean_id, clean_domain, clean_id_idem, clean_domain-lower}
use fake_ui.Tunnels.Ports.{has_port}
use fake_ui.Tunnels.Normalize.{
  given, text_of, or_text, keys_of, check_keys, check_item, node_id_of, normalize_tunnel, sought_id,
  upsert_tunnel, removed, delete_tunnel, switched, set_tunnel_enabled,
}
use fake_ui.Tunnels.Normalize.Facts.{node_id_of-clean, Normalized, normalize_tunnel-Normalized}

-- Two tunnels share no id, no domain that is given, no port and no UUID.
pub record Apart (a b : Tunnel) : Type 0 where
  pub ids : a.id ≢ b.id
  pub domains : is_empty b.public_domain ≡ false → a.public_domain ≢ b.public_domain
  pub ports : a.portal_port ≢ b.portal_port
  pub clients : a.client_id ≢ b.client_id

-- The fields are in the form in which they are compared.
pub record IsClean (t : Tunnel) : Type 0 where
  pub id : clean_id t.id ≡ ok t.id
  pub named : is_empty t.id ≡ false
  pub domain : lower t.public_domain ≡ t.public_domain
  pub port : (t.portal_port == 0) ≡ false
  pub client : is_empty t.client_id ≡ false

pub record IsDistinct (tunnels : List Tunnel) : Type 0 where
  pub apart : Pairwise Apart tunnels
  pub clean : All IsClean tunnels

pub apart-Differ : Differ tunnel_id Apart
apart-Differ = record {
  symmetric = λ a b h. record {
    ids = λ e. h.ids (sym e);
    domains = λ given e. h.domains (subst (λ d. is_empty d ≡ false) (sym e) given) (sym e);
    ports = λ e. h.ports (sym e);
    clients = λ e. h.clients (sym e);
  };
  ids = λ a b h. h.ids;
}

any-eq_sym : (s : String) (a : String) → str_eq s a ≡ false → a ≢ s
any-eq_sym s a h e = ground (arith, eq_iff s a)

port-eq_ne : (p q : ℕ) → (p == q) ≡ false → p ≢ q
port-eq_ne p q h e = ground arith

-- No tunnel that the item does not replace has its domain, its port or its UUID.
pub record Free (t : Tunnel) (tunnels : List Tunnel) : Type 0 where
  pub domain :
      is_empty t.public_domain ≡ false
      → All
          (λ (x : Tunnel).
            tunnel_id x ≢ t.id
            → not (is_empty x.public_domain) ≡ true
            → str_eq t.public_domain (lower x.public_domain) ≡ false)
          tunnels
  pub port :
      All
        (λ (x : Tunnel).
          tunnel_id x ≢ t.id
          → not (x.portal_port == 0) ≡ true
          → (t.portal_port == x.portal_port) ≡ false)
        tunnels
  pub client :
      All
        (λ (x : Tunnel).
          tunnel_id x ≢ t.id
          → not (is_empty x.client_id) ≡ true
          → str_eq t.client_id x.client_id ≡ false)
        tunnels

pub check_keys-Free :
    (t : Tunnel) (tunnels : List Tunnel)
    → check_keys (keys_of t.id t.public_domain t.portal_port t.client_id) (used_values tunnels t.id)
      ≡ ok tt
    → Free t tunnels
unfolding check_keys used_values
check_keys-Free t tunnels e =
    let used = used_values tunnels t.id in
    let (_, _, e1) =
      >>=-eq-ok (raise_if (any (str_eq t.id) used.ids) "tunnel id is duplicated") _ e in
    let (_, domain, e2) =
      >>=-eq-ok
        (raise_if (not (is_empty t.public_domain) && any (str_eq t.public_domain) used.domains)
          "public domain is duplicated")
        _ e1 in
    let (_, port, client) =
      >>=-eq-ok (raise_if (has_port t.portal_port used.ports) "portal port is duplicated") _ e2 in
    record {
      domain = λ given.
          column-unused tunnel_id (λ x. not (is_empty x.public_domain)) (λ x. lower x.public_domain)
            (str_eq t.public_domain) t.id tunnels (rw given at (raise_if-eq-ok _ _ _ domain));
      port =
          column-unused tunnel_id (λ x. not (x.portal_port == 0)) (λ x. x.portal_port)
            (λ p. t.portal_port == p) t.id tunnels (raise_if-eq-ok _ _ _ port);
      client =
          column-unused tunnel_id (λ x. not (is_empty x.client_id)) (λ x. x.client_id)
            (str_eq t.client_id) t.id tunnels (raise_if-eq-ok _ _ _ client);
    }

-- A new item differs from what it does not replace.
apart_from :
    (t x : Tunnel)
    → IsClean x
    → (is_empty t.public_domain ≡ false
        → not (is_empty x.public_domain) ≡ true
        → str_eq t.public_domain (lower x.public_domain) ≡ false)
    → (not (x.portal_port == 0) ≡ true → (t.portal_port == x.portal_port) ≡ false)
    → (not (is_empty x.client_id) ≡ true → str_eq t.client_id x.client_id ≡ false)
    → t.id ≢ x.id
    → Apart t x
apart_from t x clean domain port client ne = record {
  ids = ne;
  domains = λ given e.
      let lowered : str_eq t.public_domain (lower x.public_domain) ≡ false =
        domain (ap is_empty e ∙ given) (ap not given) in
      any-eq_sym t.public_domain (lower x.public_domain) lowered (clean.domain ∙ sym e);
  ports = port-eq_ne t.portal_port x.portal_port (port (ap not clean.port));
  clients = λ e. any-eq_sym t.client_id x.client_id (client (ap not clean.client)) (sym e);
}

-- What the checks of ports and UUIDs say of one other tunnel.
abbrev Unshared : Tunnel → Tunnel → Type 0
Unshared t x =
    IsClean x
    × (tunnel_id x ≢ t.id
        → not (x.portal_port == 0) ≡ true
        → (t.portal_port == x.portal_port) ≡ false)
    × (tunnel_id x ≢ t.id
        → not (is_empty x.client_id) ≡ true
        → str_eq t.client_id x.client_id ≡ false)

Free-Unshared :
    (t : Tunnel) (tunnels : List Tunnel)
    → All IsClean tunnels
    → Free t tunnels
    → All (Unshared t) tunnels
Free-Unshared t tunnels clean free =
    All-zip (λ x h client. (h.0, h.1, client)) tunnels
      (All-zip
        {R = λ x.
          IsClean x
          × (tunnel_id x ≢ t.id
              → not (x.portal_port == 0) ≡ true
              → (t.portal_port == x.portal_port) ≡ false)}
        (λ x cleaned port. (cleaned, port)) tunnels clean free.port)
      free.client

pub Free-Fits :
    (t : Tunnel) (tunnels : List Tunnel)
    → All IsClean tunnels
    → Free t tunnels
    → Fits tunnel_id Apart apart-Differ t tunnels
Free-Fits t tunnels clean free = elim (Bool-cases (is_empty t.public_domain)) [
  | inl without ↦
      All-map
        (λ x h ne. apart_from t x h.0 (λ named. absurd cc) (h.1 ne) (h.2 ne) (λ e. ne (sym e)))
        tunnels (Free-Unshared t tunnels clean free)
  | inr named ↦
      All-zip
        (λ x h domain ne. apart_from t x h.0 (λ _. domain ne) (h.1 ne) (h.2 ne) (λ e. ne (sym e)))
        tunnels (Free-Unshared t tunnels clean free) (free.domain named)
]

check_item-port : (t : Tunnel) → check_item t ≡ ok tt → (t.portal_port == 0) ≡ false
unfolding check_item
check_item-port t e =
    let (_, _, e1) =
      >>=-eq-ok (raise_if (not (str_eq t.mode "port")) "only port tunnel mode is supported") _ e in
    let (_, _, e2) =
      >>=-eq-ok
        (raise_if (str_eq t.kind "public_https" && is_empty t.public_domain)
          "public domain is required")
        _ e1 in
    let (_, port, _) = >>=-eq-ok (raise_if (t.portal_port == 0) "portal port is required") _ e2 in
    raise_if-eq-ok _ _ _ port

pub Normalized-IsClean :
    (uuid : String) (r : Request) (existing : Option Tunnel) (tunnels : List Tunnel) (t : Tunnel)
    → is_empty uuid ≡ false
    → Normalized uuid r existing tunnels t
    → IsClean t
Normalized-IsClean uuid r existing tunnels t given_uuid n =
    let (same, named) = node_id_of-clean r existing t.public_domain t.id n.id in
    record {
      id = same;
      named = named;
      domain =
          clean_domain-lower (given r.public_domain existing (λ o. o.public_domain) "")
            t.public_domain n.domain;
      port = check_item-port t n.item;
      client = n.client given_uuid;
    }
