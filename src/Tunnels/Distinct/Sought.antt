-- ===== src/Tunnels/Distinct/Sought.antt =====
-- The id under which `upsert_tunnel` of baseline/tunnel_catalog.py looks for an item is the id that
-- the item gets.
use fake_ui.Prelude.{
  String, true, false, Option, none, some, if◌then◌else◌, is_empty, ◌≡◌, refl, sym, ap, ◌∙◌,
  Bool-cases, inl, inr,
}
use mathlib.Core.Path.{subst}
use fake_ui.Prelude.Result.{ok, >>=-eq-ok, ok-injective}
use fake_ui.Tunnels.{Tunnel, Request}
use fake_ui.Tunnels.Clean.{clean_id, clean_domain}
use fake_ui.Tunnels.Normalize.{given, text_of, node_id_of, sought_id}
use fake_ui.Tunnels.Normalize.Facts.{node_id_of-clean}
use fake_ui.Tunnels.Distinct.{IsClean}

given-none : (o : Option String) (field : Tunnel → String) → given o none field "" ≡ text_of o
given-none none field = refl
given-none (some s) field = refl

is_empty-eq : (s : String) → is_empty s ≡ true → ◌≡◌ {A = String} s ""
is_empty-eq String.[] e = refl
is_empty-eq (String.◌∷◌ c s) e = absurd cc

clean_domain_empty : (domain : String) → clean_domain "" ≡ ok domain → ok "" ≡ ok domain
unfolding clean_domain
clean_domain_empty domain e = e

node_id_of-given :
    (r : Request) (existing : Option Tunnel) (domain : String)
    → is_empty (text_of r.id) ≡ false
    → node_id_of r existing domain ≡ clean_id (text_of r.id)
unfolding node_id_of
node_id_of-given r existing domain h = rw (h, h)

node_id_of-existing :
    (r : Request) (old : Tunnel) (domain : String)
    → is_empty (text_of r.id) ≡ true
    → is_empty old.id ≡ false
    → node_id_of r (some old) domain ≡ clean_id old.id
unfolding node_id_of
node_id_of-existing r old domain h named = rw (h, named)

-- A new item has the id under which it was looked for.
pub sought-none :
    (r : Request) (domain id id' : String)
    → sought_id r ≡ ok id
    → clean_domain (given r.public_domain none (λ (o : Tunnel). o.public_domain) "") ≡ ok domain
    → node_id_of r none domain ≡ ok id'
    → id' ≡ id
unfolding sought_id
sought-none r domain id id' e e_domain e_id =
    let text = text_of r.public_domain in
    let (d, e_d, e_sought) =
      >>=-eq-ok (if is_empty text then ok "" else clean_domain text) (λ d. node_id_of r none d) e in
    let cleaned : clean_domain text ≡ ok domain =
      ap clean_domain (sym (given-none r.public_domain (λ o. o.public_domain))) ∙ e_domain in
    let same : d ≡ domain = elim (Bool-cases (is_empty text)) [
      | inl without ↦
          let empty : clean_domain "" ≡ ok domain =
            subst (λ s. clean_domain s ≡ ok domain) (is_empty-eq text without) cleaned in
          ok-injective d domain (sym e_d ∙ (rw without refl) ∙ clean_domain_empty domain empty)
      | inr with ↦ ok-injective d domain (sym e_d ∙ (rw with cleaned))
    ] in
    ok-injective id' id (sym e_id ∙ ap (node_id_of r none) (sym same) ∙ e_sought)

-- A changed item keeps it.
pub sought-some :
    (r : Request) (old : Tunnel) (domain id : String)
    → sought_id r ≡ ok id
    → old.id ≡ id
    → IsClean old
    → node_id_of r (some old) domain ≡ ok id
unfolding sought_id
sought-some r old domain id e same clean =
    let text = text_of r.public_domain in
    let (d, _, e_sought) =
      >>=-eq-ok (if is_empty text then ok "" else clean_domain text) (λ d. node_id_of r none d) e in
    elim (Bool-cases (is_empty (text_of r.id))) [
      | inl without ↦ node_id_of-existing r old domain without clean.named ∙ clean.id ∙ ap ok same
      | inr with ↦
          node_id_of-given r (some old) domain with
          ∙ sym (node_id_of-given r none d with)
          ∙ e_sought
    ]

pub sought_id-clean :
    (r : Request) (id : String)
    → sought_id r ≡ ok id
    → (clean_id id ≡ ok id) × (is_empty id ≡ false)
unfolding sought_id
sought_id-clean r id e =
    let text = text_of r.public_domain in
    let (d, _, named) =
      >>=-eq-ok (if is_empty text then ok "" else clean_domain text) (λ d. node_id_of r none d) e in
    node_id_of-clean r none d id named
