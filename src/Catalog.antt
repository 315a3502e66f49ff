-- ===== src/Catalog.antt =====
-- What the catalogues of tunnels and of desktop devices share: a list of items with ids, of which
-- one is found, put and removed by its id, and the values that its other items use.
--   baseline/tunnel_catalog.py, baseline/desktop_catalog.py
pub mod Distinct
pub mod View
use fake_ui.Prelude.{String, Bool, Option, none, some, List, [], ◌∷◌, if◌then◌else◌, str_eq}

module _ {A : Type 0} (id_of : A → String) where
  unfoldable pub find_item : String → List A → Option A
  find_item id [] = none
  find_item id (x ∷ xs) =
      let later = find_item id xs in if str_eq (id_of x) id then some x else later

  -- The new item stands in the place of the first with the id, or at the end.
  unfoldable pub put_item : String → A → List A → List A
  put_item id new [] = new ∷ []
  put_item id new (x ∷ xs) =
      let rest = put_item id new xs in if str_eq (id_of x) id then new ∷ xs else x ∷ rest

  unfoldable pub remove_item : String → List A → List A
  remove_item id [] = []
  remove_item id (x ∷ xs) =
      let rest = remove_item id xs in if str_eq (id_of x) id then xs else x ∷ rest

  -- One of the sets of `used_values`: a value of each item that has one and another id.
  unfoldable pub column : {B : Type 0} → (A → Bool) → (A → B) → String → List A → List B
  column keep value exclude [] = []
  column keep value exclude (x ∷ xs) =
      let rest = column keep value exclude xs in
      if str_eq (id_of x) exclude then rest else if keep x then value x ∷ rest else rest
