-- ===== src/Catalog/View.antt =====
-- A catalogue read by id: what is found after an item was put or removed.
use fake_ui.Prelude.{
  String, Option, none, some, List, [], ◌∷◌, All, if◌then◌else◌, str_eq, eq_iff, ◌≡◌, refl, sym,
  arith, Bool-cases, inl, inr,
}
use fake_ui.Catalog.{find_item, put_item, remove_item}
use fake_ui.Catalog.Distinct.{Pairwise, Differ}

-- A catalogue as a function of the id, and one of its values changed.
abbrev pub View : Type 0 → Type 0
View A = String → Option A

abbrev pub put_at : {A : Type 0} → View A → String → Option A → View A
put_at m id value k = if str_eq id k then value else m k

module _ {A : Type 0} (id_of : A → String) where
  pub find_item-put_item :
      (new : A) (xs : List A) (k : String)
      → find_item id_of k (put_item id_of (id_of new) new xs)
        ≡ put_at (λ j. find_item id_of j xs) (id_of new) (some new) k
  unfolding find_item put_item
  find_item-put_item new [] k = refl
  find_item-put_item new (x ∷ xs) k = elim (Bool-cases (str_eq (id_of x) (id_of new))) [
    | inl here ↦
        let same : id_of x ≡ id_of new = (eq_iff (id_of x) (id_of new)).0 here in
        rw here (ground (arith, same))
    | inr other ↦
        rw (other, find_item-put_item new xs k)
          (ground (arith, eq_iff (id_of x) k, eq_iff (id_of new) k, eq_iff (id_of x) (id_of new)))
  ]

  absent :
      (R : A → A → Type 0) (d : Differ id_of R) (x : A) (xs : List A)
      → All (R x) xs
      → find_item id_of (id_of x) xs ≡ none
  unfolding find_item
  absent R d x [] h = refl
  absent R d x (y ∷ ys) h = elim (Bool-cases (str_eq (id_of y) (id_of x))) [
    | inl here ↦ absurd (d.ids x y h.0 (sym ((eq_iff (id_of y) (id_of x)).0 here)))
    | inr other ↦ rw other (absent R d x ys h.1)
  ]

  pub find_item-remove_item :
      (R : A → A → Type 0) (d : Differ id_of R) (id : String) (xs : List A) (k : String)
      → Pairwise R xs
      → find_item id_of k (remove_item id_of id xs) ≡ put_at (λ j. find_item id_of j xs) id none k
  unfolding find_item remove_item
  find_item-remove_item R d id [] k h = ground arith
  find_item-remove_item R d id (x ∷ xs) k h = elim (Bool-cases (str_eq (id_of x) id)) [
    | inl here ↦
        let same : id_of x ≡ id = (eq_iff (id_of x) id).0 here in
        rw (here) (ground (arith, same, absent R d x xs h.0, eq_iff id k, eq_iff (id_of x) k))
    | inr other ↦
        rw (other, find_item-remove_item R d id xs k h.1)
          (ground (arith, eq_iff (id_of x) k, eq_iff id k, eq_iff (id_of x) id))
  ]
