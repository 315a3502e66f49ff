-- ===== src/Catalog/Distinct.antt =====
-- Items that differ pairwise stay so.
use fake_ui.Prelude.{
  String, Bool, true, false, some, List, [], ◌∷◌, any, All, str_eq, eq_iff, ◌≡◌, ◌≢◌, refl, sym, ap,
  ◌∙◌, arith, Bool-cases, inl, inr,
}
use mathlib.Core.Path.{subst}
use fake_ui.Catalog.{find_item, put_item, remove_item, column}

abbrev pub Pairwise : {A : Type 0} → (A → A → Type 0) → List A → Type 0
Pairwise R [] = Unit
Pairwise R (x ∷ xs) = All (R x) xs × Pairwise R xs

pub All-map :
    {A : Type 0} {P Q : A → Type 0} (f : (a : A) → P a → Q a) (xs : List A) → All P xs → All Q xs
All-map f [] h = tt
All-map f (x ∷ xs) h = (f x h.0, All-map f xs h.1)

pub All-zip :
    {A : Type 0} {P Q R : A → Type 0} (f : (a : A) → P a → Q a → R a) (xs : List A)
    → All P xs
    → All Q xs
    → All R xs
All-zip f [] h k = tt
All-zip f (x ∷ xs) h k = (f x h.0 k.0, All-zip f xs h.1 k.1)

-- A relation under which items have different ids.
pub record Differ {A : Type 0} (id_of : A → String) (R : A → A → Type 0) : Type 0 where
  pub symmetric : (a b : A) → R a b → R b a
  pub ids : (a b : A) → R a b → id_of a ≢ id_of b

module _ {A : Type 0} (id_of : A → String) (R : A → A → Type 0) (d : Differ id_of R) (new : A) where
  -- The new item differs from all items that it does not replace.
  abbrev pub Fits : List A → Type 0
  Fits = All (λ x. id_of x ≢ id_of new → R new x)

  pub All-put_item :
      (P : A → Type 0) (xs : List A) → P new → All P xs → All P (put_item id_of (id_of new) new xs)
  unfolding put_item
  All-put_item P [] p h = (p, tt)
  All-put_item P (x ∷ xs) p h = elim (Bool-cases (str_eq (id_of x) (id_of new))) [
    | inl here ↦ rw here (p, h.1)
    | inr other ↦ rw other (h.0, All-put_item P xs p h.1)
  ]

  pub put_item-Pairwise :
      (xs : List A) → Fits xs → Pairwise R xs → Pairwise R (put_item id_of (id_of new) new xs)
  unfolding put_item
  put_item-Pairwise [] fits h = (tt, tt)
  put_item-Pairwise (x ∷ xs) fits h = elim (Bool-cases (str_eq (id_of x) (id_of new))) [
    | inl here ↦
        let same : id_of x ≡ id_of new = (eq_iff (id_of x) (id_of new)).0 here in
        rw here
          (All-zip (λ y fit apart. fit (λ e. d.ids x y apart (same ∙ sym e))) xs fits.1 h.0, h.1)
    | inr other ↦
        let ne : id_of x ≢ id_of new = λ e. ground (arith, eq_iff (id_of x) (id_of new)) in
        rw other (
          All-put_item (R x) xs (d.symmetric new x (fits.0 ne)) h.0,
          put_item-Pairwise xs fits.1 h.1,
        )
  ]

module _ {A : Type 0} (id_of : A → String) (id : String) where
  pub All-remove_item : (P : A → Type 0) (xs : List A) → All P xs → All P (remove_item id_of id xs)
  unfolding remove_item
  All-remove_item P [] h = tt
  All-remove_item P (x ∷ xs) h = elim (Bool-cases (str_eq (id_of x) id)) [
    | inl here ↦ rw here h.1
    | inr other ↦ rw other (h.0, All-remove_item P xs h.1)
  ]

  pub remove_item-Pairwise :
      (R : A → A → Type 0) (xs : List A) → Pairwise R xs → Pairwise R (remove_item id_of id xs)
  unfolding remove_item
  remove_item-Pairwise R [] h = tt
  remove_item-Pairwise R (x ∷ xs) h = elim (Bool-cases (str_eq (id_of x) id)) [
    | inl here ↦ rw here h.1
    | inr other ↦ rw other (All-remove_item (R x) xs h.0, remove_item-Pairwise R xs h.1)
  ]

-- A value that no other item uses.
pub column-unused :
    {A B : Type 0} (id_of : A → String) (keep : A → Bool) (value : A → B) (q : B → Bool)
    (exclude : String) (xs : List A)
    → any q (column id_of keep value exclude xs) ≡ false
    → All (λ x. id_of x ≢ exclude → keep x ≡ true → q (value x) ≡ false) xs
unfolding column
column-unused id_of keep value q exclude [] h = tt
column-unused id_of keep value q exclude (x ∷ xs) h = (
  λ ne kept. ground (arith, eq_iff (id_of x) exclude),
  column-unused id_of keep value q exclude xs (ground arith),
)

some-injective : {A : Type 0} (a b : A) → some a ≡ some b → a ≡ b
some-injective a b e = cc

pub find_item-id :
    {A : Type 0} (id_of : A → String) (id : String) (xs : List A) (x : A)
    → find_item id_of id xs ≡ some x
    → id_of x ≡ id
unfolding find_item
find_item-id id_of id [] x e = absurd cc
find_item-id id_of id (y ∷ ys) x e = elim (Bool-cases (str_eq (id_of y) id)) [
  | inl here ↦
      let same : some y ≡ some x = rw (here, find_item) at e in
      ap id_of (some-injective x y (sym same)) ∙ (eq_iff (id_of y) id).0 here
  | inr other ↦ find_item-id id_of id ys x (rw (other, find_item) at e)
]

-- What holds of every item holds of the one that is found.
pub find_item-All :
    {A : Type 0} (id_of : A → String) (P : A → Type 0) (id : String) (xs : List A) (x : A)
    → All P xs
    → find_item id_of id xs ≡ some x
    → P x
unfolding find_item
find_item-All id_of P id [] x h e = absurd cc
find_item-All id_of P id (y ∷ ys) x h e = elim (Bool-cases (str_eq (id_of y) id)) [
  | inl here ↦ subst P (some-injective y x (rw (here, find_item) at e)) h.0
  | inr other ↦ find_item-All id_of P id ys x h.1 (rw (other, find_item) at e)
]

-- The item that is found differs from all others.
pub find_item-Fits :
    {A : Type 0} (id_of : A → String) (R : A → A → Type 0) (d : Differ id_of R) (id : String)
    (xs : List A) (t : A)
    → Pairwise R xs
    → find_item id_of id xs ≡ some t
    → Fits id_of R d t xs
unfolding find_item
find_item-Fits id_of R d id [] t h e = tt
find_item-Fits id_of R d id (x ∷ xs) t h e = elim (Bool-cases (str_eq (id_of x) id)) [
  | inl here ↦
      let same : x ≡ t = some-injective x t (rw (here, find_item) at e) in
      subst (λ u. Fits id_of R d u (x ∷ xs)) same
        (λ ne. absurd (ne refl), All-map {P = R x} (λ y apart ne. apart) xs h.0)
  | inr other ↦
      let later : find_item id_of id xs ≡ some t = rw (other, find_item) at e in
      (
        λ ne. d.symmetric x t (find_item-All id_of (R x) id xs t h.0 later),
        find_item-Fits id_of R d id xs t h.1 later,
      )
]
