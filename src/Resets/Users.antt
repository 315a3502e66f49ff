-- ===== src/Resets/Users.antt =====
-- The user that an identifier names in baseline/password_reset_service.py is one of the users.
use fake_ui.Prelude.{
  String, some, is_empty, str_eq, ◌≡◌, refl, eq_refl, [], ◌∷◌, All, Option-cases, Bool-cases, inl,
  inr,
}
use mathlib.Core.Path.{subst}
use fake_ui.Prelude.Text.{strip, lower}
use fake_ui.Prelude.Table.{Table, lookup}
use fake_ui.Prelude.Result.{ok}
use fake_ui.Catalog.Distinct.{All-map}
use fake_ui.Resets.{with_email, matched, Account, matching_user}

-- A name that the users have.
abbrev pub IsUser : Table Account → String × Account → Type 0
IsUser users row = (a : Account) × (lookup row.0 users ≡ some a)

IsUser-later :
    (name : String) (u : Account) (users : Table Account) (row : String × Account)
    → IsUser users row
    → IsUser ((name, u) ∷ users) row
unfolding lookup
IsUser-later name u users row (a, found) = elim (Bool-cases (str_eq name row.0)) [
  | inl same ↦ (u, rw same refl)
  | inr other ↦ (a, rw other found)
]

with_email-IsUser :
    (email : String) (users : Table Account) → All (IsUser users) (with_email email users)
unfolding with_email lookup
with_email-IsUser email [] = tt
with_email-IsUser email ((name, u) ∷ users) =
    let later =
      All-map (IsUser-later name u users) (with_email email users)
        (with_email-IsUser email users) in
    elim (Bool-cases (str_eq (lower u.email) (lower email))) [
      | inl same ↦ rw same ((u, rw (eq_refl name) refl), later)
      | inr other ↦ rw other later
    ]

matched-IsUser :
    (users listed : Table Account) (row : String × Account)
    → All (IsUser users) listed
    → matched listed ≡ ok (some row)
    → IsUser users row
matched-IsUser users [] row h e = absurd cc
matched-IsUser users (m ∷ []) row h e = let same : m ≡ row = cc e in subst (IsUser users) same h.0
matched-IsUser users (m ∷ n ∷ rest) row h e = absurd cc

-- The user that an identifier names is one of the users.
pub matching_user-IsUser :
    (identifier : String) (users : Table Account) (row : String × Account)
    → matching_user identifier users ≡ ok (some row)
    → IsUser users row
unfolding matching_user
matching_user-IsUser identifier users row e =
    let name = strip identifier in
    elim (Bool-cases (is_empty name)) [
      | inl empty ↦ absurd cc (rw empty at e)
      | inr given ↦ elim (Option-cases (lookup name users)) [
        | inl missing ↦
            matched-IsUser users (with_email name users) row (with_email-IsUser name users)
              (rw (given, missing) at e)
        | inr (u, found) ↦
            let same : (name, u) ≡ row = cc ((rw (given, found) at e)) in
            subst (IsUser users) same (u, found)
      ]
    ]
