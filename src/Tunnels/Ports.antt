-- ===== src/Tunnels/Ports.antt =====
-- `next_portal_port`: the first port from 18081 on that no tunnel has.
use fake_ui.Prelude.{
  ℕ, zero, suc, ◌+◌, ◌≤◌, ◌<◌, Bool, true, false, ◌==◌, List, [], ◌∷◌, length, any, if◌then◌else◌,
  ◌≡◌, refl, sym, ◌∙◌, arith, Bool-cases, inl, inr,
}
use fake_ui.Tunnels.{Tunnel, used_values}

abbrev pub has_port : ℕ → List ℕ → Bool
has_port port used = any (λ p. port == p) used

-- `while port in used: port += 1`, with a round for each used port and one more
unfoldable pub next_free : ℕ → List ℕ → ℕ → ℕ
next_free zero used port = port
next_free (suc fuel) used port =
    let later = next_free fuel used (port + 1) in if has_port port used then later else port

unfoldable pub next_portal_port : List Tunnel → ℕ
unfolding next_free used_values
next_portal_port tunnels =
    let used = (used_values tunnels "").ports in next_free (suc (length used)) used 18081

unfoldable pub without : ℕ → List ℕ → List ℕ
without port [] = []
without port (p ∷ used) = let rest = without port used in if port == p then rest else p ∷ rest

length-without_le : (port : ℕ) (used : List ℕ) → length (without port used) ≤ length used
unfolding without
length-without_le port [] = omega arith
length-without_le port (p ∷ used) = ground (arith, length-without_le port used)

length-without :
    (port : ℕ) (used : List ℕ)
    → has_port port used ≡ true
    → length (without port used) < length used
unfolding without
length-without port [] h = absurd cc
length-without port (p ∷ used) h =
    ground (arith, length-without port used, length-without_le port used)

has_port-without :
    (port q : ℕ) (used : List ℕ) → port < q → has_port q (without port used) ≡ has_port q used
unfolding without
has_port-without port q [] h = refl
has_port-without port q (p ∷ used) h = ground (arith, has_port-without port q used)

next_free-agree :
    (fuel port : ℕ) (used used' : List ℕ)
    → ((q : ℕ) → port ≤ q → has_port q used ≡ has_port q used')
    → next_free fuel used port ≡ next_free fuel used' port
unfolding next_free
next_free-agree zero port used used' h = refl
next_free-agree (suc fuel) port used used' h =
    rw
      (h port (omega arith), next_free-agree fuel (port + 1) used used' (λ q le. h q (omega arith)))

-- The first number from `port` on that is not used.
pub record IsFirstFree (used : List ℕ) (port free : ℕ) : Type 0 where
  pub above : port ≤ free
  pub unused : has_port free used ≡ false
  pub first : (q : ℕ) → port ≤ q → q < free → has_port q used ≡ true

pub next_free-IsFirstFree :
    (fuel port : ℕ) (used : List ℕ)
    → length used < fuel
    → IsFirstFree used port (next_free fuel used port)
unfolding next_free
next_free-IsFirstFree zero port used h = absurd (omega arith)
next_free-IsFirstFree (suc fuel) port used h = elim (Bool-cases (has_port port used)) [
  | inr free ↦
      rw free
        (record { above = omega arith; unused = free; first = λ q le lt. absurd (omega arith) })
  | inl taken ↦
      let used' = without port used in
      let ih =
        next_free-IsFirstFree fuel (port + 1) used'
          (omega (arith, length-without port used taken)) in
      let free = next_free fuel used' (port + 1) in
      let same : next_free fuel used (port + 1) ≡ free =
        next_free-agree fuel (port + 1) used used'
          (λ q le. sym (has_port-without port q used (omega arith))) in
      rw (taken, same)
        (record {
          above = omega (arith, ih.above);
          unused = sym (has_port-without port free used (omega (arith, ih.above))) ∙ ih.unused;
          first = λ q le lt. elim (Bool-cases (q == port)) [
            | inl here ↦ ground (arith, taken)
            | inr later ↦
                let more : port < q = ground arith in
                sym (has_port-without port q used more) ∙ ih.first q (omega arith) lt
          ];
        })
]

-- The port that a new tunnel gets is the first from 18081 on that no tunnel has.
pub next_portal_port-IsFirstFree :
    (tunnels : List Tunnel)
    → IsFirstFree (used_values tunnels "").ports 18081 (next_portal_port tunnels)
unfolding next_portal_port
next_portal_port-IsFirstFree tunnels =
    let used = (used_values tunnels "").ports in
    next_free-IsFirstFree (suc (length used)) 18081 used (omega arith)
