-- ===== src/Accounts/Registration/Slugs.antt =====
-- The loop of registration for a free slug: its rounds, and the slugs that are taken.

use reconcileflow_ai.Prelude.{
  ℕ, zero, suc, ◌≡◌, Bool, false, List, [], ◌∷◌, any, if◌then◌else◌, All, Text, text_eq,
}
use reconcileflow_ai.Accounts.Records.{Accounts}
use reconcileflow_ai.Accounts.Registration.{suffixed}

-- The list without its first text that is equal to one.
without : Text → List Text → List Text
without x [] = []
without x (y ∷ ys) = if text_eq y x then ys else y ∷ without x ys

-- `any(y == x for y in ys)`
abbrev among : Text → List Text → Bool
among x ys = any (λ y. text_eq y x) ys

-- No text is twice in the list.
abbrev pub Different : List Text → Type 0
Different [] = Unit
Different (x ∷ xs) = All (λ y. text_eq y x ≡ false) xs × Different xs

-- The slugs that a number of rounds tries.
unfoldable pub tried : Text → (ℕ → Text) → ℕ → Text → ℕ → List Text
tried base_slug suffix n slug zero = []
tried base_slug suffix n slug (suc rounds) =
    slug ∷ tried base_slug suffix (suc n) (suffixed base_slug (suffix n)) rounds
