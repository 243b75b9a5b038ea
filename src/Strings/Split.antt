-- ===== src/Strings/Split.antt =====
-- Splitting undoes joining.
use srv_deployment.Prelude.{
  ℕ, ◌≡◌, refl, Bool, true, ◌&&◌, [], ◌∷◌, ◌++◌, arith, ◌!=◌, Text, text_eq, nat_eq, int_eq,
}
use srv_deployment.Strings.{split}

-- No byte of the text is the given one.
unfoldable pub lacks : ℕ → Text → Bool
lacks c [] = true
lacks c (d ∷ s) = d != c && lacks c s

pub split-append :
    (sep : ℕ) (part rest : Text)
    → lacks sep part ≡ true
    → split sep (part ++ sep ∷ rest) ≡ part ∷ split sep rest
unfolding split lacks
split-append sep [] rest h = ground arith
split-append sep (c ∷ part) rest h = ground (arith, split-append sep part rest)

pub split_last : (sep : ℕ) (part : Text) → lacks sep part ≡ true → split sep part ≡ part ∷ []
unfolding split lacks
split_last sep [] h = refl
split_last sep (c ∷ part) h = ground (arith, split_last sep part)
