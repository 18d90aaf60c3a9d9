-- ===== src/Signers/Comment.antt =====
-- The comment behind an SSH key.
use curator_spec.Text.Space.{words}
use curator_spec.Text.{codes, Text}
use curator_spec.Prelude.{String, ap, inl, inr, ℕ, ◌++◌, ◌∙◌, ◌∷◌, ◌≡◌, ◌⊎◌}
use curator_spec.Text.Words.{Solid, words-append, words-Solid}
use curator_spec.Signers.{signer_identity, ssh, ssh_key, key_of}

-- two parts with a space between
abbrev pub spaced : Text → Text → Text
spaced s t = s ++ b' ' ∷ t

-- The identity of an SSH key "<type> <material> <comment>" or "<type> <material>", of a type and a
-- material that are words, is "<type> <material>".
signer_identity-spaced :
    (key : String) (c d : ℕ) (kind material comment : Text)
    → Solid (c ∷ kind)
    → Solid (d ∷ material)
    → (codes key ≡ spaced (c ∷ kind) (spaced (d ∷ material) comment))
      ⊎ (codes key ≡ spaced (c ∷ kind) (d ∷ material))
    → signer_identity (ssh key) ≡ ssh_key (spaced (c ∷ kind) (d ∷ material))
unfolding signer_identity
signer_identity-spaced key c d kind material comment h k (inl e) =
    let read =
      words-append c kind (spaced (d ∷ material) comment) h
      ∙ ap (λ ws. (c ∷ kind) ∷ ws) (words-append d material comment k) in
    ap ssh_key (ap (key_of (codes key)) (ap words e ∙ read))
signer_identity-spaced key c d kind material comment h k (inr e) =
    let read =
      words-append c kind (d ∷ material) h
      ∙ ap (λ ws. (c ∷ kind) ∷ ws) (words-Solid d material k) in
    ap ssh_key (ap (key_of (codes key)) (ap words e ∙ read))
