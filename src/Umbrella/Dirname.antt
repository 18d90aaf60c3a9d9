-- ===== src/Umbrella/Dirname.antt =====
-- The directory and the last part of a path of the umbrella.
use mathlib.Core.List.{reverse-append, reverse-cons, reverse-reverse}
use curator_spec.Prelude.{
  Bool-cases, [], ap, append_assoc, arith, if◌then◌else◌, inl, inr, refl, reverse, true, ℕ, ◌++◌,
  ◌==◌, ◌∙◌, ◌∷◌, ◌≡◌,
}
use curator_spec.Text.{has, is_empty, Text, codes}
use curator_spec.Text.Split.{before, after, after-append, has-append, Lacks}
use curator_spec.Umbrella.{head_name, base_name, below, drop_slashes, umbrella_dirname}

has-reverse : (c : ℕ) (s : Text) → has c (reverse s) ≡ has c s
has-reverse c [] = refl
has-reverse c (d ∷ s) =
    ap (has c) (reverse-cons d s)
    ∙ has-append c (reverse s) (d ∷ [])
    ∙ ground (arith, has-reverse c s)

before-Lacks_sep : (sep : ℕ) (s : Text) → Lacks sep (before sep s)
unfolding before
before-Lacks_sep sep [] = refl
before-Lacks_sep sep (c ∷ s) = ground (arith, before-Lacks_sep sep s)

pub base_name-Lacks : (path : Text) → Lacks b'/' (base_name path)
unfolding base_name
base_name-Lacks path =
    has-reverse b'/' (before b'/' (reverse path)) ∙ before-Lacks_sep b'/' (reverse path)

drop_slashes_twice : (s : Text) → drop_slashes (drop_slashes s) ≡ drop_slashes s
drop_slashes_twice [] = refl
drop_slashes_twice (c ∷ s) = elim (Bool-cases (c == b'/')) [
  | inl e ↦ ground (arith, e, drop_slashes_twice s)
  | inr e ↦ ground (arith, e)
]

head_name-append : (dir name : Text) → Lacks b'/' name → head_name (dir ++ b'/' ∷ name) ≡ dir
unfolding head_name
head_name-append dir name h =
    ap (λ s. reverse (after b'/' s))
      (reverse-append dir (b'/' ∷ name)
        ∙ ap (λ s. s ++ reverse dir) (reverse-cons b'/' name)
        ∙ append_assoc (reverse name) (b'/' ∷ []) (reverse dir))
    ∙ ap reverse (after-append b'/' (reverse name) (reverse dir) (has-reverse b'/' name ∙ h))
    ∙ reverse-reverse dir

-- a directory without slashes at its end
abbrev stripped : Text → Text
stripped entry = reverse (drop_slashes (reverse entry))

has-middle : (c : ℕ) (s t : Text) → has c (s ++ c ∷ t) ≡ true
has-middle c s t = ground (arith, has-append c s (c ∷ t))

abbrev directory_of : Text → Text
directory_of dir = if is_empty dir then codes "/" else dir

umbrella_dirname-append :
    (dir name : Text) → Lacks b'/' name → umbrella_dirname (dir ++ b'/' ∷ name) ≡ directory_of dir
unfolding umbrella_dirname
umbrella_dirname-append dir name h =
    rw (has-middle b'/' dir name) (rw (head_name-append dir name h) refl)

below-directory_of :
    (dir name : Text) → stripped dir ≡ dir → below (directory_of dir) name ≡ dir ++ b'/' ∷ name
unfolding below
below-directory_of [] name s = refl
below-directory_of (c ∷ dir) name s = ap (λ d. d ++ b'/' ∷ name) s

-- the file of that name in the directory of `entry/name` is `entry/name`
pub below-dirname :
    (entry name : Text)
    → Lacks b'/' name
    → below (umbrella_dirname (below entry name)) name ≡ below entry name
unfolding below
below-dirname entry name h =
    ap (λ d. stripped d ++ b'/' ∷ name) (umbrella_dirname-append (stripped entry) name h)
    ∙ below-directory_of (stripped entry) name (
        ap reverse (
          ap drop_slashes (reverse-reverse (drop_slashes (reverse entry)))
          ∙ drop_slashes_twice (reverse entry)))
