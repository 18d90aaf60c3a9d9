-- ===== src/Tests/ResolutionRuns.antt =====
-- A resolution of two packages, and Git sources.
use curator_spec.Resolution.Members.{members_of, resolve_closure, Member}
use curator_spec.Prelude.{
  Elem, List, [], arith, false, none, ok, pos, refl, some, true, ◌↔◌, ◌∷◌, ◌≡◌, ◌≢◌, ◌⊎◌,
}
use curator_spec.Text.{codes}
use curator_spec.Resolution.{
  range, Requirement, Manifest, Package, Input, Constraint, Selection, Resolver,
}
use curator_spec.Resolution.Candidates.{candidates_of, sort, choose}
use curator_spec.Resolution.Highest.{IsHighest, choose-IsHighest}
use curator_spec.Resolution.Loop.{resolve_constraints, root_constraint}
use curator_spec.Resolution.Satisfied.{IsMet, resolved-IsMet}
use curator_spec.Range.{version}
use curator_spec.Text.Split.{before, after}
use curator_spec.Sources.Git.{
  is_below_or_equal, validate_repository_git, validate_git_ref_name, validate_network_value,
}
use curator_spec.Sources.Below.{Below, below-Below}
use curator_spec.Sources.Accepted.{IsAccepted, git-IsAccepted}

abbrev needs_tools : Requirement
needs_tools = record {
  name = "tools";
  kind = "skill";
  form = range (codes "^1.0");
  weight = none;
  directory = none;
}

abbrev install : Requirement
install = record {
  name = "base";
  kind = "context";
  form = range (codes ">=1.0.0");
  weight = none;
  directory = none;
}

abbrev base_manifest : Manifest
base_manifest = record {
  version = codes "1.1.0";
  weight = some (pos 5);
  weights = ("base", pos 7) ∷ [];
  requires = needs_tools ∷ [];
}

abbrev base : Package
base = record {
  source = "example.com/base";
  tags = ("v1.0.0", "c1") ∷ ("v1.1.0", "c2") ∷ [];
  commits = ("c2", base_manifest) ∷ [];
}

abbrev tools : Package
tools = record {
  source = "example.com/tools";
  tags = ("v2.0.0", "t3") ∷ ("v1.4.0", "t2") ∷ ("v1.2.0", "t1") ∷ ("nightly", "t4") ∷ [];
  commits = [];
}

abbrev input : Input
input = record {
  install = install;
  packages = ("base", base) ∷ ("tools", tools) ∷ [];
  overlays = [];
  overlay_default_weight = none;
}

abbrev base_selected : Selection
base_selected = record {
  kind = "context";
  version = some (version 1 1 0 []);
  commit = some "c2";
  state = none;
  source = some "example.com/base";
  directory = none;
  manifest = some base_manifest;
  overlay = none;
}

abbrev tools_selected : Selection
tools_selected = record {
  kind = "skill";
  version = some (version 1 4 0 []);
  commit = some "t2";
  state = none;
  source = some "example.com/tools";
  directory = none;
  manifest = none;
  overlay = none;
}

abbrev tools_constraint : Constraint
tools_constraint = record {
  name = "tools";
  kind = "skill";
  requirer = codes "base@1.1.0";
  requirer_of = "base";
  form = range (codes "^1.0");
  weight = none;
  directory = none;
  overlay = none;
}

abbrev end : Resolver
end = record {
  constraints = root_constraint install ∷ tools_constraint ∷ [];
  selected = ("tools", tools_selected) ∷ ("base", base_selected) ∷ [];
  ceiling = ("tools", version 1 4 0 []) ∷ ("base", version 1 1 0 []) ∷ [];
  pending = [];
}

resolves_to : resolve_constraints 3 input ≡ some (ok end)
unfolding resolve_constraints
resolves_to = refl

resolved-IsMet_example :
    (end.pending ≡ []) × ((c : Constraint) → Elem c end.constraints → IsMet end c)
resolved-IsMet_example = resolved-IsMet 3 input end resolves_to

choose-IsHighest_example :
    IsHighest [] none (candidates_of tools.tags) (choose [] none (sort (candidates_of tools.tags)))
choose-IsHighest_example = choose-IsHighest [] none tools.tags

below-Below_example :
    (is_below_or_equal (codes "skills/app") (codes "skills") ≡ true)
    ↔ ((codes "skills" ≡ codes ".") ⊎ Below (codes "skills/app") (codes "skills"))
below-Below_example = below-Below (codes "skills/app") (codes "skills")

no_prefix_of_a_component : is_below_or_equal (codes "skills2") (codes "skills") ≡ false
unfolding is_below_or_equal
no_prefix_of_a_component = refl

ssh_accepted : validate_repository_git (some (codes "git@example.com:team/app.git")) ≡ none
unfolding validate_repository_git before after
ssh_accepted = refl

git-IsAccepted_example : IsAccepted (codes "git@example.com:team/app.git")
git-IsAccepted_example = git-IsAccepted (codes "git@example.com:team/app.git") ssh_accepted

ref_names :
    (validate_git_ref_name (some (codes "release/v1.2")) ≡ none)
    × (validate_git_ref_name (some (codes "@")) ≢ none)
    × (validate_git_ref_name (some (codes "topic.lock/x")) ≢ none)
unfolding validate_git_ref_name
ref_names = (refl, λ e. ground arith, λ e. ground arith)

network_names :
    (validate_network_value (codes "example.com/team/app") false ≡ none)
    × (validate_network_value (codes "example.com/team/app.git") false ≢ none)
unfolding validate_network_value before after
network_names = (refl, λ e. ground arith)

abbrev lock : List Member
lock =
    record {
      kind = "context";
      name = "base";
      weight = pos 7;
      required_by = [];
      overlay = false;
      state_sha256 = none;
      source = some "example.com/base";
      commit = some "c2";
      directory = none;
      version = some (codes "1.1.0");
    }
    ∷ record {
      kind = "skill";
      name = "tools";
      weight = pos 0;
      required_by = "base" ∷ [];
      overlay = false;
      state_sha256 = none;
      source = some "example.com/tools";
      commit = some "t2";
      directory = none;
      version = some (codes "1.4.0");
    }
    ∷ []

locks_to : resolve_closure 3 input ≡ some (ok (lock, []))
unfolding resolve_closure
locks_to = refl

listed_members :
    members_of input "base" (("base", pos 7) ∷ []) end ("base" ∷ "tools" ∷ []) ≡ ok (lock, [])
unfolding members_of
listed_members = refl
