-- ===== src/Resolution/Select.antt =====
-- The selection of one name in resolve_closure: by a path, by a commit or by a range.
use curator_spec.Prelude.{
  Bool, List, Option, Ordering, Result, String, [], any, err, false, if◌then◌else◌, none, not, ok,
  raise_if, some, str_eq, true, ◌&&◌, ◌++◌, ◌>>=◌, ◌>>◌, ◌∷◌,
}
use curator_spec.Text.{codes, text_eq}
use curator_spec.SemVer.{Version, semver_parse, semver_parse_tag, semver_text, semver_compare}
use curator_spec.Range.{range_parse, range_satisfies}
use curator_spec.Resolution.{
  Form, range, tag, revision, path, Manifest, Overlay, Package, Input, Constraint, Selection, find,
  index,
}
use curator_spec.Resolution.Candidates.{Ranges, candidates_of, sort, choose}

-- what the constraints on a name ask for
pub record Wanted : Type 0 where
  pub path_decl : Option Overlay
  pub exact : List String
  pub ranges : Ranges

unfoldable pub collect_one : Input → String → Wanted → Constraint → Form → Result Wanted
unfolding range_parse index find
collect_one inp name w c path = ok (record w { path_decl = c.overlay })
collect_one inp name w c (range text) = elim (range_parse text) [
  | none ↦ err "profile_source_invalid"
  | some r ↦ ok (record w { ranges = w.ranges ++ r ∷ [] })
]
collect_one inp name w c (tag t) = index name inp.packages >>= λ pkg. elim (find t pkg.tags) [
  | none ↦ err "profile_source_invalid"
  | some commit ↦ ok (record w { exact = w.exact ++ commit ∷ [] })
]
collect_one inp name w c (revision commit) = ok (record w { exact = w.exact ++ commit ∷ [] })

unfoldable pub collect : Input → String → Wanted → List Constraint → Result Wanted
unfolding collect_one
collect inp name w [] = ok w
collect inp name w (c ∷ cs) = collect_one inp name w c c.form >>= λ w'. collect inp name w' cs

unfoldable pub select_path : String → Overlay → Result Selection
unfolding semver_parse
select_path kind o = elim o.local [
  | none ↦ err "KeyError"
  | some (manifest, sha) ↦ ok (record {
    kind = kind;
    version = semver_parse manifest.version;
    commit = none;
    state = some sha;
    source = none;
    directory = none;
    manifest = some manifest;
    overlay = some o;
  })
]

-- the greater of two versions; an equal one does not replace the first
unfoldable pub greater : Option Version → Option Version → Option Version
unfolding semver_compare
greater best none = best
greater none (some v) = some v
greater (some b) (some v) = elim (semver_compare v b) [ Ordering.gt ↦ some v | _ ↦ some b ]

-- the greatest version that a tag of the commit names
unfoldable pub tagged_version : String → Option Version → List (String × String) → Option Version
unfolding greater semver_parse_tag
tagged_version commit best [] = best
tagged_version commit best ((t, c) ∷ tags) =
    tagged_version commit
      (if str_eq c commit then greater best (semver_parse_tag (codes t)) else best) tags

unfoldable pub exact_version : String → Package → String → Option Manifest → Result (Option Version)
unfolding tagged_version semver_parse
exact_version kind pkg commit manifest =
    if str_eq kind "skill" then ok (tagged_version commit none pkg.tags) else elim manifest [
      | none ↦ err "context_manifest_invalid"
      | some m ↦ elim (semver_parse m.version) [
        | none ↦ err "context_manifest_invalid"
        | some v ↦ ok (some v)
      ]
    ]

-- every range holds of the version, if there is a version
unfoldable pub within_ranges : Ranges → Option Version → Bool
unfolding range_satisfies
within_ranges [] v = true
within_ranges (r ∷ rs) none = false
within_ranges (r ∷ rs) (some v) = range_satisfies r v && within_ranges rs (some v)

unfoldable pub select_exact :
    Input → String → String → Option String → String → List String → Ranges → Result Selection
unfolding index find exact_version within_ranges
select_exact inp name kind directory commit others ranges =
    if any (λ c. not (str_eq c commit)) others then err "context_range_conflict" else do
      pkg ← index name inp.packages
      let manifest = find commit pkg.commits
      version ← exact_version kind pkg commit manifest
      raise_if (not (within_ranges ranges version)) "context_range_conflict"
      ok (record {
        kind = kind;
        version = version;
        commit = some commit;
        state = none;
        source = some pkg.source;
        directory = directory;
        manifest = manifest;
        overlay = none;
      })

-- the manifest of the commit has the version of the tag
abbrev pub names_version : Option Manifest → Version → Bool
names_version none v = false
names_version (some m) v = text_eq m.version (semver_text v)

unfoldable pub select_range :
    Input → Option Version → String → String → Option String → Ranges → Result Selection
unfolding index find candidates_of sort choose text_eq semver_text
select_range inp ceiling name kind directory ranges = do
  pkg ← index name inp.packages
  elim (choose ranges ceiling (sort (candidates_of pkg.tags))) [
    | none ↦ err "context_range_conflict"
    | some c ↦
        let manifest = find c.commit pkg.commits in
        if not (str_eq kind "skill") && not (names_version manifest c.version)
        then err "context_version_mismatch"
        else ok (record {
          kind = kind;
          version = some c.version;
          commit = some c.commit;
          state = none;
          source = some pkg.source;
          directory = directory;
          manifest = manifest;
          overlay = none;
        })
  ]

unfoldable pub select :
    Input → Option Version → String → String → Option String → Wanted → Result Selection
unfolding select_path select_exact select_range
select inp ceiling name kind directory w = elim w.path_decl [
  | some o ↦ select_path kind o
  | none ↦ elim w.exact [
    | [] ↦ select_range inp ceiling name kind directory w.ranges
    | commit ∷ others ↦ select_exact inp name kind directory commit others w.ranges
  ]
]

-- the last overlay among the constraints, or what there is
unfoldable pub last_overlay : Option Overlay → List Constraint → Option Overlay
last_overlay o [] = o
last_overlay o (c ∷ cs) = last_overlay (elim c.overlay [ none ↦ o | some p ↦ some p ]) cs

-- the next selection of a name, by the constraints on it, the first of which is `first`
unfoldable pub next_selection :
    Input → Option Version → String → Constraint → List Constraint → Result Selection
unfolding collect select last_overlay
next_selection inp ceiling name first cs = do
  w ← collect inp name (record { path_decl = none; exact = []; ranges = [] }) cs
  nxt ← select inp ceiling name first.kind first.directory w
  ok (record nxt { overlay = last_overlay nxt.overlay cs })
