-- ===== src/Lib.antt =====
-- curator-spec: the executable part of the specification, tools/validate.py and the small oracles
-- beside it. They recompute what the conformance vectors must say and refuse a vector that says
-- otherwise.
--
-- Prelude passes on the libraries' names and holds the shared tests, lists and results: code that
-- raises ValidationFailure returns Result, whose error is the message without its interpolated
-- parts. Json is what load_json of tools/validate.py returns, and Python's reads of it (a missing
-- key is null, 1 == True). Cases is require_named_cases, which each vector gate runs first and on
-- whose promise (Cases.IsNamed) the gates' theorems rest. Text holds Python texts as lists of
-- code points with split, join, partition, strip, str and int.
--
-- Registry has a module for each registry gate of tools/validate.py. PageBoundary, Checkpoint and
-- Bootstrap each hold the expected_*_verdict function, the require_*_scenario pins where there
-- are some, and the validate_registry_*_vectors gate that composes them over a decoded suite;
-- their children hold the theorems. The gates read files only to obtain their arguments, so the
-- files are arguments here.
--
-- SemVer is semver_parse, semver_text and semver_compare; Python's -1, 0, 1 are lt, eq and gt.
-- Range is _parse_partial, _desugar, range_parse, _comparator_matches and range_satisfies, with
-- RangeInvalid as none.
--
-- WorkspaceTrust is tools/workspace_trust.py. Paths holds exact_path, within and remote_safe,
-- with PurePosixPath written out and PureWindowsPath and urlsplit as the fields of a parameter,
-- Library. Model holds the records; Admission is discover and admit; Step and Grant are step, one
-- function per operation, where the list of records that the source mutates in place is a list
-- that is mapped. A state that step leaves and what it observes is an Outcome, and none is the
-- ContractError of an unknown operation. Outcomes says what a property of outcomes must hold of,
-- to hold of every step; Ledger, Consent and Replay use it.
--
-- Sources.Git holds the checks of Git sources, network identities and ref names of
-- tools/validate.py; each regular expression there has one way to match a text, by its first
-- separator; Sources.Effective is validate_effective_source, and Sources.Names says what a ref
-- name must be. Resolution is resolve_closure of tools/validate.py: Candidates is the list of
-- tagged versions and the choice from it, Select is the selection of one name, Loop is the loop
-- over the pending names and the final check, and Members holds the weights and the members of
-- the lock. A raised ResolutionError is the err of its diagnostic, a missing key the err
-- KeyError; a JSON member that is null reads as one that is missing.
--
-- The fuel of Resolution.Loop.resolve_pending counts iterations of the loop, and none is a fuel
-- that was too small.
--
-- Environment is the materialization of environments in tools/validate.py. Order is
-- environment_precedence and environment_emitted_order over the members that Resolution.Members
-- puts into a lock; Kahn is its loop, whose rounds are the contexts that are not yet emitted, so
-- that no fuel is chosen. Prelude.Sorting holds the stable sort that stands for sorted(). Toml is
-- toml_basic_string, and TomlReader is an independent reader of such strings by the grammar of
-- TOML. Modules is the admission of system modules, over packages as lists of modules, whose
-- class is "root" where a manifest states none; Weights, Contexts, Offers and Direct say of the
-- weights, the contexts, the modules and the packages what the theorems need.
--
-- Umbrella is the model of subcommand providers in tools/validate.py: umbrella_expected of a case
-- is the pair of what revisions A and B of the dispatcher expect, where an Outcome stands for the
-- dict of an outcome. The parameter str_of is Python's str of a value that is no text.
--
-- Signers is the E1 part of tools/validate.py. Signers itself holds the verdict on the top
-- candidate of a source; Signers.Merge is e1_expected_merge; Signers.Delta holds the members and
-- the lines of a delta, as data that print_line prints, Signers.Trigger what an update must
-- confirm, and Signers.Posture the rows of e1_expected_posture. The two loops that collect the
-- trigger are one pass over the new members, since the result is sorted. Canonical is ccj1_bytes,
-- with json.dumps and its encoding, which may raise UnicodeEncodeError, as the parameter dumps.
--
-- Surfacing is the S4 part of tools/validate.py: Surfacing itself holds s4_surfacing_row and
-- s4_parse_surfacing_row, where a None is an err, and Surfacing.Pass the names that pass to a
-- launch. Of json, compact stands for the compact json.dumps of a list of texts, and decode for
-- raw_decode, which gives the value at the start of a text and the number of its characters.
--
-- PolicyGrant is tools/workspace_policy_grant.py. Remote is canonical_remote, Shape is
-- record_error, Launch is decision: each if of the source is a condition over JSON values that
-- may raise, and refusals lists them in their order. An Environment gives the parameters:
-- validation by the JSON Schema, datetime.fromisoformat as a function to integers, json.dumps,
-- SHA-256 and how floats compare. A name that the source binds before a condition is a reading in
-- front of it. Revoke is revoke, over records of what it reads and writes; its deep copies are
-- values; Spelled says how a remote is spelled, Shaped what an admitted record is, and Cleaned
-- what becomes of a key.
--
-- Posture is the security posture of tools/validate.py. Resolve is _posture_resolve, in a part
-- that checks the members of a case and one that settles each value, Diagnostics is
-- _posture_diagnostics and the outcome that the gate derives, Rows is _posture_status_rows,
-- Scenarios is the table of scenario pins and Scenario what is checked of them, and Gate is
-- validate_security_posture_vectors; Conditions says when an install is refused. A setting is a
-- value with its source, and the two dicts that the source returns are read off the settings.
-- Json.Equal is Python's equality of decoded values, and Json.Read holds expressions that may
-- raise.
--
-- Bounds: numbers of versions are unbounded, as in Python. Text.Decimal.decimal prints n with
-- fuel n + 1, which is more than n has digits (Text.Decimal.number-decimal rests on it). Python's
-- limit on the digits that int() reads is left out. Floats occur only as JSON values, by the text
-- that Python prints for them.
--
-- Not modelled: reading files, JSON Schema validation, hashing and signatures, Git, processes and
-- the command line of main(). Gates that compare fixed files with fixed tables are left out, and
-- so are the oracles of tools/effective_posture.py, tools/native_root_admission.py,
-- tools/rc7_carriers.py, tools/protected_inventory.py and tools/codex_seed_c.py, and the release
-- tools.
mod Prelude
pub mod Json
pub mod Cases
pub mod Text
pub mod SemVer
pub mod Range
pub mod Sources
pub mod Resolution
pub mod Environment
pub mod Umbrella
pub mod Signers
pub mod Canonical
pub mod Surfacing
pub mod PolicyGrant
pub mod Posture
pub mod WorkspaceTrust
mod Tests
pub mod Registry
