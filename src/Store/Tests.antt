-- ===== src/Store/Tests.antt =====
-- Writes of small records, and each theorem at an input that meets its hypotheses.
use Prim.Native.Nat.{◌≤◌}
use mathlib.Core.List.{Memᴰ}
use agentic_alpha_engine.Prelude.{
  ◌∷◌, All, keep, sorted, place, text_le, ◌≡◌, refl, String, none, some, [], String_eq, ℕ_eq, ×_eq,
  ◌==◌, if◌then◌else◌,
}
use agentic_alpha_engine.Dict.{lookup, insert}
use agentic_alpha_engine.Effects.{ok, err, other}
use agentic_alpha_engine.Store.Versioned.{
  Contracts, Records, identifier, first_identifier, put_at, put, get, conflicts, put_pair,
  put_workspace_with_universe,
}
use agentic_alpha_engine.Store.Immutability.{Writes, here, puts, puts_pair, get_kept}
use agentic_alpha_engine.Store.Listing.{
  workspace_of, workspaces, latest_of, list_workspaces, first_workspace, latest_workspace,
}
use agentic_alpha_engine.Store.Latest.{latest_workspace-greatest}
use agentic_alpha_engine.Store.Pairs.{Paired, pair_atomic}

-- a record by its class, its identifier and its content
abbrev contracts : Contracts
contracts = record {
  Record = String × (String × String);
  class_name = λ r. r.0;
  attribute = λ r field.
      if field == (if r.0 == "UniverseSpec" then "universe_id" else "workspace_id")
      then some r.1.0
      else none;
  version = λ r. 1;
  content_sha256 = λ r. r.1.1;
  decimal = λ n. "1";
  key_text = λ k. k.0;
  pair_text = λ k. k.0;
}

abbrev workspace : String × (String × String)
workspace = ("DomainWorkspace", ("w1", "a"))

abbrev edited : String × (String × String)
edited = ("DomainWorkspace", ("w1", "b"))

abbrev universe : String × (String × String)
universe = ("UniverseSpec", ("u1", "c"))

program : Unit {0}
unfolding lookup insert identifier first_identifier put_at put get conflicts put_pair
    put_workspace_with_universe
program = tt

abbrev stored : Records contracts
stored = (put contracts workspace []).1

abbrev later : Records contracts
later = (put_workspace_with_universe contracts edited universe (put contracts edited stored).1).1

found : get contracts "DomainWorkspace" "w1" 1 stored ≡ ok workspace
unfolding program
found = refl

-- The edited record is refused, alone and with a universe, which is not stored then either.
refused_alone :
    (put contracts edited stored).0
    ≡ err (other "ImmutableVersionError" "DomainWorkspace w1 version 1 is immutable")
unfolding program
refused_alone = refl

no_universe : lookup ("UniverseSpec", ("u1", 1)) later ≡ none
unfolding program
no_universe = refl

to_later : Writes contracts stored later
to_later = puts_pair edited universe (puts edited here)

get_kept_example : get contracts "DomainWorkspace" "w1" 1 later ≡ ok workspace
get_kept_example = get_kept contracts "DomainWorkspace" "w1" 1 stored later workspace found to_later

pair_atomic_example :
    Paired contracts edited universe stored
      (put_workspace_with_universe contracts edited universe stored)
pair_atomic_example = pair_atomic contracts edited universe stored

-- the second version of one workspace, stored before another workspace
abbrev second_version : String × (String × String)
second_version = ("DomainWorkspace", ("w1", "b2"))

abbrev versioned : Contracts
versioned = record {
  Record = String × (String × String);
  class_name = λ r. r.0;
  attribute = λ r field. if field == "workspace_id" then some r.1.0 else none;
  version = λ r. if r.1.1 == "b2" then 2 else 1;
  content_sha256 = λ r. r.1.1;
  decimal = λ n. "1";
  key_text = λ k. k.0;
  pair_text = λ k. k.0;
}

abbrev versions : Records versioned
versions =
    (("DomainWorkspace", ("w1", 1)), workspace)
    ∷ (("DomainWorkspace", ("w1", 2)), second_version)
    ∷ (("DomainWorkspace", ("w0", 1)), ("DomainWorkspace", ("w0", "a")))
    ∷ []

latest_workspace_second : latest_workspace versioned "w1" versions ≡ ok second_version
unfolding latest_workspace list_workspaces first_workspace latest_of lookup insert keep sorted place
    text_le
latest_workspace_second = refl

latest_workspace-greatest_example :
    Memᴰ second_version (workspaces versioned versions)
    × (workspace_of versioned second_version ≡ "w1")
    × All
        (λ x. workspace_of versioned x ≡ "w1" → versioned.version x ≤ 2)
        (workspaces versioned versions)
latest_workspace-greatest_example =
    latest_workspace-greatest versioned "w1" versions second_version latest_workspace_second
