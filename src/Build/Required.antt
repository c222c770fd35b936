-- ===== src/Build/Required.antt =====
-- `derive_required` of src/authoring/build.rs. The classification map is a function of the
-- filename; an index past the end of the list names no mod.
pub mod Names
pub mod Walk
pub mod Settle
pub mod Entry
pub mod Outcome
use smrt.Base.{
  ℕ, ◌+◌, ◌-◌, ◌/◌, ap, Bool, true, false, not, ◌&&◌, ◌||◌, Option, none, some, List, [], ◌∷◌, ◌++◌,
  map, filter_map, if◌then◌else◌, ◌==◌, ℕ-Eq, length, get_elem?, drop, retain, all, contains, Text,
  txt, Text-Eq,
}
use smrt.Base.Results.{Result, ok, err}
use smrt.Worklist.{push_all, drain, load}
use smrt.Domain.Side.{
  SideClass, client, server, both, MatchPolicy, must_match, PresenceClass, required,
  optional_client, optional_server, optional_both, coremod,
}
use smrt.Domain.Manifest.{Requirement, Display, default_display, ModEntry}
use smrt.Registry.Classify.{Classification, is_non_mod, client_verdict_is_soft, is_client}

abbrev pub Classes : Type 0
Classes = Text → Option Classification

abbrev side_of : Option Classification → Option SideClass
side_of none = none
side_of (some c) = c.side

unfoldable pub side : Classes → ModEntry → Option SideClass
side classes m = side_of (classes m.filename)

abbrev non_mod_of : Option Classification → Bool
non_mod_of none = false
non_mod_of (some c) = is_non_mod c

unfoldable pub non_mod : Classes → ModEntry → Bool
non_mod classes m = non_mod_of (classes m.filename)

abbrev pub is_server : Option SideClass → Bool
is_server (some server) = true
is_server _ = false

-- the loop that opts server-side mods out
unfoldable pub opt_out : Classes → ModEntry → ModEntry
opt_out classes m = if is_server (side classes m) then record m { default_enabled = false } else m

-- the index that the map built from `enumerate` holds: that of the last mod of the name
unfoldable pub index_from : ℕ → List ModEntry → Text → Option ℕ
index_from i [] f = none
index_from i (m ∷ ms) f = elim (index_from (i + 1) ms f) [
  | some j ↦ some j
  | none ↦ if m.filename == f then some i else none
]

abbrev pub lockable_class : Option Classification → Bool
lockable_class none = true
lockable_class (some c) =
    if c.optional_both then false else not (is_client c.side) || client_verdict_is_soft c

abbrev lockable_entry : Classes → Option ModEntry → Bool
lockable_entry classes none = true
lockable_entry classes (some m) = lockable_class (classes m.filename)

unfoldable pub lockable : Classes → List ModEntry → ℕ → Bool
lockable classes mods i = lockable_entry classes (get_elem? mods i)

abbrev pub requires_of : Option Display → List Requirement
requires_of none = []
requires_of (some d) = d.requires

abbrev pub is_hard : Requirement → Bool
is_hard r = not r.optional

unfoldable pub hard_deps : Classes → List ModEntry → ModEntry → List ℕ
hard_deps classes mods m = retain (lockable classes mods) (
    filter_map (λ (r : Requirement). index_from 0 mods r.filename)
      (retain is_hard (requires_of m.display)))

abbrev pub policy_must_match : Option Classification → Bool
policy_must_match none = false
policy_must_match (some c) = elim (c.policy) [ some must_match ↦ true | _ ↦ false ]

unfoldable pub is_seed : Classes → ModEntry → Bool
is_seed classes m =
    m.default_enabled && not (non_mod classes m) && policy_must_match (classes m.filename)

-- `enumerate().filter(..)`, from index `i` on
unfoldable pub indices : (ModEntry → Bool) → ℕ → List ModEntry → List ℕ
indices p i [] = []
indices p i (m ∷ ms) = let rest = indices p (i + 1) ms in if p m then i ∷ rest else rest

unfoldable pub seeds : Classes → List ModEntry → List ℕ
seeds classes mods = indices (is_seed classes) 0 mods

-- the dependencies of every mod that is enabled or a seed, in the order of the list
unfoldable pub queue_from : Classes → List ModEntry → ℕ → List ModEntry → List ℕ
queue_from classes mods i [] = []
queue_from classes mods i (m ∷ ms) =
    let rest = queue_from classes mods (i + 1) ms in
    if m.default_enabled || contains (seeds classes mods) i
    then hard_deps classes mods m ++ rest
    else rest

unfoldable pub start_queue : Classes → List ModEntry → List ℕ
start_queue classes mods = push_all (queue_from classes mods 0 mods) []

abbrev deps_of : Classes → List ModEntry → Option ModEntry → List ℕ
deps_of classes mods none = []
deps_of classes mods (some m) = hard_deps classes mods m

unfoldable pub deps_at : Classes → List ModEntry → ℕ → List ℕ
deps_at classes mods i = deps_of classes mods (get_elem? mods i)

abbrev always : ModEntry → Bool
always m = true

-- a bound on the rounds of the worklist loop: the queue, and every edge once
unfoldable pub walk_fuel : Classes → List ModEntry → ℕ
walk_fuel classes mods =
    length (start_queue classes mods)
    + load (deps_at classes mods) (seeds classes mods) (indices always 0 mods)

unfoldable pub walk : Classes → List ModEntry → Option (List ℕ)
walk classes mods =
    drain (deps_at classes mods) (walk_fuel classes mods) (seeds classes mods)
      (start_queue classes mods)

unfoldable pub remove : ℕ → List ℕ → List ℕ
remove i set = retain (λ j. not (j == i)) set

-- server-side mods and jars that are no mods are never required
unfoldable pub excluded : Classes → ModEntry → Bool
excluded classes m = is_server (side classes m) || non_mod classes m

abbrev soft_of : Option Classification → Bool
soft_of none = false
soft_of (some c) = client_verdict_is_soft c

-- a client-side mod that nothing may lock
unfoldable pub hard_client : Classes → ModEntry → Bool
hard_client classes m = is_client (side classes m) && not (soft_of (classes m.filename))

unfoldable pub locked_message : ModEntry → Text
locked_message m =
    txt "client-side mod "
    ++ (m.filename
        ++ txt
            " would be locked required -- a client mod is never force-installed; fix the mod's classification")

-- the loop behind the walk: it takes indices off the set, or refuses the build
unfoldable pub settle : Classes → ℕ → List ModEntry → List ℕ → Result (List ℕ)
settle classes i [] set = ok set
settle classes i (m ∷ ms) set =
    let kept = settle classes (i + 1) ms set in
    let dropped = settle classes (i + 1) ms (remove i set) in
    if not (contains set i)
    then kept
    else if excluded classes m
    then dropped
    else if hard_client classes m
    then err (locked_message m)
    else kept

abbrev presence_of_side : Option SideClass → Bool → Option PresenceClass
presence_of_side (some client) false = some optional_client
presence_of_side (some server) req = some optional_server
presence_of_side s true = some required
presence_of_side (some both) false = some optional_both
presence_of_side none false = none

abbrev presence_of_class : Option Classification → Bool → Option PresenceClass
presence_of_class (some c) req = if is_non_mod c then some coremod else presence_of_side c.side req
presence_of_class none true = some required
presence_of_class none false = none

abbrev set_presence : Option PresenceClass → Option Display → Option Display
set_presence (some p) none = some (record default_display { presence = some p })
set_presence (some p) (some d) = some (record d { presence = some p })
set_presence none (some d) = some (record d { presence = none })
set_presence none none = none

-- what the last loop writes into one entry
unfoldable pub finish : Classes → Bool → ModEntry → ModEntry
finish classes req m = record m {
  required = req;
  display = set_presence (presence_of_class (classes m.filename) req) m.display;
}

unfoldable pub finish_all : Classes → List ℕ → ℕ → List ModEntry → List ModEntry
finish_all classes set i [] = []
finish_all classes set i (m ∷ ms) =
    finish classes (contains set i) m ∷ finish_all classes set (i + 1) ms

abbrev finish_with : Classes → List ModEntry → Result (List ℕ) → Result (List ModEntry)
finish_with classes mods (ok kept) = ok (finish_all classes kept 0 mods)
finish_with classes mods (err e) = err e

-- `none` means that the fuel of the walk ran out
unfoldable pub derive_required : Classes → List ModEntry → Option (Result (List ModEntry))
derive_required classes input =
    let mods = map (opt_out classes) input in
    elim (walk classes mods) [
      | none ↦ none
      | some set ↦ some (finish_with classes mods (settle classes 0 mods set))
    ]
