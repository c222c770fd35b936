-- ===== src/Build/Required/Entry.antt =====
-- One entry of the result of `derive_required` (src/authoring/build.rs): what the last loop writes, and
-- whom the loop before it leaves out.
use smrt.Base.{
  ℕ, zero, suc, ◌+◌, ◌≡◌, refl, ◌≢◌, ◌↔◌, Bool, true, false, not, ◌&&◌, ◌||◌, Option, none, some,
  List, [], ◌∷◌, map, arith, if◌then◌else◌, ℕ-Eq, get_elem?, contains, Text-Eq,
}
use native.Mathlib.Nat.{add-zero}
use smrt.Domain.Side.{SideClass, client, server, both, required, coremod, PresenceClass}
use smrt.Domain.Manifest.{Display, ModEntry}
use smrt.Registry.Classify.{Classification, is_non_mod, client_verdict_is_soft, is_client}
use smrt.Build.Required.{
  Classes, side, non_mod, opt_out, is_server, excluded, hard_client, finish, finish_all, soft_of,
  side_of, set_presence, non_mod_of, presence_of_class, presence_of_side,
}

pub get_elem?-map :
    (f : ModEntry → ModEntry) (ms : List ModEntry) (k : ℕ) {m : ModEntry}
    → get_elem? ms k ≡ some m
    → get_elem? (map f ms) k ≡ some (f m)
get_elem?-map f [] k h = cc
get_elem?-map f (n ∷ ms) zero h = cc
get_elem?-map f (n ∷ ms) (suc k) h = get_elem?-map f ms k h

pub get_elem?-finish_all :
    (classes : Classes) (set : List ℕ) (i : ℕ) (ms : List ModEntry) (k : ℕ) {m : ModEntry}
    → get_elem? ms k ≡ some m
    → get_elem? (finish_all classes set i ms) k ≡ some (finish classes (contains set (i + k)) m)
unfolding finish_all
get_elem?-finish_all classes set i [] k h = cc
get_elem?-finish_all classes set i (n ∷ ms) zero h = rw (add-zero i) (cc)
get_elem?-finish_all classes set i (n ∷ ms) (suc k) h =
    let e : i + suc k ≡ (i + 1) + k = omega arith in
    rw e (get_elem?-finish_all classes set (i + 1) ms k h)

pub filename-opt_out :
    (classes : Classes) (m : ModEntry) → (opt_out classes m).filename ≡ m.filename
unfolding opt_out
filename-opt_out classes m = ground arith

pub side-opt_out :
    (classes : Classes) (m : ModEntry) → side classes (opt_out classes m) ≡ side classes m
unfolding side
side-opt_out classes m = rw (filename-opt_out classes m)

pub non_mod-opt_out :
    (classes : Classes) (m : ModEntry) → non_mod classes (opt_out classes m) ≡ non_mod classes m
unfolding non_mod
non_mod-opt_out classes m = rw (filename-opt_out classes m)

pub is_server_iff : (s : Option SideClass) → (is_server s ≡ false) ↔ (s ≢ some server)
is_server_iff none = (λ h e. cc, λ h. refl)
is_server_iff (some client) = (λ h e. cc, λ h. refl)
is_server_iff (some server) = (λ h e. cc, λ h. absurd (h refl))
is_server_iff (some both) = (λ h e. cc, λ h. refl)

-- what is excluded, in the words of the classification
pub excluded_iff :
    (classes : Classes) (m : ModEntry)
    → (excluded classes (opt_out classes m) ≡ false)
      ↔ ((side classes m ≢ some server) × (non_mod classes m ≡ false))
unfolding excluded
excluded_iff classes m =
    rw (side-opt_out classes m, non_mod-opt_out classes m)
      (excluded_parts (is_server (side classes m)) (non_mod classes m)
        (is_server_iff (side classes m)))
  where
    excluded_parts :
        (b c : Bool)
        → (b ≡ false) ↔ (side classes m ≢ some server)
        → ((b || c) ≡ false) ↔ ((side classes m ≢ some server) × (c ≡ false))
    excluded_parts true c h = (λ q. cc, λ (q, _). h.1 q)
    excluded_parts false c h = (λ q. (h.0 refl, q), λ (_, q). q)

pub soft_of_hard_client :
    (classes : Classes) (m : ModEntry)
    → hard_client classes (opt_out classes m) ≡ false
    → side classes m ≡ some client
    → (c : Classification) × (classes m.filename ≡ some c) × (client_verdict_is_soft c ≡ true)
unfolding hard_client
soft_of_hard_client classes m h e =
    verdict (classes m.filename) refl
      (rw (side-opt_out classes m, filename-opt_out classes m, e) at h)
  where
    verdict :
        (o : Option Classification)
        → classes m.filename ≡ o
        → (is_client (some client) && not (soft_of o)) ≡ false
        → (c : Classification) × (classes m.filename ≡ some c) × (client_verdict_is_soft c ≡ true)
    verdict none p q = cc
    verdict (some c) p q = (c, p, ground arith)

pub finish-required :
    (classes : Classes) (b : Bool) (m : ModEntry) → (finish classes b m).required ≡ b
unfolding finish
finish-required classes b m = refl

abbrev presence_of : Option Display → Option PresenceClass
presence_of none = none
presence_of (some d) = d.presence

-- the presence class of an entry, where it has one
abbrev pub presence : ModEntry → Option PresenceClass
presence m = presence_of m.display

pub presence-finish :
    (classes : Classes) (b : Bool) (m : ModEntry)
    → presence (finish classes b m) ≡ presence_of_class (classes m.filename) b
unfolding finish
presence-finish classes b m = written (presence_of_class (classes m.filename) b) m.display
  where
    written : (p : Option PresenceClass) (d : Option Display) → presence_of (set_presence p d) ≡ p
    written (some p) none = refl
    written (some p) (some d) = refl
    written none none = refl
    written none (some d) = refl

pub of_parts :
    {b : Bool} (n : Bool) (s : Option SideClass)
    → (b ≡ true → (s ≢ some server) × (n ≡ false))
    → (((if n then some coremod else presence_of_side s b) ≡ some required) ↔ (b ≡ true))
      × (((if n then some coremod else presence_of_side s b) ≡ some coremod) ↔ (n ≡ true))
of_parts {b = true} true s h = absurd (cc ((h refl).1))
of_parts {b = false} true s h = ground arith
of_parts {b = true} false none h = ground arith
of_parts {b = false} false none h = ground arith
of_parts {b = true} false (some server) h = absurd ((h refl).0 refl)
of_parts {b = false} false (some server) h = ground arith
of_parts {b = true} false (some s) h = ground arith
of_parts {b = false} false (some s) h = ground arith

pub presence_of_class_tells :
    (o : Option Classification) (b : Bool)
    → (b ≡ true → (side_of o ≢ some server) × (non_mod_of o ≡ false))
    → ((presence_of_class o b ≡ some required) ↔ (b ≡ true))
      × ((presence_of_class o b ≡ some coremod) ↔ (non_mod_of o ≡ true))
presence_of_class_tells none true h = ground arith
presence_of_class_tells none false h = ground arith
presence_of_class_tells (some c) b h = of_parts (is_non_mod c) c.side h

-- whom the loop refuses, in the words of the classification
pub hard_client_parts :
    (classes : Classes) (m : ModEntry)
    → hard_client classes m ≡ true
    → (side classes m ≡ some client)
      × ((c : Classification) → classes m.filename ≡ some c → client_verdict_is_soft c ≡ false)
unfolding hard_client
hard_client_parts classes m h =
    (is_client_some (side classes m) (ground arith), λ c e. hard c (rw e at h))
  where
    is_client_some : (s : Option SideClass) → is_client s ≡ true → s ≡ some client
    is_client_some none q = cc
    is_client_some (some client) q = refl
    is_client_some (some server) q = cc
    is_client_some (some both) q = cc

    hard :
        (c : Classification)
        → (is_client (side classes m) && not (client_verdict_is_soft c)) ≡ true
        → client_verdict_is_soft c ≡ false
    hard c q = ground arith

pub included_non_mod :
    (classes : Classes) (m : ModEntry) → excluded classes m ≡ false → non_mod classes m ≡ false
unfolding excluded
included_non_mod classes m h = ground arith
