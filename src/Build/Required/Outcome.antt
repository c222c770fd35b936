-- ===== src/Build/Required/Outcome.antt =====
-- What `derive_required` (src/authoring/build.rs) makes of a list of mods.
use smrt.Base.{
  ℕ, ◌+◌, ◌≡◌, refl, sym, ap, ◌∙◌, ◌≢◌, ◌↔◌, Bool, true, false, not, ◌&&◌, Option, some, List, map,
  arith, ℕ-Eq, get_elem?, contains, contains_iff, Text, txt, Text-Eq, ◌++◌,
}
use native.Mathlib.Nat.{zero-add}
use mathlib.Core.Option.{some_inj}
use smrt.Base.Results.{Result, ok, err}
use smrt.Domain.Side.{client, server, required, coremod}
use smrt.Domain.Manifest.{ModEntry}
use smrt.Registry.Classify.{Classification, client_verdict_is_soft}
use smrt.Build.Required.{
  Classes, side, non_mod, opt_out, is_server, walk, excluded, hard_client, locked_message, settle,
  finish, finish_all, derive_required, finish_with, presence_of_class,
}
use smrt.Build.Required.Walk.{IsAt-zero, IsAt-of_entry, Locked, walk_returns, mem-walk}
use smrt.Build.Required.Settle.{settle_at, settle_err}
use smrt.Build.Required.Entry.{
  get_elem?-map, get_elem?-finish_all, filename-opt_out, excluded_iff, soft_of_hard_client,
  hard_client_parts, included_non_mod, finish-required, presence-finish, presence_of_class_tells,
  presence,
}

-- `derive_required` always returns: its walk ends within the fuel.
pub derive_required_returns :
    (classes : Classes) (input : List ModEntry)
    → (r : Result (List ModEntry)) × (derive_required classes input ≡ some r)
unfolding derive_required
derive_required_returns classes input =
    let mods = map (opt_out classes) input in
    let (set, e) = walk_returns classes mods in
    (finish_with classes mods (settle classes 0 mods set), rw (e, derive_required))

module _ (classes : Classes) (input : List ModEntry) where
  -- the list as the walk sees it
  abbrev opted : List ModEntry
  opted = map (opt_out classes) input

  -- the sets that a successful run goes through
  record IsRun (out : List ModEntry) : Type 0 where
    walked : List ℕ
    kept : List ℕ
    walk_eq : walk classes opted ≡ some walked
    settle_eq : settle classes 0 opted walked ≡ ok kept
    out_eq : finish_all classes kept 0 opted ≡ out

  derive_required_walked :
      (r : Result (List ModEntry))
      → derive_required classes input ≡ some r
      → (set : List ℕ) × (walk classes opted ≡ some set)
        × (finish_with classes opted (settle classes 0 opted set) ≡ r)
  unfolding derive_required
  derive_required_walked r h =
      let (set, e) = walk_returns classes opted in
      (set, e, some_inj.0 (rw (e, derive_required) at h))

  IsRun-of_ok : (out : List ModEntry) → derive_required classes input ≡ some (ok out) → IsRun out
  IsRun-of_ok out h =
      let (set, e, f) = derive_required_walked (ok out) h in
      settled set e (settle classes 0 opted set) refl f
    where
      settled :
          (set : List ℕ)
          → walk classes opted ≡ some set
          → (r : Result (List ℕ)) → settle classes 0 opted set ≡ r
          → finish_with classes opted r ≡ ok out
          → IsRun out
      settled set e (ok kept) s f = record {
        walked = set;
        kept = kept;
        walk_eq = e;
        settle_eq = s;
        out_eq = cc;
      }
      settled set e (err x) s f = cc

  IsRefused_of_err :
      (e : Text)
      → derive_required classes input ≡ some (err e)
      → (set : List ℕ) × (walk classes opted ≡ some set) × (settle classes 0 opted set ≡ err e)
  IsRefused_of_err x h =
      let (set, e, f) = derive_required_walked (err x) h in
      settled set e (settle classes 0 opted set) refl f
    where
      settled :
          (set : List ℕ)
          → walk classes opted ≡ some set
          → (r : Result (List ℕ)) → settle classes 0 opted set ≡ r
          → finish_with classes opted r ≡ err x
          → (set : List ℕ) × (walk classes opted ≡ some set) × (settle classes 0 opted set ≡ err x)
      settled set e (ok kept) s f = cc
      settled set e (err y) s f = let q : y ≡ x = cc in (set, e, s ∙ ap {B = Result (List ℕ)} err q)

  -- one entry of the result, against the entry that it was made of
  record IsDerived (j : ℕ) (m m' : ModEntry) : Type 0 where
    locked :
        (m'.required ≡ true)
        ↔ (Locked classes opted j × (excluded classes (opt_out classes m) ≡ false))
    soft : m'.required ≡ true → hard_client classes (opt_out classes m) ≡ false
    made : m' ≡ finish classes m'.required (opt_out classes m)

  zero_index :
      (set : List ℕ) (j : ℕ) (m : ModEntry)
      → ◌≡◌ {A = Option ModEntry}
          (some (finish classes (contains set (0 + j)) m))
          (some (finish classes (contains set j) m))
  zero_index set j m = rw zero-add

  IsDerived-at :
      (out : List ModEntry) (j : ℕ) (m : ModEntry)
      → derive_required classes input ≡ some (ok out)
      → get_elem? input j ≡ some m
      → (m' : ModEntry) × (get_elem? out j ≡ some m') × IsDerived j m m'
  IsDerived-at out j m h e =
      let r = IsRun-of_ok out h in
      let at = get_elem?-map (opt_out classes) input j e in
      let s =
        settle_at classes 0 opted r.walked r.kept j (opt_out classes m) r.settle_eq
          (IsAt-of_entry opted j (opt_out classes m) at) in
      let w = mem-walk classes opted r.walked j r.walk_eq in
      let req = finish-required classes (contains r.kept j) (opt_out classes m) in
      (
        finish classes (contains r.kept j) (opt_out classes m),
        ap (λ (l : List ModEntry). get_elem? l j) (sym r.out_eq)
            ∙ get_elem?-finish_all classes r.kept 0 opted j at
            ∙ zero_index r.kept j (opt_out classes m),
        record {
          locked = (
            λ q.
                let (set, out_of) = s.kept.0 (sym req ∙ q) in
                (w.0 ((contains_iff r.walked j).0 set), out_of),
            λ (l, out_of). req ∙ s.kept.1 ((contains_iff r.walked j).1 (w.1 l), out_of),
          );
          soft = λ q. s.allowed (sym req ∙ q);
          made = ap (λ (b : Bool). finish classes b (opt_out classes m)) (sym req);
        },
      )

  -- `derive_required` marks as required exactly the mods that are locked and that are neither
  -- server-side nor a jar that is no mod. Locked, in the list with the server-side mods opted out, are
  -- the default-enabled mods whose policy is `must_match`, and at any depth what they and the other
  -- default-enabled mods require as not optional, so long as what is required is neither optional on
  -- both sides nor client-side with a verdict that is not soft. A mod is required by its filename, which
  -- stands for the last mod of that name.
  pub derive_required_exact :
      (out : List ModEntry) (j : ℕ) (m : ModEntry)
      → derive_required classes input ≡ some (ok out)
      → get_elem? input j ≡ some m
      → (m' : ModEntry) × (get_elem? out j ≡ some m')
        × ((m'.required ≡ true) ↔ (
            Locked classes (map (opt_out classes) input) j
            × (side classes m ≢ some server)
            × (non_mod classes m ≡ false)))
  derive_required_exact out j m h e =
      let (m', at, d) = IsDerived-at out j m h e in
      let x = excluded_iff classes m in
      (
        m',
        at,
        (
          λ q. let (l, o) = d.locked.0 q in (l, (x.0 o).0, (x.0 o).1),
          λ (l, s, n). d.locked.1 (l, x.1 (s, n)),
        ),
      )

  -- The client invariant: a mod that `derive_required` marks as required is not server-side, not a
  -- jar that is no mod, and client-side only with a soft verdict.
  pub required_IsAllowed :
      (out : List ModEntry) (j : ℕ) (m : ModEntry)
      → derive_required classes input ≡ some (ok out)
      → get_elem? input j ≡ some m
      → (m' : ModEntry) × (get_elem? out j ≡ some m')
        × (m'.required ≡ true
            → (side classes m ≢ some server)
              × (non_mod classes m ≡ false)
              × (side classes m ≡ some client
                  → (c : Classification) × (classes m.filename ≡ some c)
                    × (client_verdict_is_soft c ≡ true)))
  required_IsAllowed out j m h e =
      let (m', at, d) = IsDerived-at out j m h e in
      let x = excluded_iff classes m in
      (
        m',
        at,
        λ q.
            let o = x.0 (d.locked.0 q).1 in
            (o.0, o.1, λ c. soft_of_hard_client classes m (d.soft q) c),
      )

  -- `derive_required` refuses only for a mod that is locked, no jar that is no mod, and client-side
  -- with a verdict that is not soft; the message names the mod.
  pub derive_required_refuses :
      (e : Text)
      → derive_required classes input ≡ some (err e)
      → (j : ℕ) × (m : ModEntry) × (get_elem? (map (opt_out classes) input) j ≡ some m)
        × Locked classes (map (opt_out classes) input) j
        × (non_mod classes m ≡ false)
        × (side classes m ≡ some client)
        × ((c : Classification) → classes m.filename ≡ some c → client_verdict_is_soft c ≡ false)
        × (e
            ≡ txt "client-side mod "
              ++ (m.filename
                  ++ txt
                      " would be locked required -- a client mod is never force-installed; fix the mod's classification"))
  unfolding locked_message
  derive_required_refuses e h =
      let (set, w, s) = IsRefused_of_err e h in
      let (j, m, a, r) = settle_err classes 0 opted set e s in
      let (at, hard) = hard_client_parts classes m r.hard in
      (
        j,
        m,
        IsAt-zero opted j m a,
        (mem-walk classes opted set j w).0 ((contains_iff set j).0 r.locked),
        included_non_mod classes m r.included,
        at,
        hard,
        r.message,
      )

  -- Every mod keeps its place and all but what the derivation owns: `required`, the presence class,
  -- and `default_enabled`, which falls for a server-side mod and for no other.
  pub derive_required_keeps :
      (out : List ModEntry) (j : ℕ) (m : ModEntry)
      → derive_required classes input ≡ some (ok out)
      → get_elem? input j ≡ some m
      → (m' : ModEntry) × (get_elem? out j ≡ some m')
        × (m'.filename ≡ m.filename)
        × (m'.sha1 ≡ m.sha1)
        × (m'.size_bytes ≡ m.size_bytes)
        × (m'.source ≡ m.source)
        × (m'.slug ≡ m.slug)
        × (m'.default_enabled ≡ (m.default_enabled && not (is_server (side classes m))))
  unfolding finish opt_out
  derive_required_keeps out j m h e =
      let (m', at, d) = IsDerived-at out j m h e in
      (
        m',
        at,
        ground (arith, d.made),
        ground (arith, d.made),
        ground (arith, d.made),
        ground (arith, d.made),
        ground (arith, d.made),
        ground (arith, d.made),
      )

  -- The presence class tells a launcher the truth: it is `required` exactly for the mods that are
  -- marked as required, and `coremod` exactly for the jars that are no mods.
  pub presence_tells :
      (out : List ModEntry) (j : ℕ) (m : ModEntry)
      → derive_required classes input ≡ some (ok out)
      → get_elem? input j ≡ some m
      → (m' : ModEntry) × (get_elem? out j ≡ some m')
        × ((presence m' ≡ some required) ↔ (m'.required ≡ true))
        × ((presence m' ≡ some coremod) ↔ (non_mod classes m ≡ true))
  unfolding side non_mod
  presence_tells out j m h e =
      let (m', at, d) = IsDerived-at out j m h e in
      let o = classes m.filename in
      let p : presence m' ≡ presence_of_class o m'.required =
        ap presence d.made
        ∙ presence-finish classes m'.required (opt_out classes m)
        ∙ ap (λ (f : Text). presence_of_class (classes f) m'.required)
            (filename-opt_out classes m) in
      let t =
        presence_of_class_tells o m'.required (λ q. (excluded_iff classes m).0 (d.locked.0 q).1) in
      (m', at, rw p t.0, rw p t.1)
