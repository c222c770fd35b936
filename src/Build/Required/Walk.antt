-- ===== src/Build/Required/Walk.antt =====
-- The walk of `derive_required` (src/authoring/build.rs): it ends, and it collects the seeds and
-- what the default-enabled mods need, at any depth.
use smrt.Base.{
  ℕ, zero, suc, ◌+◌, ◌≡◌, refl, sym, ap, ◌∙◌, ◌≢◌, ◌↔◌, ◌⊎◌, inl, inr, Bool, true, false, ◌||◌,
  retain, filter_map, filter_map-mem, mem-of_filter_map, Memᴰ-retain, Option, none, some, List, [],
  ◌∷◌, ◌++◌, Memᴰ, arith, if◌then◌else◌, ℕ-Eq, Bool-cases, Option-cases, get_elem?, Memᴰ-cons,
  Memᴰ-append, contains, contains_iff, Text-Eq,
}
use mathlib.Core.Logic.{⊎_elim}
use mathlib.Core.List.Memᴰ
use mathlib.Core.Option.{some_inj}
use smrt.Worklist.Fuel.{drain_ends}
use smrt.Worklist.Reach.{Memᴰ-push_all, Reached, begin, follow, IsQueued, drain_mem}
use mathlib.Core.Path.{subst}
use smrt.Domain.Side.{SideClass, client, server, both, must_match}
use smrt.Domain.Manifest.{ModEntry, Display, Requirement}
use smrt.Registry.Classify.{Classification, client_verdict_is_soft, is_client}
use smrt.Build.Required.Names.{IsNamed, index_from_iff}
use smrt.Build.Required.{
  Classes, non_mod, lockable, lockable_class, requires_of, is_hard, policy_must_match, index_from,
  hard_deps, is_seed, indices, seeds, queue_from, start_queue, deps_of, deps_at, always, walk_fuel,
  walk,
}

-- entry `j` of a list whose first entry has index `i`
pub record IsAt (i : ℕ) (ms : List ModEntry) (j : ℕ) (m : ModEntry) : Type 0 where
  pub offset : ℕ
  pub index : j ≡ i + offset
  pub entry : get_elem? ms offset ≡ some m

pub IsAt-head : (i : ℕ) (m : ModEntry) (ms : List ModEntry) → IsAt i (m ∷ ms) i m
IsAt-head i m ms = record { offset = 0; index = omega arith; entry = refl }

pub IsAt-tail :
    (i : ℕ) (n : ModEntry) (ms : List ModEntry) (j : ℕ) (m : ModEntry)
    → IsAt (i + 1) ms j m
    → IsAt i (n ∷ ms) j m
IsAt-tail i n ms j m a = record {
  offset = suc a.offset;
  index = omega (arith, a.index);
  entry = a.entry;
}

pub IsAt-cases :
    (i : ℕ) (n : ModEntry) (ms : List ModEntry) (j : ℕ) (m : ModEntry)
    → IsAt i (n ∷ ms) j m
    → ((j ≡ i) × (n ≡ m)) ⊎ IsAt (i + 1) ms j m
IsAt-cases i n ms j m a = at a.offset a.index a.entry
  where
    at :
        (k : ℕ)
        → j ≡ i + k
        → get_elem? (n ∷ ms) k ≡ some m
        → ((j ≡ i) × (n ≡ m)) ⊎ IsAt (i + 1) ms j m
    at zero p e = inl (omega arith, cc)
    at (suc k) p e = inr (record { offset = k; index = omega arith; entry = e })

-- from index 0 on
pub IsAt-zero :
    (ms : List ModEntry) (j : ℕ) (m : ModEntry) → IsAt 0 ms j m → get_elem? ms j ≡ some m
IsAt-zero ms j m a = let e : a.offset ≡ j = omega (arith, a.index) in rw (← e) a.entry

pub IsAt-of_entry :
    (ms : List ModEntry) (j : ℕ) (m : ModEntry) → get_elem? ms j ≡ some m → IsAt 0 ms j m
IsAt-of_entry ms j m h = record { offset = j; index = omega arith; entry = h }

-- a list that a test may put in front of the rest
mem-if_append :
    (b : Bool) (xs rest : List ℕ) (j : ℕ)
    → Memᴰ j (if b then xs ++ rest else rest) ↔ (((b ≡ true) × Memᴰ j xs) ⊎ Memᴰ j rest)
mem-if_append true xs rest j = ground (arith, Memᴰ-append j xs rest)
mem-if_append false xs rest j = (inr, ⊎_elim (λ m. cc (m.0)) (λ m. m))

mem-if_cons :
    (b : Bool) (i : ℕ) (rest : List ℕ) (j : ℕ)
    → Memᴰ j (if b then i ∷ rest else rest) ↔ (((b ≡ true) × (j ≡ i)) ⊎ Memᴰ j rest)
mem-if_cons true i rest j = ground (arith, Memᴰ-cons j i rest)
mem-if_cons false i rest j = (inr, ⊎_elim (λ m. cc (m.0)) (λ m. m))

pub mem-indices :
    (p : ModEntry → Bool) (i : ℕ) (ms : List ModEntry) (j : ℕ)
    → Memᴰ j (indices p i ms) ↔ ((m : ModEntry) × IsAt i ms j m × (p m ≡ true))
unfolding indices
mem-indices p i [] j = (λ m. absurd (Memᴰ.not-nil m), λ (m, a, _). cc (a.entry))
mem-indices p i (n ∷ ms) j = (
  λ h. elim ((mem-if_cons (p n) i (indices p (i + 1) ms) j).0 h) [
    | inl (q, e) ↦ (n, rw e (IsAt-head i n ms), q)
    | inr r ↦ let (m, a, q) = (mem-indices p (i + 1) ms j).0 r in (m, IsAt-tail i n ms j m a, q)
  ],
  λ (m, a, q). (mem-if_cons (p n) i (indices p (i + 1) ms) j).1 (
      ⊎_elim (λ (e, f). inl (rw f q, e)) (λ rest. inr ((mem-indices p (i + 1) ms j).1 (m, rest, q)))
        (IsAt-cases i n ms j m a)),
)

module _ (classes : Classes) (mods : List ModEntry) where
  -- an entry whose dependencies are queued at the start
  abbrev IsStart : ℕ → ModEntry → Type 0
  IsStart j m = (m.default_enabled || contains (seeds classes mods) j) ≡ true

  mem-queue_from :
      (i : ℕ) (ms : List ModEntry) (x : ℕ)
      → Memᴰ x (queue_from classes mods i ms) ↔ (
          (j : ℕ) × (m : ModEntry) × IsAt i ms j m
          × IsStart j m
          × Memᴰ x (hard_deps classes mods m))
  unfolding queue_from
  mem-queue_from i [] x = (λ m. absurd (Memᴰ.not-nil m), λ (j, m, a, _, _). cc (a.entry))
  mem-queue_from i (n ∷ ms) x =
      let split =
        mem-if_append (n.default_enabled || contains (seeds classes mods) i)
          (hard_deps classes mods n) (queue_from classes mods (i + 1) ms) x in
      (
        λ h. elim (split.0 h) [
          | inl (s, m) ↦ (i, n, IsAt-head i n ms, s, m)
          | inr r ↦
              let (j, m, a, s, d) = (mem-queue_from (i + 1) ms x).0 r in
              (j, m, IsAt-tail i n ms j m a, s, d)
        ],
        λ (j, m, a, s, d). split.1 (
            ⊎_elim (λ (e, f). inl (rw (f, ← e) s, rw f d))
              (λ rest. inr ((mem-queue_from (i + 1) ms x).1 (j, m, rest, s, d)))
              (IsAt-cases i n ms j m a)),
      )

  -- Enabled by default, a mod, and one that both sides must have alike.
  abbrev pub IsSeed : ModEntry → Type 0
  IsSeed m =
      (m.default_enabled ≡ true)
      × (non_mod classes m ≡ false)
      × ((c : Classification) × (classes m.filename ≡ some c) × (c.policy ≡ some must_match))

  -- Nothing forbids to force the entry on a player: it is not optional on both sides, and not
  -- client-side but for a verdict that is soft.
  abbrev pub MayLock : ℕ → Type 0
  MayLock i =
      (m : ModEntry) (c : Classification)
      → get_elem? mods i ≡ some m
      → classes m.filename ≡ some c
      → (c.optional_both ≡ false) × ((c.side ≢ some client) ⊎ (client_verdict_is_soft c ≡ true))

  -- A mod requires the entry by its filename (the last entry of that name), and not as optional, and
  -- the entry may be locked.
  abbrev pub Needs : ModEntry → ℕ → Type 0
  Needs m i =
      ((d : Display) × (r : Requirement) × (m.display ≡ some d)
        × Memᴰ r d.requires
        × (r.optional ≡ false)
        × IsNamed mods r.filename i)
      × MayLock i

  -- What is required by the rules: a seed, what a default-enabled mod needs, and what a locked one
  -- needs.
  pub data Locked : ℕ → Type 0 where
    seed : (i : ℕ) (m : ModEntry) → get_elem? mods i ≡ some m → IsSeed m → Locked i
    need :
        (j i : ℕ) (m : ModEntry)
        → get_elem? mods j ≡ some m
        → m.default_enabled ≡ true
        → Needs m i
        → Locked i
    chain : (j i : ℕ) (m : ModEntry) → Locked j → get_elem? mods j ≡ some m → Needs m i → Locked i

  is_client_iff : (s : Option SideClass) → (is_client s ≡ false) ↔ (s ≢ some client)
  is_client_iff none = (λ h e. cc, λ h. refl)
  is_client_iff (some client) = (λ h e. cc, λ h. absurd (h refl))
  is_client_iff (some server) = (λ h e. cc, λ h. refl)
  is_client_iff (some both) = (λ h e. cc, λ h. refl)

  lockable_class_iff :
      (c : Classification)
      → (lockable_class (some c) ≡ true)
        ↔ ((c.optional_both ≡ false) × ((c.side ≢ some client) ⊎ (client_verdict_is_soft c ≡ true)))
  lockable_class_iff c = ground (arith, is_client_iff c.side)

  lockable_iff : (i : ℕ) → (lockable classes mods i ≡ true) ↔ MayLock i
  unfolding lockable
  lockable_iff i = elim (Option-cases (get_elem? mods i)) [
    | inl e ↦ (λ h m c at k. cc, λ h. rw e refl)
    | inr (n, e) ↦ elim (Option-cases (classes n.filename)) [
      | inl f ↦ (
        λ h m c at k.
            let same = some_inj.0 (sym e ∙ at) in cc (f, k, ap (λ x. classes x.filename) same),
        λ h. rw (e, f) refl,
      )
      | inr (d, f) ↦ (
        λ h m c at k.
            let same = some_inj.0 (sym e ∙ at) in
            let kept : d ≡ c = some_inj.0 (sym f ∙ ap (λ x. classes x.filename) same ∙ k) in
            subst
              (λ x.
                (x.optional_both ≡ false)
                × ((x.side ≢ some client) ⊎ (client_verdict_is_soft x ≡ true)))
              kept ((lockable_class_iff d).0 (rw (e, f) at h)),
        λ h. rw (e, f) ((lockable_class_iff d).1 (h n d e f)),
      )
    ]
  ]

  hard_deps-mem : (m : ModEntry) (i : ℕ) → Memᴰ i (hard_deps classes mods m) ↔ Needs m i
  unfolding hard_deps
  hard_deps-mem m i =
      let listed = Memᴰ-retain (lockable classes mods) i (
        filter_map (λ (r : Requirement). index_from 0 mods r.filename)
          (retain is_hard (requires_of m.display))) in
      (
        λ h.
            let (k, may) = listed.0 h in
            let (r, w, at) =
              mem-of_filter_map (λ (r : Requirement). index_from 0 mods r.filename) i _ k in
            let (q, hard) = (Memᴰ-retain is_hard r (requires_of m.display)).0 w in
            let (d, shown, among) = shown_by m.display r q in
            (
              (d, r, shown, among, ground arith, (index_from_iff mods r.filename i).0 at),
              (lockable_iff i).0 may,
            ),
        λ ((d, r, shown, among, hard, at), may).
            let w =
              (Memᴰ-retain is_hard r (requires_of m.display)).1 (rw shown among, rw hard refl) in
            listed.1 (
              filter_map-mem (λ (r : Requirement). index_from 0 mods r.filename) r i _ w
                  ((index_from_iff mods r.filename i).1 at),
              (lockable_iff i).1 may,
            ),
      )
    where
      shown_by :
          (o : Option Display) (r : Requirement)
          → Memᴰ r (requires_of o)
          → (d : Display) × (o ≡ some d) × Memᴰ r d.requires
      shown_by none r q = absurd (Memᴰ.not-nil q)
      shown_by (some d) r q = (d, refl, q)

  policy_iff :
      (o : Option Classification)
      → (policy_must_match o ≡ true)
        ↔ ((c : Classification) × (o ≡ some c) × (c.policy ≡ some must_match))
  policy_iff none = (λ h. cc, λ (c, f, g). cc)
  policy_iff (some c) =
      (λ h. (c, refl, ground arith), λ (d, f, g). rw (ap (λ x. x.policy) (some_inj.0 f) ∙ g) refl)

  is_seed_iff : (m : ModEntry) → (is_seed classes m ≡ true) ↔ IsSeed m
  unfolding is_seed non_mod
  is_seed_iff m =
      let policy = policy_iff (classes m.filename) in
      (
        λ h. (ground arith, ground arith, policy.0 (ground arith)),
        λ (on, real, alike). rw (on, real, policy.1 alike) refl,
      )

  mem-seeds :
      (j : ℕ)
      → Memᴰ j (seeds classes mods)
        ↔ ((m : ModEntry) × (get_elem? mods j ≡ some m) × (is_seed classes m ≡ true))
  unfolding seeds
  mem-seeds j =
      let at = mem-indices (is_seed classes) 0 mods j in
      (
        λ h. let (m, a, q) = at.0 h in (m, IsAt-zero mods j m a, q),
        λ (m, e, q). at.1 (m, IsAt-of_entry mods j m e, q),
      )

  mem-start_queue :
      (x : ℕ)
      → Memᴰ x (start_queue classes mods) ↔ (
          (j : ℕ) × (m : ModEntry) × (get_elem? mods j ≡ some m)
          × IsStart j m
          × Memᴰ x (hard_deps classes mods m))
  unfolding start_queue
  mem-start_queue x =
      let pushed = Memᴰ-push_all x (queue_from classes mods 0 mods) [] in
      let at = mem-queue_from 0 mods x in
      (
        λ h.
            let (j, m, a, s, d) =
              at.0 (⊎_elim (λ k. k) (λ k. absurd (Memᴰ.not-nil k)) (pushed.0 h)) in
            (j, m, IsAt-zero mods j m a, s, d),
        λ (j, m, e, s, d). pushed.1 (inl (at.1 (j, m, IsAt-of_entry mods j m e, s, d))),
      )

  mem-deps_at :
      (j x : ℕ)
      → Memᴰ x (deps_at classes mods j)
        ↔ ((m : ModEntry) × (get_elem? mods j ≡ some m) × Memᴰ x (hard_deps classes mods m))
  unfolding deps_at
  mem-deps_at j x = entry (get_elem? mods j)
    where
      entry :
          (o : Option ModEntry)
          → Memᴰ x (deps_of classes mods o)
            ↔ ((m : ModEntry) × (o ≡ some m) × Memᴰ x (hard_deps classes mods m))
      entry none = (λ h. absurd (Memᴰ.not-nil h), λ (m, e, _). cc)
      entry (some m) = (λ h. (m, refl, h), λ (n, e, h). rw (some_inj.0 e) h)

  seed_enabled : (m : ModEntry) → is_seed classes m ≡ true → m.default_enabled ≡ true
  unfolding is_seed non_mod
  seed_enabled m h = ground arith

  seeds-IsQueued : IsQueued (deps_at classes mods) (seeds classes mods) (start_queue classes mods)
  seeds-IsQueued y x my mx =
      let (m, e, q) = (mem-seeds y).0 my in
      let (n, f, d) = (mem-deps_at y x).0 mx in
      inr ((mem-start_queue x).1 (y, n, f, rw (← some_inj.0 (sym e ∙ f), seed_enabled m q) refl, d))

  deps_at-past : (x : ℕ) → contains (indices always 0 mods) x ≡ false → deps_at classes mods x ≡ []
  unfolding deps_at
  deps_at-past x h = elim (Option-cases (get_elem? mods x)) [
    | inl e ↦ rw e
    | inr (m, e) ↦ cc (
      h,
      (contains_iff (indices always 0 mods) x).1
          ((mem-indices always 0 mods x).1 (m, IsAt-of_entry mods x m e, refl)),
    )
  ]

  -- the walk ends within its fuel
  pub walk_returns : (r : List ℕ) × (walk classes mods ≡ some r)
  unfolding walk walk_fuel
  walk_returns =
      drain_ends (deps_at classes mods) (indices always 0 mods) deps_at-past
        (walk_fuel classes mods) (seeds classes mods) (start_queue classes mods) (omega arith)

  start_Locked :
      (j i : ℕ) (m : ModEntry)
      → get_elem? mods j ≡ some m
      → IsStart j m
      → Memᴰ i (hard_deps classes mods m)
      → Locked i
  start_Locked j i m e s d = elim (Bool-cases m.default_enabled) [
    | inl on ↦ need j i m e on ((hard_deps-mem m i).0 d)
    | inr off ↦
        let (n, f, q) = (mem-seeds j).0 ((contains_iff (seeds classes mods) j).0 (rw off at s)) in
        need j i m e (rw (some_inj.0 (sym e ∙ f)) (seed_enabled n q)) ((hard_deps-mem m i).0 d)
  ]

  Reached-Locked : (i : ℕ) → Reached (deps_at classes mods) (start_queue classes mods) i → Locked i
  Reached-Locked i (begin h) =
      let (j, m, e, s, d) = (mem-start_queue i).0 h in start_Locked j i m e s d
  Reached-Locked i (follow {y = y} w h) =
      let (m, e, d) = (mem-deps_at y i).0 h in
      chain y i m (Reached-Locked y w) e ((hard_deps-mem m i).0 d)

  Locked-Reached :
      (i : ℕ)
      → Locked i
      → Memᴰ i (seeds classes mods) ⊎ Reached (deps_at classes mods) (start_queue classes mods) i
  Locked-Reached i (seed _ m e q) = inl ((mem-seeds i).1 (m, e, (is_seed_iff m).1 q))
  Locked-Reached i (need j _ m e on d) =
      inr (begin ((mem-start_queue i).1 (j, m, e, rw on refl, (hard_deps-mem m i).1 d)))
  Locked-Reached i (chain j _ m w e d) = inr (
      ⊎_elim
        (λ s.
          let (n, f, q) = (mem-seeds j).0 s in
          begin (
            (mem-start_queue i).1 (
              j,
              m,
              e,
              rw (some_inj.0 (sym e ∙ f), seed_enabled n q) refl,
              (hard_deps-mem m i).1 d,
            )))
        (λ r. follow r ((mem-deps_at j i).1 (m, e, (hard_deps-mem m i).1 d))) (Locked-Reached j w))

  -- the walk collects what is locked, no more and no less
  pub mem-walk : (r : List ℕ) (i : ℕ) → walk classes mods ≡ some r → Memᴰ i r ↔ Locked i
  unfolding walk
  mem-walk r i h =
      let collected =
        drain_mem (deps_at classes mods) (walk_fuel classes mods) (seeds classes mods)
          (start_queue classes mods) r seeds-IsQueued h i in
      (
        λ m.
            ⊎_elim (λ s. let (n, e, q) = (mem-seeds i).0 s in seed i n e ((is_seed_iff n).0 q))
              (Reached-Locked i) (collected.0 m),
        λ l. collected.1 (Locked-Reached i l),
      )
