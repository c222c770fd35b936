-- ===== src/Http/Auth/Gate.antt =====
-- Who passes the gate of src/http/auth.rs, in the words of the rule instead of the code's.
use smrt.Base.{
  ◌≤◌, ◌≡◌, refl, sym, ap, ◌∙◌, ◌↔◌, ◌⊎◌, inl, inr, Bool, true, false, Option, none, some, List,
  Memᴰ, arith, ◌==◌, ℕ-Eq, Bool-cases, Option-cases, ◌>>=◌, Memᴰ-retain, Text, Text-Eq, int_eq_iff,
  ℤ-Eq,
}
use mathlib.Core.Logic.{⊎_elim}
use mathlib.Core.Path.{subst}
use mathlib.Core.Option.{some_inj}
use smrt.Base.Results.{Result, err, ok, ok_inj}
use smrt.Keyed.{last_with}
use smrt.Accounts.{
  Role, member, admin, debug, role_rank, at_least_admin, Identity, PackLevel, view, edit, own,
  level_rank, covers, AccountReads, Suspension,
}
use smrt.Http.{done, Reply-cases}
use smrt.Http.Auth.{
  pack_namespace_uid, inherent_level, not_suspended, granted_level, authorize, filter_may,
  reachable, granted_to, by_level, read_or_none, allowed, covers_some,
}

-- an operator of the mirror
abbrev pub IsOperator : Identity → Type 0
IsOperator identity = ¬ (identity.role ≡ member)

-- the store was read, and says that this account is stopped
abbrev pub IsStopped : AccountReads → Identity → Type 0
IsStopped reads identity =
    (¬ IsOperator identity) × (s : Suspension) × (reads.suspension_of identity.uid ≡ ok (some s))

-- the pack lies in this person's namespace
abbrev pub IsNamespaceOwner : Identity → Text → Type 0
IsNamespaceOwner identity pack_id = pack_namespace_uid pack_id ≡ some identity.uid

-- the store was read, and grants this level or more
abbrev pub IsGranted : AccountReads → Identity → Text → PackLevel → Type 0
IsGranted reads identity pack_id need =
    (level : PackLevel) × (reads.pack_access_level pack_id identity.uid ≡ ok (some level))
    × (level_rank need ≤ level_rank level)

admin_iff : (role : Role) → (at_least_admin role ≡ true) ↔ (¬ (role ≡ member))
unfolding at_least_admin role_rank
admin_iff member = (λ h. cc, λ h. absurd (h refl))
admin_iff admin = (λ h e. cc, λ h. refl)
admin_iff debug = (λ h e. cc, λ h. refl)

stopped_iff :
    (reads : AccountReads) (identity : Identity) (r : Result (Option Suspension))
    → reads.suspension_of identity.uid ≡ r
    → at_least_admin identity.role ≡ false
    → (not_suspended reads identity ≡ done tt) ↔ (¬ ((s : Suspension) × (r ≡ ok (some s))))
unfolding not_suspended
stopped_iff reads identity (err m) e low = rw (e, low) (λ h (s, q). cc, λ h. refl)
stopped_iff reads identity (ok none) e low = rw (e, low) (λ h (s, q). cc, λ h. refl)
stopped_iff reads identity (ok (some s)) e low = rw (e, low) (λ h. cc, λ h. absurd (h (s, refl)))

not_suspended_iff :
    (reads : AccountReads) (identity : Identity)
    → (not_suspended reads identity ≡ done tt) ↔ (¬ IsStopped reads identity)
unfolding not_suspended
not_suspended_iff reads identity =
    let role = admin_iff identity.role in
    elim (Bool-cases (at_least_admin identity.role)) [
      | inl e ↦ rw (e, not_suspended) (λ h (low, s, q). low (role.0 e), λ h. refl)
      | inr e ↦
          let read = stopped_iff reads identity (reads.suspension_of identity.uid) refl e in
          let low : ¬ IsOperator identity = λ op. cc (e, role.1 op) in
          (λ h (n, s, q). read.0 h (s, q), λ h. read.1 (λ (s, q). h (low, s, q)))
    ]

covers_iff :
    (level need : PackLevel) → (covers level need ≡ true) ↔ (level_rank need ≤ level_rank level)
unfolding covers
covers_iff level need = ground arith

own_covers : (need : PackLevel) → covers own need ≡ true
unfolding covers level_rank
own_covers view = refl
own_covers edit = refl
own_covers own = refl

allowed_iff : (b : Bool) → (allowed b ≡ done tt) ↔ (b ≡ true)
allowed_iff true = (λ h. refl, λ h. refl)
allowed_iff false = (λ h. cc, λ h. cc)

granted_iff :
    (r : Result (Option PackLevel)) (need : PackLevel)
    → (covers_some (read_or_none r) need ≡ true)
      ↔ ((level : PackLevel) × (r ≡ ok (some level)) × (level_rank need ≤ level_rank level))
granted_iff (err m) need = (λ h. cc, λ (l, e, b). cc)
granted_iff (ok none) need = (λ h. cc, λ (l, e, b). cc)
granted_iff (ok (some level)) need = (
  λ h. (level, refl, (covers_iff level need).0 h),
  λ (l, e, b).
      (covers_iff level need).1
        (subst (λ x. level_rank need ≤ level_rank x) (some_inj.0 (ok_inj _ _ (sym e))) b),
)

-- what is known of a caller without asking the store
pub inherent_level_cases :
    (identity : Identity) (pack_id : Text)
    → ((IsOperator identity ⊎ IsNamespaceOwner identity pack_id)
        × (inherent_level identity pack_id ≡ some own))
      ⊎ ((¬ IsOperator identity)
          × (¬ IsNamespaceOwner identity pack_id)
          × (inherent_level identity pack_id ≡ none))
unfolding inherent_level
inherent_level_cases identity pack_id =
    let role = admin_iff identity.role in
    elim (Bool-cases (at_least_admin identity.role)) [
      | inl e ↦ inl (inl (role.0 e), rw e refl)
      | inr e ↦
          let low : ¬ IsOperator identity = λ op. cc (e, role.1 op) in
          elim (Option-cases (pack_namespace_uid pack_id)) [
            | inl n ↦ inr (low, λ o. cc (n, o), rw (e, n) refl)
            | inr (owner, n) ↦ elim (Bool-cases (identity.uid == owner)) [
              | inl q ↦
                  inl (
                    inr (n ∙ ap some (sym ((int_eq_iff identity.uid owner).0 q))),
                    rw (e, n, q) refl,
                  )
              | inr q ↦ inr (
                low,
                λ o. cc (q, (int_eq_iff identity.uid owner).1 (some_inj.0 (sym o ∙ n))),
                rw (e, n, q) refl,
              )
            ]
          ]
    ]

by_level_iff :
    (reads : AccountReads) (identity : Identity) (pack_id : Text) (need : PackLevel)
    → (by_level reads identity pack_id need ≡ done tt) ↔ (
        IsOperator identity
        ⊎ IsNamespaceOwner identity pack_id
        ⊎ IsGranted reads identity pack_id need)
unfolding granted_level
by_level_iff reads identity pack_id need = elim (inherent_level_cases identity pack_id) [
  | inl (who, e) ↦
      rw (e, by_level)
        (λ h. ⊎_elim inl (λ o. inr (inl o)) who, λ h. (allowed_iff _).1 (own_covers need))
  | inr (low, other, e) ↦
      let granted = granted_iff (reads.pack_access_level pack_id identity.uid) need in
      rw (e, by_level)
        (
          λ h. inr (inr (granted.0 ((allowed_iff _).0 h))),
          λ h.
              (allowed_iff _).1
                (⊎_elim (λ o. absurd (low o)) (λ k. ⊎_elim (λ o. absurd (other o)) granted.1 k) h),
        )
]

view_iff : (need : PackLevel) → (covers need edit ≡ false) ↔ (need ≡ view)
unfolding covers level_rank
view_iff view = (λ h. refl, λ h. refl)
view_iff edit = (λ h. cc, λ h. cc)
view_iff own = (λ h. cc, λ h. cc)

-- The gate lets a caller through exactly when they only want to look, or the store does not say that
-- their account is stopped; and they are an operator, or the pack lies in their namespace, or the
-- store could be read and grants them that level or a higher one. A store that cannot be read
-- grants nothing, and stops nobody.
pub authorize_iff :
    (reads : AccountReads) (identity : Identity) (pack_id : Text) (need : PackLevel)
    → (authorize reads identity pack_id need ≡ done tt) ↔ (
        ((need ≡ view) ⊎ (¬ IsStopped reads identity))
        × (IsOperator identity
            ⊎ IsNamespaceOwner identity pack_id
            ⊎ IsGranted reads identity pack_id need))
unfolding authorize
authorize_iff reads identity pack_id need =
    let level = by_level_iff reads identity pack_id need in
    let stopped = not_suspended_iff reads identity in
    let looks = view_iff need in
    elim (Bool-cases (covers need edit)) [
      | inl e ↦ elim (Reply-cases (not_suspended reads identity)) [
        | inl (error, f) ↦
            rw (e, f, authorize)
              (
                λ h. cc,
                λ (p, q).
                    ⊎_elim (λ v. absurd (cc (e, looks.1 v))) (λ n. absurd (cc (f, stopped.1 n))) p,
              )
        | inr (u, f) ↦
            rw (e, f, authorize) (λ h. (inr (stopped.0 f), level.0 h), λ (p, q). level.1 q)
      ]
      | inr e ↦ rw (e, authorize) (λ h. (inl (looks.0 e), level.0 h), λ (p, q). level.1 q)
    ]

-- The store lists, for this person, the grants that it answers one by one.
abbrev pub HasListing : AccountReads → Identity → Type 0
HasListing reads identity =
    (granted : List (Text × PackLevel)) × (reads.packs_granted_to identity.uid ≡ ok granted)
    × ((pack_id : Text)
        → reads.pack_access_level pack_id identity.uid
          ≡ ok (last_with (λ g. g.0) pack_id granted >>= λ g. some g.1))

found_iff :
    (o : Option (Text × PackLevel)) (need : PackLevel)
    → (elim o [ none ↦ false | some g ↦ covers g.1 need ] ≡ true)
      ↔ (allowed (covers_some (o >>= λ g. some g.1) need) ≡ done tt)
found_iff none need = ((allowed_iff _).1, (allowed_iff _).0)
found_iff (some g) need = ((allowed_iff _).1, (allowed_iff _).0)

reachable_iff :
    (reads : AccountReads) (identity : Identity) (id : Text) (need : PackLevel)
    → HasListing reads identity
    → (reachable reads identity need id ≡ true) ↔ (by_level reads identity id need ≡ done tt)
reachable_iff reads identity id need (granted, listed, each) =
    let level : granted_level reads identity.uid id
        ≡ (last_with (λ g. g.0) id granted >>= λ g. some g.1) =
      unfold granted_level in ap read_or_none (each id) in
    elim (Option-cases (inherent_level identity id)) [
      | inl e ↦
          rw (e, by_level, reachable, granted_to, listed, level)
            (found_iff (last_with (λ g. g.0) id granted) need)
      | inr (level, e) ↦ rw (e, by_level, reachable) ((allowed_iff _).1, (allowed_iff _).0)
    ]

-- Where the store's listing and its single answers agree, the bulk filter keeps of the packs it is
-- given those that the gate lets the caller through to, but for a suspension, which only the gate
-- asks about: a stopped account passes the filter for a write and not the gate.
pub filter_may-authorize :
    (reads : AccountReads) (identity : Identity) (packs : List Text) (id : Text) (need : PackLevel)
    → HasListing reads identity
    → Memᴰ id packs
    → (authorize reads identity id need ≡ done tt) ↔ (
        Memᴰ id (filter_may reads identity packs need)
        × ((need ≡ view) ⊎ (¬ IsStopped reads identity)))
unfolding filter_may
filter_may-authorize reads identity packs id need listing m =
    let gate = authorize_iff reads identity id need in
    let level = by_level_iff reads identity id need in
    let reach = reachable_iff reads identity id need listing in
    let kept = Memᴰ-retain (reachable reads identity need) id packs in
    (
      λ h. (kept.1 (m, reach.1 (level.1 (gate.0 h).1)), (gate.0 h).0),
      λ (k, p). gate.1 (p, level.0 (reach.0 (kept.0 k).1)),
    )
