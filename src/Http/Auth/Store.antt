-- ===== src/Http/Auth/Store.antt =====
-- The gate of src/http/auth.rs on the store of src/accounts/mod.rs: what a grant opens and a revocation shuts.
use smrt.Base.{
  ℕ, ◌≤◌, ◌≡◌, refl, ap, ◌⊎◌, inr, Option, none, some, List, arith, ℕ-Eq, Text, text_eq_iff,
  Text-Eq, ℤ, int_eq_iff, ℤ-Eq,
}
use mathlib.Core.Logic.{⊎_elim}
use smrt.Base.Results.{Result, ok, ok_inj}
use smrt.Table.{HasPrimaryKey, Pair-Eq}
use smrt.Accounts.{User, Identity, PackLevel, view, level_rank, AccountReads}
use smrt.Accounts.Access.{
  AccessRow, SuspensionRow, access_key, pack_access_level, packs_granted_to, identity_of,
  suspension_of, grant_pack_access, revoke_pack_access,
}
use smrt.Accounts.Access.Laws.{grant_pack_access-lookup, revoke_pack_access-lookup}
use smrt.Accounts.Access.Listing.{HasLevels, pack_access_level-listing}
use smrt.Accounts.Session.{SessionRow, session_identity}
use smrt.Http.{Reply, done}
use smrt.Http.Auth.{authorize}
use smrt.Http.Auth.Gate.{IsOperator, IsStopped, IsNamespaceOwner, HasListing, authorize_iff}

-- the store's answers, when every read succeeds
abbrev pub reads_of :
    List User → List AccessRow → List SuspensionRow → List SessionRow → ℕ → AccountReads
reads_of users rows suspensions sessions now = record {
  pack_access_level = λ pack_id uid. ok (pack_access_level rows pack_id uid);
  packs_granted_to = λ uid. ok (packs_granted_to rows uid);
  identity_of = λ uid. ok (identity_of users uid);
  suspension_of = λ uid. ok (suspension_of users suspensions uid);
  session_identity =
      λ sid. ok (session_identity (record { users = users; sessions = sessions }) sid now).1;
}

-- The store meets what the bulk filter relies on: it lists the grants that it answers one by one.
pub reads_of-HasListing :
    (users : List User) (rows : List AccessRow) (suspensions : List SuspensionRow)
    (sessions : List SessionRow) (now : ℕ) (identity : Identity)
    → HasPrimaryKey access_key rows
    → HasLevels rows
    → HasListing (reads_of users rows suspensions sessions now) identity
reads_of-HasListing users rows suspensions sessions now identity p levels = (
  packs_granted_to rows identity.uid,
  refl,
  λ pack_id.
      ap {B = Result (Option PackLevel)} ok
        (pack_access_level-listing rows identity.uid pack_id p levels),
)

module _ (users : List User) (suspensions : List SuspensionRow) (sessions : List SessionRow) where
  abbrev gate : List AccessRow → ℕ → Identity → Text → PackLevel → Reply {0} Unit
  gate rows now identity pack_id need =
      authorize (reads_of users rows suspensions sessions now) identity pack_id need

  -- After a grant the gate lets that person do to that pack what the level covers, unless they need to
  -- write and their account is stopped.
  pub grant-authorize :
      (rows granted : List AccessRow) (identity : Identity) (pack_id : Text)
      (level need : PackLevel) (by : ℤ) (now later : ℕ)
      → HasPrimaryKey access_key rows
      → grant_pack_access rows pack_id identity.uid level by now ≡ ok granted
      → level_rank need ≤ level_rank level
      → (need ≡ view) ⊎ (¬ IsStopped (reads_of users granted suspensions sessions later) identity)
      → gate granted later identity pack_id need ≡ done tt
  grant-authorize rows granted identity pack_id level need by now later keyed h covers free =
      let (real, opened, kept) =
        grant_pack_access-lookup rows granted pack_id pack_id identity.uid identity.uid level by now
          keyed h in
      let found : pack_access_level granted pack_id identity.uid ≡ some level =
        ground (arith, opened, text_eq_iff pack_id pack_id, int_eq_iff identity.uid identity.uid) in
      (authorize_iff (reads_of users granted suspensions sessions later) identity pack_id need).1
        (free, inr (inr (level, ap {B = Result (Option PackLevel)} ok found, covers)))

  -- After a revocation the gate lets that person do nothing to that pack, not even look, unless they
  -- are an operator or it lies in their own namespace.
  pub revoke-authorize :
      (rows : List AccessRow) (identity : Identity) (pack_id : Text) (need : PackLevel) (later : ℕ)
      → HasPrimaryKey access_key rows
      → ¬ IsOperator identity
      → ¬ IsNamespaceOwner identity pack_id
      → ¬ (
          gate (revoke_pack_access rows pack_id identity.uid).0 later identity pack_id need
          ≡ done tt)
  revoke-authorize rows identity pack_id need later keyed low other passed =
      let left = (revoke_pack_access rows pack_id identity.uid).0 in
      let (shut, _, _) =
        revoke_pack_access-lookup rows pack_id pack_id identity.uid identity.uid keyed in
      let gone : pack_access_level left pack_id identity.uid ≡ none =
        ground (arith, shut, text_eq_iff pack_id pack_id, int_eq_iff identity.uid identity.uid) in
      let (_, reason) =
        (authorize_iff (reads_of users left suspensions sessions later) identity pack_id need).0
          passed in
      ⊎_elim low
        (λ k.
          ⊎_elim other (λ (level, found, _). cc (gone, ok_inj {A = Option PackLevel} _ _ found)) k)
        reason
