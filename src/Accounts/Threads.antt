-- ===== src/Accounts/Threads.antt =====
-- src/accounts/mod.rs: reports and proposals on a pack, how they are opened, settled, opened again and
-- dropped with their pack.
pub mod Lifecycle
use smrt.Base.{
  ℕ, suc, ◌+◌, ◌-◌, ◌/◌, max, Bool, not, ◌&&◌, ◌||◌, Option, none, some, List, [], ◌∷◌, ◌++◌,
  if◌then◌else◌, ◌==◌, ℕ-Eq, Text, txt, Text-Eq, ℤ, pos, ℤ-Eq, false, retain,
}
use smrt.Base.Results.{Result, err, ok}
use smrt.Table.{select, update, reaches}

-- a row of `pack_threads`
pub record ThreadRow : Type 0 where
  pub id : ℕ
  pub pack_id : Text
  pub kind : Text
  pub title : Text
  pub body : Text
  pub by_uid : ℤ
  pub status : Text
  pub source_pack : Option Text
  pub source_commit : Option Text
  pub merged_commit : Option Text
  pub created_at : ℕ
  pub decided_at : Option ℕ
  pub decided_by : Option ℤ

abbrev pub thread_key : ThreadRow → ℕ
thread_key t = t.id

unfoldable pub next_thread_id : List ThreadRow → ℕ
next_thread_id [] = 1
next_thread_id (t ∷ ts) = max (suc t.id) (next_thread_id ts)

abbrev source_of : (Text × Text → Text) → Option (Text × Text) → Option Text
source_of part none = none
source_of part (some source) = some (part source)

unfoldable pub open_thread :
    List ThreadRow
    → Text
    → Text
    → Text
    → Text
    → ℤ
    → Option (Text × Text)
    → ℕ
    → Result (List ThreadRow × ℕ)
open_thread threads pack_id kind title body by_uid source now =
    if not (kind == txt "issue" || kind == txt "proposal")
    then err (txt "unknown thread kind " ++ kind)
    else ok (
      threads
          ++ (record {
            id = next_thread_id threads;
            pack_id = pack_id;
            kind = kind;
            title = title;
            body = body;
            by_uid = by_uid;
            status = txt "open";
            source_pack = source_of (λ s. s.0) source;
            source_commit = source_of (λ s. s.1) source;
            merged_commit = none;
            created_at = now;
            decided_at = none;
            decided_by = none;
          }
              ∷ []),
      next_thread_id threads,
    )

unfoldable pub is_open : ThreadRow → Bool
is_open t = t.status == txt "open"

unfoldable pub is_settled_status : Text → Bool
is_settled_status status =
    status == txt "closed"
    || status == txt "merged"
    || status == txt "declined"
    || status == txt "withdrawn"

-- `SET status = ?2, decided_at = ?3, decided_by = ?4, merged_commit = ?5`
abbrev pub settled_row : Text → ℤ → Option Text → ℕ → ThreadRow → ThreadRow
settled_row status decided_by merged_commit now t = record {
  id = t.id;
  pack_id = t.pack_id;
  kind = t.kind;
  title = t.title;
  body = t.body;
  by_uid = t.by_uid;
  status = status;
  source_pack = t.source_pack;
  source_commit = t.source_commit;
  merged_commit = merged_commit;
  created_at = t.created_at;
  decided_at = some now;
  decided_by = some decided_by;
}

unfoldable pub settle_thread :
    List ThreadRow → ℕ → Text → ℤ → Option Text → ℕ → Result (List ThreadRow × Bool)
unfolding is_open is_settled_status
settle_thread threads id status decided_by merged_commit now =
    if not (is_settled_status status)
    then err (txt "unknown thread status " ++ status)
    else ok (
      update thread_key id is_open (settled_row status decided_by merged_commit now) threads,
      reaches thread_key id is_open threads,
    )

-- `pack_id = ?1 OR source_pack = ?1`
abbrev pub is_source : Text → Option Text → Bool
is_source pack_id none = false
is_source pack_id (some source) = source == pack_id

unfoldable pub is_about : Text → ThreadRow → Bool
is_about pack_id t = t.pack_id == pack_id || is_source pack_id t.source_pack

unfoldable pub forget_pack_threads : List ThreadRow → Text → List ThreadRow
unfolding is_about
forget_pack_threads threads pack_id = retain (λ t. not (is_about pack_id t)) threads

unfoldable pub is_closed_issue : ThreadRow → Bool
is_closed_issue t = (t.kind == txt "issue") && (t.status == txt "closed")

-- `SET status = 'open', decided_at = NULL, decided_by = NULL`
abbrev pub reopened_row : ThreadRow → ThreadRow
reopened_row t = record {
  id = t.id;
  pack_id = t.pack_id;
  kind = t.kind;
  title = t.title;
  body = t.body;
  by_uid = t.by_uid;
  status = txt "open";
  source_pack = t.source_pack;
  source_commit = t.source_commit;
  merged_commit = t.merged_commit;
  created_at = t.created_at;
  decided_at = none;
  decided_by = none;
}

unfoldable pub reopen_issue : List ThreadRow → ℕ → List ThreadRow × Bool
unfolding is_closed_issue
reopen_issue threads id = (
  update thread_key id is_closed_issue reopened_row threads,
  reaches thread_key id is_closed_issue threads,
)
