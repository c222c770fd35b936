-- ===== src/Accounts/Threads/Lifecycle.antt =====
-- The life of a thread of src/accounts/mod.rs, as the steps that the store takes.
use smrt.Base.{
  ℕ, ◌≡◌, refl, sym, ap, ◌∙◌, inl, inr, Bool, true, false, not, retain, Memᴰ, Option, none, some,
  List, [], ◌∷◌, ◌++◌, arith, ◌==◌, ℕ-Eq, Bool-cases, Text, txt, text_eq, text_eq_iff, Text-Eq, ℤ,
  ℤ-Eq,
}
use smrt.Base.Results.{ok, guard-ok}
use mathlib.Core.List.Memᴰ
use mathlib.Core.Option.{some_inj}
use mathlib.Core.Path.{subst}
use smrt.Table.{select, update, reaches}
use smrt.Table.Laws.{
  select-update, select-append_some, updated, updated_cases, update-unreached, reaches-update,
}
use smrt.Accounts.Threads.{
  ThreadRow, thread_key, settled_row, reopened_row, open_thread, settle_thread, reopen_issue,
  is_open, is_settled_status, is_closed_issue, is_source, is_about, forget_pack_threads,
}

-- One call that writes `pack_threads`, by anybody at any time, with the packs whose threads it drops.
pub data Step : List Text → List ThreadRow → List ThreadRow → Type 0 where
  opened :
      {ts us : List ThreadRow} (pack_id kind title body : Text) (by : ℤ)
      (source : Option (Text × Text)) (now id : ℕ)
      → open_thread ts pack_id kind title body by source now ≡ ok (us, id)
      → Step [] ts us
  settled :
      {ts us : List ThreadRow} (id : ℕ) (status : Text) (by : ℤ) (merged : Option Text) (now : ℕ)
      (won : Bool)
      → settle_thread ts id status by merged now ≡ ok (us, won)
      → Step [] ts us
  reopened : {ts us : List ThreadRow} (id : ℕ) → us ≡ (reopen_issue ts id).0 → Step [] ts us
  forgot :
      {ts us : List ThreadRow} (pack_id : Text)
      → us ≡ forget_pack_threads ts pack_id
      → Step (pack_id ∷ []) ts us

-- Calls one after another, with all the packs whose threads they drop.
pub data Run : List Text → List ThreadRow → List ThreadRow → Type 0 where
  done : {ts : List ThreadRow} → Run [] ts ts
  then_run :
      {dropped more : List Text} {ts us vs : List ThreadRow}
      → Step dropped ts us
      → Run more us vs
      → Run (dropped ++ more) ts vs

-- The thread is neither on a dropped pack nor does it come from one.
abbrev pub IsSpared : List Text → ThreadRow → Type 0
IsSpared dropped t =
    (¬ Memᴰ t.pack_id dropped)
    × ((source : Text) → t.source_pack ≡ some source → ¬ Memᴰ source dropped)

-- What is asked: all of a thread but its standing.
abbrev pub offer : ThreadRow → Text × Text × Text × Text × ℤ × Option Text × Option Text × ℕ
offer t =
    (t.pack_id, t.kind, t.title, t.body, t.by_uid, t.source_pack, t.source_commit, t.created_at)

-- how a later row of a thread stands to an earlier one
abbrev Follows : ThreadRow → ThreadRow → Type 0
Follows t u = (offer u ≡ offer t) × ((is_open t ≡ false) → (is_closed_issue t ≡ false) → u ≡ t)

-- a row that follows is spared where the first is
Follows-IsSpared :
    (dropped : List Text) (t u : ThreadRow) → Follows t u → IsSpared dropped t → IsSpared dropped u
Follows-IsSpared dropped t u f (p, q) = (
  λ m. p (subst (λ x. Memᴰ x dropped) (ap (λ o. o.0) f.0) m),
  λ source e m. q source (sym (ap (λ o. o.5) f.0) ∙ e) m,
)

IsSpared-append :
    (dropped more : List Text) (t : ThreadRow)
    → IsSpared (dropped ++ more) t
    → IsSpared dropped t × IsSpared more t
IsSpared-append dropped more t (p, q) = (
  (λ m. p (Memᴰ.append_left more m), λ source e m. q source e (Memᴰ.append_left more m)),
  (λ m. p (Memᴰ.append_right dropped m), λ source e m. q source e (Memᴰ.append_right dropped m)),
)

not_single : (a b : Text) → ¬ Memᴰ a (b ∷ []) → a == b ≡ false
not_single a b h = elim (Bool-cases (a == b)) [
  | inl e ↦ absurd (h (Memᴰ.head ((text_eq_iff a b).0 e)))
  | inr e ↦ e
]

not_source :
    (pack_id : Text) (o : Option Text)
    → ((source : Text) → o ≡ some source → ¬ Memᴰ source (pack_id ∷ []))
    → is_source pack_id o ≡ false
not_source pack_id none h = refl
not_source pack_id (some source) h = not_single source pack_id (h source refl)

spared-is_about :
    (pack_id : Text) (t : ThreadRow) → IsSpared (pack_id ∷ []) t → is_about pack_id t ≡ false
unfolding is_about
spared-is_about pack_id t (p, q) =
    rw (not_single t.pack_id pack_id p, not_source pack_id t.source_pack q) refl

select-retain :
    (ts : List ThreadRow) (k : ℕ) (t : ThreadRow) (p : ThreadRow → Bool)
    → select thread_key k ts ≡ some t
    → p t ≡ true
    → select thread_key k (retain p ts) ≡ some t
unfolding select
select-retain [] k t p h q = cc
select-retain (x ∷ ts) k t p h q = elim (Bool-cases (thread_key x == k)) [
  | inl e ↦
      let same : x ≡ t = some_inj.0 (rw e at h) in
      rw (ap p same ∙ q, e) (ap {B = Option ThreadRow} some same)
  | inr e ↦
      let rest = select-retain ts k t p (rw e at h) q in
      elim (Bool-cases (p x)) [ inl f ↦ rw (f, e) rest | inr f ↦ rw f rest ]
]

Follows-trans : (t u v : ThreadRow) → Follows t u → Follows u v → Follows t v
Follows-trans t u v (a, f) (b, g) =
    (b ∙ a, λ p q. let e = f p q in g (ap is_open e ∙ p) (ap is_closed_issue e ∙ q) ∙ e)

open_thread-ok :
    (ts us : List ThreadRow) (pack_id kind title body : Text) (by : ℤ)
    (source : Option (Text × Text)) (now id : ℕ)
    → open_thread ts pack_id kind title body by source now ≡ ok (us, id)
    → (t : ThreadRow) × (ts ++ (t ∷ []) ≡ us)
unfolding open_thread
open_thread-ok ts us pack_id kind title body by source now id h =
    (_, ap (λ r. r.0) (guard-ok _ (txt "unknown thread kind " ++ kind) _ _ h).1)

-- an update that keeps the offer, and is only made of rows that may still change
updated-Follows :
    (id : ℕ) (condition : ThreadRow → Bool) (change : ThreadRow → ThreadRow) (t : ThreadRow)
    → ((y : ThreadRow) → offer (change y) ≡ offer y)
    → ((y : ThreadRow) → is_open y ≡ false → is_closed_issue y ≡ false → condition y ≡ false)
    → Follows t (updated thread_key id condition change t)
updated-Follows id condition change t k c = elim (updated_cases thread_key id condition change t) [
  | inl e ↦ (ap offer e, λ p q. e)
  | inr (h, e) ↦ (ap offer e ∙ k t, λ p q. cc (h, c t p q))
]

-- an update leaves every thread findable
update-Follows :
    (ts us : List ThreadRow) (k id : ℕ) (condition : ThreadRow → Bool)
    (change : ThreadRow → ThreadRow) (t : ThreadRow)
    → update thread_key id condition change ts ≡ us
    → ((y : ThreadRow) → (change y).id ≡ y.id)
    → ((y : ThreadRow) → offer (change y) ≡ offer y)
    → ((y : ThreadRow) → is_open y ≡ false → is_closed_issue y ≡ false → condition y ≡ false)
    → select thread_key k ts ≡ some t
    → (u : ThreadRow) × (select thread_key k us ≡ some u) × Follows t u
update-Follows ts us k id condition change t e same keeps never s = (
  updated thread_key id condition change t,
  subst (λ l. select thread_key k l ≡ some (updated thread_key id condition change t)) e
      (select-update thread_key ts k id condition change t same s),
  updated-Follows id condition change t keeps never,
)

Step-Follows :
    (dropped : List Text) (ts us : List ThreadRow) (k : ℕ) (t : ThreadRow)
    → Step dropped ts us
    → IsSpared dropped t
    → select thread_key k ts ≡ some t
    → (u : ThreadRow) × (select thread_key k us ≡ some u) × Follows t u
unfolding settle_thread reopen_issue forget_pack_threads
Step-Follows _ ts us k t (opened pack_id kind title body by source now id h) spared s =
    let (new, e) = open_thread-ok ts us pack_id kind title body by source now id h in
    (
      t,
      subst (λ l. select thread_key k l ≡ some t) e
          (select-append_some thread_key ts (new ∷ []) k t s),
      (refl, λ p q. refl),
    )
Step-Follows _ ts us k t (settled id status by merged now won h) spared s =
    let (legal, e) = guard-ok _ (txt "unknown thread status " ++ status) _ _ h in
    update-Follows ts us k id is_open (settled_row status by merged now) t (ap (λ r. r.0) e)
      (λ y. refl) (λ y. refl) (λ y p q. p) s
Step-Follows _ ts us k t (reopened id e) spared s =
    update-Follows ts us k id is_closed_issue reopened_row t (sym e) (λ y. refl) (λ y. refl)
      (λ y p q. q) s
Step-Follows _ ts us k t (forgot pack_id e) spared s = (
  t,
  subst (λ l. select thread_key k l ≡ some t) (sym e)
      (select-retain ts k t (λ x. not (is_about pack_id x)) s
        (ap not (spared-is_about pack_id t spared))),
  (refl, λ p q. refl),
)

Run-Follows :
    (dropped : List Text) (ts us : List ThreadRow) (k : ℕ) (t : ThreadRow)
    → Run dropped ts us
    → IsSpared dropped t
    → select thread_key k ts ≡ some t
    → (u : ThreadRow) × (select thread_key k us ≡ some u) × Follows t u
Run-Follows _ ts us k t done spared s = (t, s, (refl, λ p q. refl))
Run-Follows _ ts us k t (then_run {dropped = d} {more = more} {us = mid} step run) spared s =
    let (now, later) = IsSpared-append d more t spared in
    let (u, found, f) = Step-Follows d ts mid k t step now s in
    let (v, last, g) = Run-Follows more mid us k u run (Follows-IsSpared more t u f later) found in
    (v, last, Follows-trans t u v f g)

-- A settled proposal stays the row it is, whatever anybody writes to the store afterwards, unless its
-- pack, or the one it comes from, is deleted: it is not settled again, it does not open again, and who
-- decided it and when stand.
pub settled_proposal_stays :
    (dropped : List Text) (ts us : List ThreadRow) (id : ℕ) (t : ThreadRow)
    → Run dropped ts us
    → IsSpared dropped t
    → select thread_key id ts ≡ some t
    → ¬ (t.kind ≡ txt "issue")
    → ¬ (t.status ≡ txt "open")
    → select thread_key id us ≡ some t
unfolding is_open is_closed_issue
settled_proposal_stays dropped ts us id t run spared s proposal decided =
    let (u, found, follows) = Run-Follows dropped ts us id t run spared s in
    let shut : is_open t ≡ false = ground (arith, text_eq_iff t.status (txt "open")) in
    let no_issue : is_closed_issue t ≡ false = ground (arith, text_eq_iff t.kind (txt "issue")) in
    found ∙ ap {B = Option ThreadRow} some (follows.1 shut no_issue)

-- Whatever is written to the store, a thread that was opened is still there, and what it says and
-- offers is what it said: its pack, kind, title, body, author, and the pack and commit that it offers.
-- That is while neither its pack nor the one that it comes from is deleted.
pub Run-offer :
    (dropped : List Text) (ts us : List ThreadRow) (id : ℕ) (t : ThreadRow)
    → Run dropped ts us
    → IsSpared dropped t
    → select thread_key id ts ≡ some t
    → (u : ThreadRow) × (select thread_key id us ≡ some u) × (offer u ≡ offer t)
Run-offer dropped ts us id t run spared s =
    let (u, found, follows) = Run-Follows dropped ts us id t run spared s in (u, found, follows.0)

refused : is_settled_status (txt "open") ≡ false
unfolding is_settled_status txt text_eq
refused = refl

settled_status-open :
    (status : Text) → is_settled_status status ≡ true → status == txt "open" ≡ false
settled_status-open status h = elim (Bool-cases (status == txt "open")) [
  | inl e ↦
      cc
        (refused, subst (λ s. is_settled_status s ≡ true) ((text_eq_iff status (txt "open")).0 e) h)
  | inr e ↦ e
]

settle_thread-unreached :
    (us : List ThreadRow) (id : ℕ) (next : Text) (other : ℤ) (commit : Option Text) (later : ℕ)
    → is_settled_status next ≡ true
    → reaches thread_key id is_open us ≡ false
    → settle_thread us id next other commit later ≡ ok (us, false)
unfolding settle_thread
settle_thread-unreached us id next other commit later valid dry =
    let same =
      update-unreached thread_key us id is_open (settled_row next other commit later) dry in
    rw (valid, same, dry) refl

-- Of two people who settle one thread, at most one wins: after a call that settled it, or found
-- nothing to settle, the next with a status that exists answers `false` and changes nothing.
pub settle_thread_once :
    (ts us : List ThreadRow) (id : ℕ) (status next : Text) (by other : ℤ)
    (merged commit : Option Text) (now later : ℕ) (won : Bool)
    → settle_thread ts id status by merged now ≡ ok (us, won)
    → is_settled_status next ≡ true
    → settle_thread us id next other commit later ≡ ok (us, false)
unfolding settle_thread
settle_thread_once ts us id status next by other merged commit now later won h valid =
    let (legal, e) = guard-ok _ (txt "unknown thread status " ++ status) _ _ h in
    let was_valid : is_settled_status status ≡ true = ground arith in
    let dry : reaches thread_key id is_open us ≡ false =
      subst (λ l. reaches thread_key id is_open l ≡ false) (ap (λ r. r.0) e)
        (reaches-update thread_key ts id is_open (settled_row status by merged now)
          (λ y. settled_status-open status was_valid)) in
    settle_thread-unreached us id next other commit later valid dry
