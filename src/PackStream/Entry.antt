-- ===== src/PackStream/Entry.antt =====
-- How often somebody is counted in a pack of src/authoring/packstream.rs, after a join and after a drop.
use smrt.Base.{
  ℕ, suc, ◌-◌, ◌≡◌, refl, sym, ap, ◌∙◌, inl, inr, Bool, true, false, ◌&&◌, Option, none, some, List,
  [], arith, ltb, if◌then◌else◌, ◌==◌, ℕ-Eq, Bool-cases, Option-cases, ◌>>=◌, Text, text_eq_iff,
  Text-Eq, ℤ-Eq,
}
use mathlib.Core.Option.{some_inj}
use smrt.Table.{select, update, Pair-Eq}
use smrt.Table.Laws.{
  changed, updated, select-upsert_same, select-upsert_other, select-update_map, select-delete_same,
  select-delete_other, select-key,
}
use smrt.PackStream.{
  present, PackEvent, Editor, PackRoom, editor_key, room_key, new_room, Presence, room_roster,
  count_in, count_out, enter_room, publish, join, leave, drop_presence,
}

-- how often a login is counted in a room's map
abbrev count_of : Option Editor → Option ℕ
count_of o = o >>= λ e. some e.count

abbrev tally_of : List Editor → Text → Option ℕ
tally_of es login = count_of (select editor_key login es)

abbrev pub more : Option ℕ → ℕ
more none = 1
more (some n) = suc n

abbrev pub less : Option ℕ → Option ℕ
less none = none
less (some n) = if ltb 1 n then some (n - 1) else none

counted :
    (login : Text) (o : Option Editor)
    → some
        (changed editor_key
          (record { login = login; count = 1 })
          (λ e. record e { count = suc e.count })
          o).count
      ≡ some (more (o >>= λ e. some e.count))
counted login none = refl
counted login (some e) = refl

tally-count_in :
    (es : List Editor) (login k : Text)
    → tally_of (count_in login es) k
      ≡ (if k == login then some (more (tally_of es login)) else tally_of es k)
unfolding count_in
tally-count_in es login k = elim (Bool-cases (k == login)) [
  | inl q ↦
      rw (q, (text_eq_iff k login).0 q)
        (ap count_of (select-upsert_same editor_key _ _ es (λ e. refl))
          ∙ counted login (select editor_key login es))
  | inr q ↦ rw q (
      ap count_of (
        select-upsert_other editor_key _ _ es k (λ e. refl)
          (λ r. cc (q, (text_eq_iff k login).1 r))))
]

updated_count :
    (o : Option Editor) (login k : Text) (change : Editor → Editor)
    → ((e : Editor) → o ≡ some e → e.login ≡ k)
    → count_of (o >>= λ x. some (updated editor_key login (λ y. true) change x))
      ≡ (if k == login then (o >>= λ e. some (change e).count) else count_of o)
updated_count none login k change own = ground arith
updated_count (some e) login k change own =
    ground (arith, text_eq_iff e.login login, text_eq_iff k login, own e refl)

tally-update :
    (es : List Editor) (login k : Text) (change : Editor → Editor)
    → ((e : Editor) → (change e).login ≡ e.login)
    → tally_of (update editor_key login (λ x. true) change es) k ≡ (
        if k == login
        then (select editor_key k es >>= λ e. some (change e).count)
        else tally_of es k)
tally-update es login k change h =
    ap count_of (select-update_map editor_key es k login (λ x. true) change h)
    ∙ updated_count (select editor_key k es) login k change (λ e. select-key editor_key es k e)

tally-count_out :
    (es left : List Editor) (login k : Text)
    → count_out login es ≡ some left
    → tally_of left k ≡ (if k == login then less (tally_of es login) else tally_of es k)
unfolding count_out
tally-count_out es left login k h = elim (Option-cases (select editor_key login es)) [
  | inl e ↦ cc (rw e at h)
  | inr (found, e) ↦ elim (Bool-cases (ltb 1 found.count)) [
    | inl big ↦
        let same = some_inj.0 (rw (e, big) at h) in
        ap (λ x. tally_of x k) (sym same)
        ∙ tally-update es login k (λ x. record x { count = x.count - 1 }) (λ x. refl)
        ∙ elim (Bool-cases (k == login)) [
          | inl q ↦ rw (q, (text_eq_iff k login).0 q, e, big) refl
          | inr q ↦ rw q refl
        ]
    | inr small ↦
        let same = some_inj.0 (rw (e, small) at h) in
        ap (λ x. tally_of x k) (sym same) ∙ elim (Bool-cases (k == login)) [
          | inl q ↦
              rw (q, (text_eq_iff k login).0 q, e, small)
                (ap count_of (select-delete_same editor_key es login))
          | inr q ↦ rw q (
              ap count_of (
                select-delete_other editor_key es k login (λ r. cc (q, (text_eq_iff k login).1 r))))
        ]
  ]
]

count_out-none :
    (es : List Editor) (login : Text) → count_out login es ≡ none → tally_of es login ≡ none
unfolding count_out
count_out-none es login h = elim (Option-cases (select editor_key login es)) [
  | inl e ↦ ap count_of e
  | inr (found, e) ↦ cc (rw e at h)
]

-- how often a login is counted in a pack's room
abbrev tally_in : Text → Option PackRoom → Option ℕ
tally_in login o = o >>= λ r. tally_of r.editors login

abbrev pub entry : List PackRoom → Text → Text → Option ℕ
entry rooms pack_id login = tally_in login (select room_key pack_id rooms)

updated_entry :
    (o : Option PackRoom) (p q k : Text) (change : PackRoom → PackRoom)
    → ((r : PackRoom) → o ≡ some r → r.pack_id ≡ q)
    → tally_in k (o >>= λ r. some (updated room_key p (λ x. true) change r))
      ≡ (if q == p then (o >>= λ r. tally_of (change r).editors k) else tally_in k o)
updated_entry none p q k change own = ground arith
updated_entry (some r) p q k change own =
    ground (arith, text_eq_iff r.pack_id p, text_eq_iff q p, own r refl)

entry-update :
    (rooms : List PackRoom) (p q k : Text) (change : PackRoom → PackRoom)
    → ((r : PackRoom) → (change r).pack_id ≡ r.pack_id)
    → entry (update room_key p (λ x. true) change rooms) q k ≡ (
        if q == p
        then (select room_key q rooms >>= λ r. tally_of (change r).editors k)
        else entry rooms q k)
entry-update rooms p q k change h =
    ap (tally_in k) (select-update_map room_key rooms q p (λ x. true) change h)
    ∙ updated_entry (select room_key q rooms) p q k change (λ r. select-key room_key rooms q r)

if_same {ℓ} : {A : Type ℓ} (b : Bool) (x : A) → (if b then x else x) ≡ x
if_same true x = refl
if_same false x = refl

entry-publish :
    (rooms : List PackRoom) (p q k : Text) (event : PackEvent)
    → entry (publish rooms p event) q k ≡ entry rooms q k
unfolding publish
entry-publish rooms p q k event = entry-update rooms p q k _ (λ r. refl) ∙ if_same (q == p) _

entered :
    (o : Option PackRoom) (p l k : Text)
    → tally_of (changed room_key (enter_room l (new_room p)) (enter_room l) o).editors k
      ≡ (if k == l then some (more (tally_in l o)) else tally_in k o)
unfolding enter_room
entered none p l k = tally-count_in [] l k ∙ unfold select in refl
entered (some r) p l k = tally-count_in r.editors l k

pub entry-join :
    (rooms : List PackRoom) (p l q k : Text)
    → entry (join rooms p l).0 q k
      ≡ (if (q == p) && (k == l) then some (more (entry rooms p l)) else entry rooms q k)
unfolding join
entry-join rooms p l q k = entry-publish _ p q k _ ∙ elim (Bool-cases (q == p)) [
  | inl e ↦
      rw (e, (text_eq_iff q p).0 e)
        (ap (tally_in k)
            (select-upsert_same room_key _ (enter_room l) rooms (λ r. unfold enter_room in refl))
          ∙ entered (select room_key p rooms) p l k)
  | inr e ↦ rw e (
      ap (tally_in k) (
        select-upsert_other room_key _ (enter_room l) rooms q (λ r. unfold enter_room in refl)
          (λ r. cc (e, (text_eq_iff q p).1 r))))
]

pub drop-no_room :
    (rooms : List PackRoom) (presence : Presence)
    → select room_key presence.pack_id rooms ≡ none
    → drop_presence rooms presence ≡ rooms
unfolding drop_presence leave
drop-no_room rooms presence e = rw (e, drop_presence, leave) refl

pub drop-no_entry :
    (rooms : List PackRoom) (presence : Presence) (room : PackRoom)
    → select room_key presence.pack_id rooms ≡ some room
    → count_out presence.login room.editors ≡ none
    → drop_presence rooms presence ≡ rooms
unfolding drop_presence leave
drop-no_entry rooms presence room e f = rw (e, drop_presence, leave, f) refl

pub drop-entry :
    (rooms : List PackRoom) (presence : Presence) (room : PackRoom) (left : List Editor)
    → select room_key presence.pack_id rooms ≡ some room
    → count_out presence.login room.editors ≡ some left
    → drop_presence rooms presence
      ≡ publish
          (update room_key presence.pack_id (λ r. true) (λ r. record r { editors = left }) rooms)
          presence.pack_id
          (present (room_roster (record room { editors = left })))
unfolding drop_presence leave
drop-entry rooms presence room left e f = rw (e, drop_presence, leave, f) refl

-- where nothing is counted, there is nothing to take away
pub unchanged :
    (rooms : List PackRoom) (p l q k : Text)
    → entry rooms p l ≡ none
    → entry rooms q k ≡ (if (q == p) && (k == l) then less (entry rooms p l) else entry rooms q k)
unchanged rooms p l q k h = elim (Bool-cases ((q == p) && (k == l))) [
  | inl e ↦
      let a = (text_eq_iff q p).0 (ground arith) in
      let b = (text_eq_iff k l).0 (ground arith) in rw (e, a, b, h) refl
  | inr e ↦ rw e refl
]

pub entry-drop :
    (rooms : List PackRoom) (presence : Presence) (q k : Text)
    → entry (drop_presence rooms presence) q k ≡ (
        if (q == presence.pack_id) && (k == presence.login)
        then less (entry rooms presence.pack_id presence.login)
        else entry rooms q k)
entry-drop rooms presence q k =
    let p = presence.pack_id in
    let l = presence.login in
    elim (Option-cases (select room_key p rooms)) [
      | inl e ↦
          ap (λ x. entry x q k) (drop-no_room rooms presence e)
          ∙ unchanged rooms p l q k (ap (tally_in l) e)
      | inr (room, e) ↦ elim (Option-cases (count_out l room.editors)) [
        | inl f ↦
            ap (λ x. entry x q k) (drop-no_entry rooms presence room e f)
            ∙ unchanged rooms p l q k (ap (tally_in l) e ∙ count_out-none room.editors l f)
        | inr (left, f) ↦
            ap (λ x. entry x q k) (drop-entry rooms presence room left e f)
            ∙ entry-publish _ p q k _
            ∙ entry-update rooms p q k (λ r. record r { editors = left }) (λ r. refl)
            ∙ elim (Bool-cases (q == p)) [
              | inl same ↦
                  rw (same, (text_eq_iff q p).0 same, e) (tally-count_out room.editors left l k f)
              | inr other ↦ rw other refl
            ]
      ]
    ]
