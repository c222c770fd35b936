-- ===== src/PackStream/Names.antt =====
-- The names that src/authoring/packstream.rs lists for a room: each of its editors, once.
use smrt.Base.{
  ltb, ◌≡◌, refl, sym, ap, ◌∙◌, ◌↔◌, inl, inr, true, Option, none, some, List, [], ◌∷◌, map, Memᴰ,
  arith, ◌==◌, ℕ-Eq, Bool-cases, Option-cases, is_some, Memᴰ-cons, Text, text_eq_iff, Text-Eq,
  text_lt, ℤ-Eq,
}
use mathlib.Core.List.Memᴰ
use mathlib.Core.Logic.{⊎_elim}
use smrt.Table.{select, Pair-Eq}
use smrt.PackStream.{
  Editor, PackRoom, editor_key, room_key, Presence, insert_name, sort_names, room_roster, editors,
  join, drop_presence,
}
use mathlib.Core.Option.{some_inj}
use mathlib.Core.Path.{subst}
use smrt.Keyed.{HasKeys}
use smrt.Table.{upsert, update, HasPrimaryKey}
use smrt.Table.Laws.{
  changed, updated_cases, select-upsert_same, select-upsert_other, select-update_map,
  upsert-HasPrimaryKey, update-HasPrimaryKey, delete-HasPrimaryKey,
}
use smrt.PackStream.{PackEvent, new_room, count_in, count_out, enter_room, publish}
use smrt.PackStream.Entry.{drop-no_room, drop-no_entry, drop-entry}

pub insert-mem :
    (new name : Text) (names : List Text)
    → Memᴰ name (insert_name new names) ↔ Memᴰ name (new ∷ names)
insert-mem new name [] = (λ m. m, λ m. m)
insert-mem new name (n ∷ names) = elim (Bool-cases (text_lt new n)) [
  | inl e ↦ rw e (λ m. m, λ m. m)
  | inr e ↦ rw e (
      ground (
        arith,
        insert-mem new name names,
        Memᴰ-cons name n (insert_name new names),
        Memᴰ-cons name new names,
        Memᴰ-cons name new (n ∷ names),
        Memᴰ-cons name n names,
      ))
]

pub sort-mem : (name : Text) (names : List Text) → Memᴰ name (sort_names names) ↔ Memᴰ name names
sort-mem name [] = (λ m. m, λ m. m)
sort-mem name (n ∷ names) = ground (
  arith,
  insert-mem n name (sort_names names),
  Memᴰ-cons name n (sort_names names),
  Memᴰ-cons name n names,
  sort-mem name names,
)

-- the names of a room's map are those that it finds
pub map-mem :
    (login : Text) (es : List Editor)
    → Memᴰ login (map editor_key es) ↔ (is_some (select editor_key login es) ≡ true)
unfolding select
map-mem login [] = (λ m. absurd (Memᴰ.not-nil m), λ h. cc)
map-mem login (e ∷ es) = ground (
  arith,
  map-mem login es,
  Memᴰ-cons login e.login (map editor_key es),
  text_eq_iff e.login login,
)

-- each name stands once in the list
abbrev pub IsOnce : List Text → Type 0
IsOnce names = HasKeys (λ name. name) names

insert-IsOnce :
    (new : Text) (names : List Text)
    → ¬ Memᴰ new names
    → IsOnce names
    → IsOnce (insert_name new names)
insert-IsOnce new [] out h = (λ y m. absurd (Memᴰ.not-nil m), tt)
insert-IsOnce new (n ∷ names) out h = elim (Bool-cases (text_lt new n)) [
  | inl e ↦ rw e (λ y m same. out (subst (λ x. Memᴰ x (n ∷ names)) same m), h)
  | inr e ↦ rw e (
    λ y m same.
        ⊎_elim (λ q. out (Memᴰ.head (sym q ∙ same))) (λ k. h.0 y k same)
          (Memᴰ.cases_cons ((insert-mem new y names).0 m)),
    insert-IsOnce new names (λ m. out (Memᴰ.tail m)) h.1,
  )
]

sort-IsOnce : (names : List Text) → IsOnce names → IsOnce (sort_names names)
sort-IsOnce [] h = tt
sort-IsOnce (n ∷ names) h =
    insert-IsOnce n (sort_names names) (λ m. h.0 n ((sort-mem n names).0 m) refl)
      (sort-IsOnce names h.1)

map-IsOnce : (es : List Editor) → HasPrimaryKey editor_key es → IsOnce (map editor_key es)
map-IsOnce [] p = tt
map-IsOnce (e ∷ es) p = (
  λ y m same.
      cc (ap is_some p.0, (map-mem e.login es).0 (subst (λ x. Memᴰ x (map editor_key es)) same m)),
  map-IsOnce es p.1,
)

count_out-HasPrimaryKey :
    (login : Text) (es left : List Editor)
    → count_out login es ≡ some left
    → HasPrimaryKey editor_key es
    → HasPrimaryKey editor_key left
unfolding count_out
count_out-HasPrimaryKey login es left h p = elim (Option-cases (select editor_key login es)) [
  | inl e ↦ cc (rw e at h)
  | inr (found, e) ↦ elim (Bool-cases (ltb 1 found.count)) [
    | inl big ↦
        subst (HasPrimaryKey editor_key) (some_inj.0 (rw (e, big) at h))
          (update-HasPrimaryKey editor_key es login (λ x. true) _ (λ x. refl) p)
    | inr small ↦
        subst (HasPrimaryKey editor_key) (some_inj.0 (rw (e, small) at h))
          (delete-HasPrimaryKey editor_key es login p)
  ]
]

-- No room counts a login twice.
abbrev pub AreKeyed : List PackRoom → Type 0
AreKeyed rooms =
    (p : Text) (room : PackRoom)
    → select room_key p rooms ≡ some room
    → HasPrimaryKey editor_key room.editors

update-AreKeyed :
    (rooms : List PackRoom) (p : Text) (change : PackRoom → PackRoom)
    → ((r : PackRoom) → (change r).pack_id ≡ r.pack_id)
    → ((r : PackRoom)
        → HasPrimaryKey editor_key r.editors
        → HasPrimaryKey editor_key (change r).editors)
    → AreKeyed rooms
    → AreKeyed (update room_key p (λ r. true) change rooms)
update-AreKeyed rooms p change same keeps h q room e =
    let found = sym (select-update_map room_key rooms q p (λ r. true) change same) ∙ e in
    elim (Option-cases (select room_key q rooms)) [
      | inl f ↦ cc (rw f at found)
      | inr (r, f) ↦
          subst (λ x. HasPrimaryKey editor_key x.editors) (some_inj.0 (rw f at found))
            (⊎_elim (λ k. subst (λ x. HasPrimaryKey editor_key x.editors) (sym k) (h q r f))
              (λ (_, k).
                subst (λ x. HasPrimaryKey editor_key x.editors) (sym k) (keeps r (h q r f)))
              (updated_cases room_key p (λ x. true) change r))
    ]

publish-AreKeyed :
    (rooms : List PackRoom) (p : Text) (event : PackEvent)
    → AreKeyed rooms
    → AreKeyed (publish rooms p event)
unfolding publish
publish-AreKeyed rooms p event h = update-AreKeyed rooms p _ (λ r. refl) (λ r k. k) h

entered-HasPrimaryKey :
    (o : Option PackRoom) (p login : Text)
    → ((r : PackRoom) → o ≡ some r → HasPrimaryKey editor_key r.editors)
    → HasPrimaryKey editor_key
        (changed room_key (enter_room login (new_room p)) (enter_room login) o).editors
unfolding enter_room count_in
entered-HasPrimaryKey none p login h = upsert-HasPrimaryKey editor_key _ _ [] (λ e. refl) tt
entered-HasPrimaryKey (some r) p login h =
    upsert-HasPrimaryKey editor_key _ _ r.editors (λ e. refl) (h r refl)

pub join-AreKeyed :
    (rooms : List PackRoom) (p login : Text) → AreKeyed rooms → AreKeyed (join rooms p login).0
unfolding join
join-AreKeyed rooms p login h = publish-AreKeyed _ p _ entered
  where
    entered : AreKeyed (upsert room_key (enter_room login (new_room p)) (enter_room login) rooms)
    entered q room e = elim (Bool-cases (q == p)) [
      | inl same ↦
          let at =
            select-upsert_same room_key (enter_room login (new_room p)) (enter_room login) rooms
              (λ r. unfold enter_room in refl) in
          subst (λ x. HasPrimaryKey editor_key x.editors)
            (some_inj.0 (sym at ∙ (rw ((text_eq_iff q p).0 same) at e)))
            (entered-HasPrimaryKey (select room_key p rooms) p login (h p))
      | inr other ↦ h q room (
          sym (
            select-upsert_other room_key (enter_room login (new_room p)) (enter_room login) rooms q
              (λ r. unfold enter_room in refl) (λ r. cc (other, (text_eq_iff q p).1 r)))
          ∙ e)
    ]

pub drop-AreKeyed :
    (rooms : List PackRoom) (presence : Presence)
    → AreKeyed rooms
    → AreKeyed (drop_presence rooms presence)
drop-AreKeyed rooms presence h = elim (Option-cases (select room_key presence.pack_id rooms)) [
  | inl e ↦ subst AreKeyed (sym (drop-no_room rooms presence e)) h
  | inr (room, e) ↦ elim (Option-cases (count_out presence.login room.editors)) [
    | inl f ↦ subst AreKeyed (sym (drop-no_entry rooms presence room e f)) h
    | inr (left, f) ↦
        let kept =
          count_out-HasPrimaryKey presence.login room.editors left f (h presence.pack_id room e) in
        subst AreKeyed (sym (drop-entry rooms presence room left e f)) (
          publish-AreKeyed _ presence.pack_id _ (
            update-AreKeyed rooms presence.pack_id (λ r. record r { editors = left }) (λ r. refl)
              (λ r k. kept) h))
  ]
]

pub editors-IsOnce : (rooms : List PackRoom) (p : Text) → AreKeyed rooms → IsOnce (editors rooms p)
unfolding editors room_roster
editors-IsOnce rooms p h = elim (Option-cases (select room_key p rooms)) [
  | inl e ↦ rw (e, editors) tt
  | inr (room, e) ↦
      rw (e, editors)
        (sort-IsOnce (map editor_key room.editors) (map-IsOnce room.editors (h p room e)))
]
