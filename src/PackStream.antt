-- ===== src/PackStream.antt =====
-- src/authoring/packstream.rs: who has which pack open, and what they are told. A broadcast channel is
-- the list of what was sent on it, and a receiver reads from where it subscribed; that a slow receiver is
-- dropped after 32 events is left out.
mod Entry
mod Names
pub mod Roster
pub mod Here
mod Tests
use smrt.Base.{
  ℕ, suc, ◌+◌, ◌-◌, ◌*◌, ◌/◌, ◌<◌, ap, true, Option, none, some, List, [], ◌∷◌, ◌++◌, map, ltb,
  if◌then◌else◌, ℕ-Eq, ◌>>=◌, length, drop, Text, Text-Eq, text_lt, pos, ℤ-Eq,
}
use smrt.Table.{select, upsert, update, delete}

pub data PackEvent : Type 0 where
  saved : (rev : Text) → (by : Text) → PackEvent
  present : (editors : List Text) → PackEvent
  doc : (by : Text) → (update : Text) → PackEvent
  committed : (id : Text) → (by : Text) → (message : Text) → PackEvent

-- an entry of `editors: HashMap<String, usize>`
pub record Editor : Type 0 where
  pub login : Text
  pub count : ℕ

pub record PackRoom : Type 0 where
  pub pack_id : Text
  pub tx : Option (List PackEvent)
  pub editors : List Editor

abbrev pub editor_key : Editor → Text
editor_key e = e.login

abbrev pub room_key : PackRoom → Text
room_key r = r.pack_id

pub record Presence : Type 0 where
  pub pack_id : Text
  pub login : Text
  pub events_from : ℕ

-- `names.sort()`
abbrev pub insert_name : Text → List Text → List Text
insert_name name [] = name ∷ []
insert_name name (n ∷ names) =
    let rest = insert_name name names in if text_lt name n then name ∷ n ∷ names else n ∷ rest

abbrev pub sort_names : List Text → List Text
sort_names [] = []
sort_names (n ∷ names) = insert_name n (sort_names names)

unfoldable pub room_roster : PackRoom → List Text
room_roster room = sort_names (map editor_key room.editors)

-- `*room.editors.entry(login).or_insert(0) += 1`
unfoldable pub count_in : Text → List Editor → List Editor
count_in login editors =
    upsert editor_key (record { login = login; count = 1 }) (λ e. record e { count = suc e.count })
      editors

abbrev sent_or_new : Option (List PackEvent) → List PackEvent
sent_or_new none = []
sent_or_new (some sent) = sent

-- the room that `join` leaves: its channel exists, and the login is counted
unfoldable pub enter_room : Text → PackRoom → PackRoom
unfolding count_in
enter_room login room = record room {
  tx = some (sent_or_new room.tx);
  editors = count_in login room.editors;
}

abbrev pub new_room : Text → PackRoom
new_room pack_id = record { pack_id = pack_id; tx = none; editors = [] }

abbrev told : PackEvent → Option (List PackEvent) → Option (List PackEvent)
told event none = none
told event (some sent) = some (sent ++ (event ∷ []))

unfoldable pub publish : List PackRoom → Text → PackEvent → List PackRoom
publish rooms pack_id event =
    update room_key pack_id (λ r. true) (λ r. record r { tx = told event r.tx }) rooms

abbrev or_empty : Option PackRoom → List Text
or_empty none = []
or_empty (some room) = room_roster room

unfoldable pub editors : List PackRoom → Text → List Text
unfolding room_roster
editors rooms pack_id = or_empty (select room_key pack_id rooms)

abbrev position : Option PackRoom → ℕ
position none = 0
position (some room) = length (sent_or_new room.tx)

unfoldable pub join : List PackRoom → Text → Text → List PackRoom × Presence
unfolding enter_room publish editors
join rooms pack_id login =
    let entered : List PackRoom =
      upsert room_key (enter_room login (new_room pack_id)) (enter_room login) rooms in
    (
      publish entered pack_id (present (editors entered pack_id)),
      record {
        pack_id = pack_id;
        login = login;
        events_from = position (select room_key pack_id entered);
      },
    )

-- the entry of the login after one presence less; `none` where there is no entry
abbrev count_out_found : Text → List Editor → Option Editor → Option (List Editor)
count_out_found login editors none = none
count_out_found login editors (some e) = some (
    if ltb 1 e.count
    then update editor_key login (λ x. true) (λ x. record x { count = x.count - 1 }) editors
    else delete editor_key login editors)

unfoldable pub count_out : Text → List Editor → Option (List Editor)
count_out login editors = count_out_found login editors (select editor_key login editors)

unfoldable pub leave : List PackRoom → Text → Text → Option (List PackRoom × List Text)
unfolding count_out room_roster
leave rooms pack_id login = do
  room ← select room_key pack_id rooms
  left ← count_out login room.editors
  some (
    update room_key pack_id (λ r. true) (λ r. record r { editors = left }) rooms,
    room_roster (record room { editors = left }),
  )

-- `Drop for Presence`
unfoldable pub drop_presence : List PackRoom → Presence → List PackRoom
unfolding leave publish
drop_presence rooms presence = elim (leave rooms presence.pack_id presence.login) [
  | none ↦ rooms
  | some (left, roster) ↦ publish left presence.pack_id (present roster)
]
