-- ===== src/PackStream/Here.antt =====
-- Who src/authoring/packstream.rs says is in a pack, after any sequence of joins and leaves.
use smrt.Base.{
  ℕ, zero, suc, ◌<◌, ◌≡◌, refl, sym, ap, ◌∙◌, ◌↔◌, inl, inr, true, Option, none, some, List, [],
  ◌∷◌, map, Memᴰ, arith, ◌==◌, ℕ-Eq, Bool-cases, Option-cases, is_some, ◌>>=◌, Text, Text-Eq, ℤ-Eq,
}
use mathlib.Core.List.Memᴰ
use mathlib.Core.Logic.{⊎_elim}
use smrt.Table.{select, Pair-Eq}
use smrt.PackStream.{
  Editor, PackRoom, editor_key, room_key, Presence, room_roster, editors, join, drop_presence,
}
use smrt.PackStream.Entry.{entry}
use smrt.PackStream.Names.{
  sort-mem, map-mem, IsOnce, AreKeyed, join-AreKeyed, drop-AreKeyed, editors-IsOnce,
}
use smrt.PackStream.Roster.{
  Live, occurrences, remove_one, Implements, join-Implements, drop-Implements, tally,
}

-- A tab opens a pack as somebody, or a tab that somebody had on it closes.
pub data Move : Type 0 where
  opens : (pack_id : Text) → (login : Text) → Move
  closes : Presence → Move

abbrev pub run_rooms : List Move → List PackRoom
run_rooms [] = []
run_rooms (opens pack_id login ∷ earlier) = (join (run_rooms earlier) pack_id login).0
run_rooms (closes presence ∷ earlier) = drop_presence (run_rooms earlier) presence

abbrev pub run_live : List Move → Live
run_live [] = []
run_live (opens pack_id login ∷ earlier) = (pack_id, login) ∷ run_live earlier
run_live (closes presence ∷ earlier) =
    remove_one (presence.pack_id, presence.login) (run_live earlier)

run-Implements : (moves : List Move) → Implements (run_rooms moves) (run_live moves)
run-Implements [] = λ p l. unfold select in refl
run-Implements (opens p l ∷ earlier) =
    join-Implements (run_rooms earlier) (run_live earlier) p l (run-Implements earlier)
run-Implements (closes presence ∷ earlier) =
    drop-Implements (run_rooms earlier) (run_live earlier) presence (run-Implements earlier)

occurrences-mem : (p : Text × Text) (live : Live) → Memᴰ p live ↔ (0 < occurrences p live)
occurrences-mem p [] = (λ m. absurd (Memᴰ.not-nil m), λ h. absurd (omega arith))
occurrences-mem p (q ∷ live) =
    let rest = occurrences-mem p live in
    elim (Bool-cases (q == p)) [
      | inl e ↦ rw e (λ m. omega arith, λ h. Memᴰ.head (sym ((Pair-Eq.same_iff q p).0 e)))
      | inr e ↦ rw e (
        λ m.
            ⊎_elim (λ same. cc (e, (Pair-Eq.same_iff q p).1 (sym same)))
              (λ r. let positive = rest.0 r in omega arith) (Memᴰ.cases_cons m),
        λ h. Memᴰ.tail (rest.1 (omega arith)),
      )
    ]

counted_iff : (o : Option Editor) → (is_some (o >>= λ e. some e.count) ≡ true) ↔ (is_some o ≡ true)
counted_iff none = ground arith
counted_iff (some e) = ground arith

editors-mem :
    (rooms : List PackRoom) (p l : Text)
    → Memᴰ l (editors rooms p) ↔ (is_some (entry rooms p l) ≡ true)
unfolding editors room_roster
editors-mem rooms p l = elim (Option-cases (select room_key p rooms)) [
  | inl e ↦ rw (e, editors) (λ m. absurd (Memᴰ.not-nil m), λ h. cc)
  | inr (room, e) ↦
      let sorted = sort-mem l (map editor_key room.editors) in
      let mapped = map-mem l room.editors in
      let counted = counted_iff (select editor_key l room.editors) in
      rw (e, editors)
        (λ m. counted.1 (mapped.0 (sorted.0 m)), λ h. sorted.1 (mapped.1 (counted.0 h)))
]

tally_iff : (n : ℕ) → (is_some (tally n) ≡ true) ↔ (0 < n)
tally_iff zero = ground arith
tally_iff (suc n) = ground arith

run-AreKeyed : (moves : List Move) → AreKeyed (run_rooms moves)
run-AreKeyed [] = λ p room e. unfold select in cc e
run-AreKeyed (opens p l ∷ earlier) = join-AreKeyed (run_rooms earlier) p l (run-AreKeyed earlier)
run-AreKeyed (closes presence ∷ earlier) =
    drop-AreKeyed (run_rooms earlier) presence (run-AreKeyed earlier)

-- After any sequence of tabs that open and close packs, the mirror believes to be in a pack exactly the
-- people who have it open in some tab, and lists each of them once: a second tab does not double a
-- person, and closing one of two does not remove them.
pub roster_mem :
    (moves : List Move) (pack_id login : Text)
    → (Memᴰ login (editors (run_rooms moves) pack_id) ↔ Memᴰ (pack_id, login) (run_live moves))
      × IsOnce (editors (run_rooms moves) pack_id)
roster_mem moves pack_id login =
    let listed = editors-mem (run_rooms moves) pack_id login in
    let counted = run-Implements moves pack_id login in
    let some_tally = tally_iff (occurrences (pack_id, login) (run_live moves)) in
    let alive = occurrences-mem (pack_id, login) (run_live moves) in
    (
      (
        λ m. alive.1 (some_tally.0 (sym (ap is_some counted) ∙ listed.0 m)),
        λ m. listed.1 (ap is_some counted ∙ some_tally.1 (alive.0 m)),
      ),
      editors-IsOnce (run_rooms moves) pack_id (run-AreKeyed moves),
    )
