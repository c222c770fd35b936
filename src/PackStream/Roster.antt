-- ===== src/PackStream/Roster.antt =====
-- The roster of src/authoring/packstream.rs against its specification: the people who have the pack open.
use smrt.Base.{
  ℕ, zero, suc, ◌+◌, ◌-◌, ◌≡◌, refl, sym, ap, ◌∙◌, inl, inr, false, ◌&&◌, Option, none, some, List,
  [], ◌∷◌, arith, if◌then◌else◌, ◌==◌, ℕ-Eq, Bool-cases, Text, Text-Eq, ℤ-Eq,
}
use smrt.Table.{Pair-Eq}
use mathlib.Core.Path.{subst}
use smrt.PackStream.{PackRoom, Presence, join, drop_presence}
use smrt.PackStream.Entry.{entry, entry-join, entry-drop, more, less}

-- the specification's state: one entry for each subscription that is alive
abbrev pub Live : Type 0
Live = List (Text × Text)

abbrev pub occurrences : Text × Text → Live → ℕ
occurrences p [] = 0
occurrences p (q ∷ live) = (if q == p then 1 else 0) + occurrences p live

abbrev pub remove_one : Text × Text → Live → Live
remove_one p [] = []
remove_one p (q ∷ live) = let rest = remove_one p live in if q == p then live else q ∷ rest

-- what the specification says of the count
abbrev pub tally : ℕ → Option ℕ
tally zero = none
tally (suc n) = some (suc n)

-- The rooms count what is alive.
abbrev pub Implements : List PackRoom → Live → Type 0
Implements rooms live =
    (pack_id login : Text) → entry rooms pack_id login ≡ tally (occurrences (pack_id, login) live)

more-tally : (n : ℕ) → some (more (tally n)) ≡ tally (suc n)
more-tally zero = refl
more-tally (suc n) = refl

less-tally : (n : ℕ) → less (tally n) ≡ tally (n - 1)
less-tally zero = refl
less-tally (suc zero) = refl
less-tally (suc (suc n)) = ground arith

occurrences-remove_same :
    (p : Text × Text) (live : Live) → occurrences p (remove_one p live) ≡ occurrences p live - 1
occurrences-remove_same p [] = refl
occurrences-remove_same p (x ∷ live) = ground (arith, occurrences-remove_same p live)

-- the test on a pair of names, whichever stands first
test_sym : (p q : Text × Text) → (p == q) ≡ (q == p)
test_sym p q = elim (Bool-cases (q == p)) [
  | inl e ↦ (Pair-Eq.same_iff p q).1 (sym ((Pair-Eq.same_iff q p).0 e)) ∙ sym e
  | inr e ↦ elim (Bool-cases (p == q)) [
    | inl f ↦ cc ((Pair-Eq.same_iff q p).1 (sym ((Pair-Eq.same_iff p q).0 f)))
    | inr f ↦ f ∙ sym e
  ]
]

occurrences-remove_other :
    (p q : Text × Text) (live : Live)
    → (q == p) ≡ false
    → occurrences q (remove_one p live) ≡ occurrences q live
occurrences-remove_other p q [] h = refl
occurrences-remove_other p q (x ∷ live) h = elim (Bool-cases (x == p)) [
  | inl e ↦
      let apart : (x == q) ≡ false =
        subst (λ y. (y == q) ≡ false) (sym ((Pair-Eq.same_iff x p).0 e)) (test_sym p q ∙ h) in
      rw (e, apart) (omega arith)
  | inr e ↦ rw e (ap (λ n. (if x == q then 1 else 0) + n) (occurrences-remove_other p q live h))
]

pub join-Implements :
    (rooms : List PackRoom) (live : Live) (p l : Text)
    → Implements rooms live
    → Implements (join rooms p l).0 ((p, l) ∷ live)
join-Implements rooms live p l h q k = entry-join rooms p l q k ∙ joined
  where
    joined :
        (if (q == p) && (k == l) then some (more (entry rooms p l)) else entry rooms q k)
        ≡ tally (occurrences (q, k) ((p, l) ∷ live))
    joined = rw (test_sym (p, l) (q, k)) (elim (Bool-cases ((q == p) && (k == l))) [
      | inl e ↦
          let same : ◌≡◌ {A = Text × Text} (q, k) (p, l) = (Pair-Eq.same_iff (q, k) (p, l)).0 e in
          let step : suc (occurrences (q, k) live) ≡ 1 + occurrences (q, k) live = omega arith in
          rw (e, h p l)
            (more-tally (occurrences (p, l) live)
              ∙ ap (λ x. tally (suc (occurrences x live))) (sym same)
              ∙ ap tally step)
      | inr e ↦
          let skip : occurrences (q, k) live ≡ 0 + occurrences (q, k) live = omega arith in
          rw e (h q k ∙ ap tally skip)
    ])

pub drop-Implements :
    (rooms : List PackRoom) (live : Live) (presence : Presence)
    → Implements rooms live
    → Implements (drop_presence rooms presence) (remove_one (presence.pack_id, presence.login) live)
drop-Implements rooms live presence h q k =
    entry-drop rooms presence q k
    ∙ elim (Bool-cases ((q == presence.pack_id) && (k == presence.login))) [
      | inl e ↦
          let same : ◌≡◌ {A = Text × Text} (q, k) (presence.pack_id, presence.login) =
            (Pair-Eq.same_iff (q, k) (presence.pack_id, presence.login)).0 e in
          rw (e, h presence.pack_id presence.login)
            (less-tally _
              ∙ ap tally (sym (occurrences-remove_same (presence.pack_id, presence.login) live))
              ∙ ap (λ x. tally (occurrences x (remove_one (presence.pack_id, presence.login) live)))
                  (sym same))
      | inr e ↦ rw e (
          h q k
          ∙ ap tally
              (sym (occurrences-remove_other (presence.pack_id, presence.login) (q, k) live e)))
    ]
