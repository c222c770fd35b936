-- ===== src/Storage/Paths.antt =====
-- Where the paths of src/storage.rs lead: a path is walked segment by segment, as the system does it,
-- where an empty segment and `.` stay and `..` goes up.
use smrt.Base.{
  ℕ, ◌≡◌, refl, sym, ap, ◌∙◌, ◌⊎◌, inl, inr, Bool, true, false, not, ◌&&◌, ◌||◌, none, List, [],
  ◌∷◌, ◌++◌, arith, nat_eq, if◌then◌else◌, ◌==◌, ℕ-Eq, Bool-cases, Option-cases, all, Text, txt,
  text_eq, text_eq_iff, Text-Eq, strip_prefix, split_once, split, is_digit, ℤ-Eq,
}
use smrt.Base.Splits.{strip_prefix-some, split_once-some, split-append, split-none}
use smrt.Worklist.{push_all}
use smrt.Http.{done, done_inj}
use smrt.Storage.{
  is_alphanumeric, is_empty, starts_with, is_flat_id, is_safe_id, is_segment, is_id_char,
  is_safe_rel_path, validate_rel_path, join_path, pack_static_path, namespaced, community,
}

abbrev slash : ℕ → Bool
slash c = nat_eq c b'/'

abbrev pub segments : Text → List Text
segments path = split slash path

abbrev up : List Text → List Text
up [] = []
up (s ∷ stack) = stack

-- one segment, from the folder whose path, last folder first, is the stack
abbrev pub enter : List Text → Text → List Text
enter stack s =
    if is_empty s || s == txt "." then stack else if s == txt ".." then up stack else s ∷ stack

abbrev pub walk : List Text → List Text → List Text
walk stack [] = stack
walk stack (s ∷ ss) = walk (enter stack s) ss

abbrev is_plain : Text → Bool
is_plain s = not (is_empty s) && not (starts_with b'.' s)

enter-plain : (stack : List Text) (s : Text) → is_plain s ≡ true → enter stack s ≡ s ∷ stack
unfolding txt text_eq
enter-plain stack [] h = cc
enter-plain stack (c ∷ s) h = ground arith

walk-plain :
    (stack segs : List Text) → all is_plain segs ≡ true → walk stack segs ≡ push_all segs stack
walk-plain stack [] h = refl
walk-plain stack (s ∷ segs) h =
    ap (λ l. walk l segs) (enter-plain stack s (ground arith))
    ∙ walk-plain (s ∷ stack) segs (ground arith)

walk-append : (stack xs ys : List Text) → walk stack (xs ++ ys) ≡ walk (walk stack xs) ys
walk-append stack [] ys = refl
walk-append stack (x ∷ xs) ys = walk-append (enter stack x) xs ys

-- a join is one path behind the other
segments-join :
    (root name : Text)
    → starts_with b'/' name ≡ false
    → segments (join_path root name) ≡ segments root ++ segments name
unfolding join_path
segments-join root name h = rw h (split-append slash root name b'/' (ground arith))

walk-join :
    (stack : List Text) (root name : Text)
    → starts_with b'/' name ≡ false
    → all is_plain (segments name) ≡ true
    → walk stack (segments (join_path root name))
      ≡ push_all (segments name) (walk stack (segments root))
walk-join stack root name h p =
    ap (walk stack) (segments-join root name h)
    ∙ walk-append stack (segments root) (segments name)
    ∙ walk-plain (walk stack (segments root)) (segments name) p

-- a path of plain segments does not start at the root
plain-relative : (s : Text) → all is_plain (segments s) ≡ true → starts_with b'/' s ≡ false
unfolding split
plain-relative [] h = refl
plain-relative (c ∷ s) h = elim (Bool-cases (nat_eq c b'/')) [ inl e ↦ cc (rw e at h) | inr e ↦ e ]

segment-plain : (segs : List Text) → all is_segment segs ≡ true → all is_plain segs ≡ true
segment-plain [] h = refl
segment-plain (s ∷ segs) h = ground (arith, segment-plain segs)

rel_path-plain : (rel : Text) → is_safe_rel_path rel ≡ true → all is_plain (segments rel) ≡ true
unfolding is_safe_rel_path
rel_path-plain rel h = segment-plain (segments rel) (ground arith)

no_slash : (s : Text) → all is_id_char s ≡ true → all (λ c. not (slash c)) s ≡ true
unfolding is_alphanumeric
no_slash [] h = refl
no_slash (c ∷ s) h = ground (arith, no_slash s)

no_slash_digits : (s : Text) → all is_digit s ≡ true → all (λ c. not (slash c)) s ≡ true
unfolding is_digit
no_slash_digits [] h = refl
no_slash_digits (c ∷ s) h = ground (arith, no_slash_digits s)

-- a flat id is one plain segment
flat_id-segments : (s : Text) → is_flat_id s ≡ true → segments s ≡ s ∷ []
unfolding is_flat_id
flat_id-segments s h = split-none slash s (no_slash s (ground arith))

flat_id-plain : (s : Text) → is_flat_id s ≡ true → is_plain s ≡ true
unfolding is_flat_id
flat_id-plain s h = ground arith

is_empty_ne : (s : Text) → not (is_empty s) ≡ true → ¬ (s ≡ [])
is_empty_ne [] h q = cc
is_empty_ne (c ∷ s) h q = cc

-- an id that is let through is a flat id, or names a community namespace and a flat id in it
pub is_safe_id_cases :
    (s : Text)
    → is_safe_id s ≡ true
    → ((¬ (s ≡ txt "u")) × (is_flat_id s ≡ true))
      ⊎ ((uid : Text) × (pack : Text) × (s ≡ txt "u/" ++ (uid ++ (b'/' ∷ pack)))
          × (¬ (uid ≡ []))
          × (all is_digit uid ≡ true)
          × (is_flat_id pack ≡ true))
unfolding is_safe_id
is_safe_id_cases s h = elim (Option-cases (strip_prefix (txt "u/") s)) [
  | inl e ↦
      let flat : namespaced s none ≡ true = rw e at h in
      let other : (s == txt "u") ≡ false = ground arith in
      inl (λ q. cc (other, (text_eq_iff s (txt "u")).1 q), ground arith)
  | inr (rest, e) ↦
      let found : community (split_once b'/' rest) ≡ true = rw e at h in
      let uid = (split_once b'/' rest).0 in
      elim (Option-cases (split_once b'/' rest).1) [
        | inl f ↦ cc (rw (f, community) at found)
        | inr (pack, f) ↦
            let parts : not (is_empty uid) && all is_digit uid && is_flat_id pack ≡ true =
              rw (f, community) at found in
            inr (
              uid,
              pack,
              strip_prefix-some (txt "u/") s rest e
                  ∙ ap (λ t. txt "u/" ++ t) (split_once-some b'/' rest pack f),
              λ q. is_empty_ne uid (ground arith) q,
              ground arith,
              ground arith,
            )
      ]
]

digits-plain : (s : Text) → ¬ (s ≡ []) → all is_digit s ≡ true → is_plain s ≡ true
unfolding is_digit
digits-plain [] n h = absurd (n refl)
digits-plain (c ∷ s) n h = ground arith

id-plain : (s : Text) → is_safe_id s ≡ true → all is_plain (segments s) ≡ true
unfolding split txt
id-plain s h = elim (is_safe_id_cases s h) [
  | inl (_, flat) ↦ let plain = flat_id-plain s flat in rw (flat_id-segments s flat) (ground arith)
  | inr (uid, pack, e, n, digits, flat) ↦
      let whole : segments s ≡ (txt "u") ∷ (uid ∷ (pack ∷ [])) =
        ap segments e
        ∙ split-append slash (txt "u") (uid ++ (b'/' ∷ pack)) b'/' refl
        ∙ ap (λ l. segments (txt "u") ++ l) (split-append slash uid pack b'/' refl)
        ∙ rw (split-none slash uid (no_slash_digits uid digits), flat_id-segments pack flat) refl in
      let plain = flat_id-plain pack flat in
      let owner = digits-plain uid n digits in rw whole (ground arith)
]

folder-segments :
    (segments (txt "packs") ≡ txt "packs" ∷ []) × (segments (txt "static") ≡ txt "static" ∷ [])
unfolding txt
folder-segments = (split-none slash (txt "packs") refl, split-none slash (txt "static") refl)

-- joining a folder's name
walk-join_folder :
    (stack : List Text) (root name : Text)
    → segments name ≡ name ∷ []
    → is_plain name ≡ true
    → walk stack (segments (join_path root name)) ≡ name ∷ walk stack (segments root)
walk-join_folder stack root name one plain =
    let all_plain : all is_plain (segments name) ≡ true = rw one (ground arith) in
    walk-join stack root name (plain-relative name all_plain) all_plain
    ∙ ap (λ l. push_all l (walk stack (segments root))) one

pack_static_path-done :
    (root pack_id rel path : Text)
    → pack_static_path root pack_id rel ≡ done path
    → (is_safe_id pack_id ≡ true)
      × (is_safe_rel_path rel ≡ true)
      × (path
          ≡ join_path
              (join_path (join_path (join_path root (txt "packs")) pack_id) (txt "static"))
              rel)
unfolding pack_static_path validate_rel_path
pack_static_path-done root pack_id rel path h = elim (Bool-cases (is_safe_id pack_id)) [
  | inl e ↦ elim (Bool-cases (is_safe_rel_path rel)) [
    | inl f ↦ (e, f, sym (done_inj _ path (rw (e, f) at h)))
    | inr f ↦ cc (rw (e, f) at h)
  ]
  | inr e ↦ cc (rw e at h)
]

-- The path of a pack's file is the file's own path inside `packs/<pack id>/static` below the root,
-- whatever was asked for: walked segment by segment from any place it goes down by the names of the
-- id and of the file, with no step up and none left out.
pub pack_static_path-walk :
    (root pack_id rel path : Text) (stack : List Text)
    → pack_static_path root pack_id rel ≡ done path
    → walk stack (segments path)
      ≡ push_all
          (segments rel)
          (txt "static" ∷ push_all (segments pack_id) (txt "packs" ∷ walk stack (segments root)))
unfolding txt
pack_static_path-walk root pack_id rel path stack h =
    let (safe_id, safe_rel, e) = pack_static_path-done root pack_id rel path h in
    let id = id-plain pack_id safe_id in
    let file = rel_path-plain rel safe_rel in
    ap (λ p. walk stack (segments p)) e
    ∙ walk-join stack _ rel (plain-relative rel file) file
    ∙ ap (push_all (segments rel)) (
        walk-join_folder stack _ (txt "static") folder-segments.1 refl
        ∙ ap (λ l. txt "static" ∷ l)
            (walk-join stack _ pack_id (plain-relative pack_id id) id
              ∙ ap (push_all (segments pack_id))
                  (walk-join_folder stack root (txt "packs") folder-segments.0 refl)))
