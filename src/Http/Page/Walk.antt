-- ===== src/Http/Page/Walk.antt =====
-- Reading the audit trail of src/http/admin.rs page by page.
use mathlib.Core.Path.{subst}
use smrt.Gate.{join}
use smrt.Table.{HasPrimaryKey}
use smrt.Accounts.Audit.{AuditRow, list_audit, is_before, newest_first}
use smrt.Http.Page.{
  PageQuery, Base64, clamped, last, first, probe, size, encode, decode, cursor, split_at,
  split_page, get_audit_log,
}
use smrt.Base.{
  ℕ, zero, suc, ◌^◌, ◌≤◌, ◌<◌, ◌≡◌, refl, sym, ap, ◌∙◌, inl, inr, true, false, Option, none, some,
  List, [], ◌∷◌, ◌++◌, arith, ltb, if◌then◌else◌, ℕ-Eq, Bool-cases, ◌>>=◌, length, drop, retain,
  take, Memᴰ, Memᴰ-retain, Text, show, ℤ, pos, parse_i64,
}
use smrt.Accounts.Audit.Newest.{
  IsNewestFirst, audit_key, newest_first-mem, newest_first-IsNewestFirst, length-newest_first,
}
use smrt.Http.Page.Cut.{take-take, length-take, take_all, take-drop, length-drop, last_of}
use smrt.Http.Page.Rest.{
  last_take-mem, drop-IsNewestFirst, mem-drop, retain-drop, is_before-older, retain-none,
  retain-retain,
}
use smrt.Http.Page.Number.{split-show, parse_i64-show}

module _ (base64 : Base64) (trail : List AuditRow) (limit : ℕ) where
  abbrev pub page_after : Option Text → PageQuery
  page_after after = record { limit = some limit; after = after }

  -- where the page of a cursor begins
  abbrev before_of : Option Text → Option ℤ
  before_of after =
      (cursor base64 (page_after after) >>= λ parts. first parts) >>= λ id. parse_i64 id

  -- a page in front of what is read from its cursor
  abbrev pub follow :
      List AuditRow × Option Text → (Text → Option (List AuditRow)) → Option (List AuditRow)
  follow got read = elim got.1 [
    | none ↦ some got.0
    | some next ↦ read next >>= λ rest. some (got.0 ++ rest)
  ]

  -- The pages one after another, each from the cursor that the one in front of it named; `none` where
  -- the given number of pages does not reach the last.
  abbrev pub read_pages : ℕ → Option Text → Option (List AuditRow)
  read_pages zero after = none
  read_pages (suc pages) after =
      follow (get_audit_log base64 trail (page_after after)) (λ next. read_pages pages (some next))

  abbrev row_key : AuditRow → List Text
  row_key r = show r.id ∷ []

  served :
      (after : Option Text) (rows : List AuditRow)
      → retain (is_before (before_of after)) (newest_first trail) ≡ rows
      → get_audit_log base64 trail (page_after after)
        ≡ split_at base64 (clamped limit) (take (suc (clamped limit)) rows) row_key
  unfolding get_audit_log list_audit split_page size probe
  served after rows h =
      ap (λ l. split_at base64 (clamped limit) (take (suc (clamped limit)) l) row_key) h

  before_of-encode :
      (n : ℕ)
      → ((text : Text) → base64.decode (base64.encode text) ≡ some text)
      → n < 2 ^ 63
      → before_of (some (encode base64 (show n ∷ []))) ≡ some (pos n)
  unfolding cursor decode encode join
  before_of-encode n back b = rw (back, split-show, parse_i64-show n b) refl

  page-rest :
      (after : Option Text) (rows : List AuditRow)
      → retain (is_before (before_of after)) (newest_first trail) ≡ rows
      → get_audit_log base64 trail (page_after after) ≡ (
        take (clamped limit) rows,
        if ltb (clamped limit) (length rows)
            then (last (take (clamped limit) rows) >>= λ row. some (encode base64 (row_key row)))
            else none,
      )
  page-rest after rows h =
      served after rows h
      ∙ rw (take-take (clamped limit) rows, length-take (clamped limit) rows) refl

  clamped_pos : 0 < clamped limit
  clamped_pos = ground arith

  -- the cursor of a page's last row leaves what the page left
  behind_page :
      (after : Option Text) (rows : List AuditRow) (row : AuditRow)
      → ((text : Text) → base64.decode (base64.encode text) ≡ some text)
      → retain (is_before (before_of after)) (newest_first trail) ≡ rows
      → IsNewestFirst rows
      → last (take (clamped limit) rows) ≡ some row
      → row.id < 2 ^ 63
      → retain (is_before (before_of (some (encode base64 (row_key row))))) (newest_first trail)
        ≡ drop (clamped limit) rows
  behind_page after rows row back h s f b =
      let before = before_of after in
      let here = last_take-mem (clamped limit) rows row f in
      let passed =
        ((Memᴰ-retain (is_before before) row (newest_first trail)).0
          (subst (λ l. Memᴰ row l) (sym h) here)).1 in
      ap (λ z. retain (is_before z) (newest_first trail)) (before_of-encode row.id back b)
      ∙ sym (
          retain-retain before row.id (newest_first trail)
            (λ y. is_before-older before row y passed))
      ∙ ap (retain (is_before (some (pos row.id)))) h
      ∙ retain-drop (clamped limit) rows row s f

  read_last :
      (pages : ℕ) (after : Option Text) (rows : List AuditRow)
      → retain (is_before (before_of after)) (newest_first trail) ≡ rows
      → ltb (clamped limit) (length rows) ≡ false
      → read_pages (suc pages) after ≡ some rows
  read_last pages after rows h e =
      ap (λ got. follow got (λ next. read_pages pages (some next))) (page-rest after rows h)
      ∙ rw e (ap {B = Option (List AuditRow)} some (take_all (clamped limit) rows e))

  read_more :
      (pages : ℕ) (after : Option Text) (rows : List AuditRow) (row : AuditRow)
      → retain (is_before (before_of after)) (newest_first trail) ≡ rows
      → ltb (clamped limit) (length rows) ≡ true
      → last (take (clamped limit) rows) ≡ some row
      → read_pages pages (some (encode base64 (row_key row))) ≡ some (drop (clamped limit) rows)
      → read_pages (suc pages) after ≡ some rows
  read_more pages after rows row h e f older =
      ap (λ got. follow got (λ next. read_pages pages (some next))) (page-rest after rows h)
      ∙ rw (e, f, older) (ap {B = Option (List AuditRow)} some (take-drop (clamped limit) rows))

  -- what is left behind a cursor is read in as many pages as there are rows, or one
  read_pages-rest :
      (pages : ℕ) (after : Option Text) (rows : List AuditRow)
      → ((text : Text) → base64.decode (base64.encode text) ≡ some text)
      → retain (is_before (before_of after)) (newest_first trail) ≡ rows
      → IsNewestFirst rows
      → ((y : AuditRow) → Memᴰ y rows → y.id < 2 ^ 63)
      → length rows ≤ pages
      → read_pages (suc pages) after ≡ some rows
  read_pages-rest zero after rows back h s b len = read_last zero after rows h (ground arith)
  read_pages-rest (suc pages) after rows back h s b len =
      elim (Bool-cases (ltb (clamped limit) (length rows))) [
        | inr e ↦ read_last (suc pages) after rows h e
        | inl e ↦
            let (row, f) = last_of (clamped limit) rows clamped_pos e in
            let mem = last_take-mem (clamped limit) rows row f in
            read_more (suc pages) after rows row h e f (
              read_pages-rest pages (some (encode base64 (row_key row))) (drop (clamped limit) rows)
                back (behind_page after rows row back h s f (b row mem))
                (drop-IsNewestFirst (clamped limit) rows s)
                (λ y m. b y (mem-drop (clamped limit) y rows m))
                (omega (arith, length-drop (clamped limit) rows, len, clamped_pos)))
      ]

  from_start : retain (is_before (before_of none)) (newest_first trail) ≡ newest_first trail
  unfolding cursor
  from_start = retain-none (newest_first trail)

  -- Following the cursors from the first page on, whatever size of page is asked for, reads the whole
  -- audit trail in the order of its listing, which is by falling ids, so that no row is read twice; it
  -- comes to a last page after at most one page more than there are rows. That is where base64
  -- decodes what it encoded, no id stands twice in the trail and all are below 2^63.
  pub read_pages-newest_first :
      ((text : Text) → base64.decode (base64.encode text) ≡ some text)
      → HasPrimaryKey audit_key trail
      → ((y : AuditRow) → Memᴰ y trail → y.id < 2 ^ 63)
      → (read_pages (suc (length trail)) none ≡ some (newest_first trail))
        × IsNewestFirst (newest_first trail)
  read_pages-newest_first back keyed small =
      let ordered = newest_first-IsNewestFirst trail keyed in
      (
        read_pages-rest (length trail) none (newest_first trail) back from_start ordered
            (λ y m. small y (newest_first-mem y trail m))
            (omega (arith, length-newest_first trail)),
        ordered,
      )
