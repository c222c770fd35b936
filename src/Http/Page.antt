-- ===== src/Http/Page.antt =====
-- src/http/page.rs: paging by a cursor, and the handler of src/http/admin.rs that pages the audit trail.
-- The base64 library is the record Base64, whose `decode` also turns the bytes into a text.
mod Cut
mod Number
mod Rest
pub mod Walk
use smrt.Base.{
  ℕ, suc, min, max, ◌+◌, Bool, false, not, ◌&&◌, Option, none, some, List, [], ◌∷◌, ◌++◌, map, ltb,
  nat_eq, if◌then◌else◌, ℕ-Eq, is_some, ◌>>=◌, length, retain, take, Text, txt, Text-Eq,
  strip_prefix, split, show, ℤ, parse_i64,
}
use smrt.Gate.{join}
use smrt.Accounts.Audit.{AuditRow, list_audit}

abbrev pub max_page : ℕ
max_page = 500

pub record PageQuery : Type 0 where
  pub limit : Option ℕ
  pub after : Option Text

-- `n.clamp(1, MAX_PAGE)`
abbrev pub clamped : ℕ → ℕ
clamped n = max 1 (min n max_page)

unfoldable pub probe : PageQuery → Option ℕ
probe page = page.limit >>= λ n. some (suc (clamped n))

unfoldable pub size : PageQuery → Option ℕ
size page = page.limit >>= λ n. some (clamped n)

-- `rows.last()`
abbrev pub last {ℓ} : {A : Type ℓ} → List A → Option A
last [] = none
last (x ∷ []) = some x
last (x ∷ y ∷ xs) = last (y ∷ xs)

abbrev pub first {ℓ} : {A : Type ℓ} → List A → Option A
first [] = none
first (x ∷ xs) = some x

pub record Base64 : Type 0 where
  pub encode : Text → Text
  pub decode : Text → Option Text

module _ (base64 : Base64) where
  unfoldable pub encode : List Text → Text
  unfolding join
  encode parts = base64.encode (join (31 ∷ []) parts)

  unfoldable pub decode : Text → Option (List Text)
  unfolding split
  decode cursor = base64.decode cursor >>= λ text. some (split (λ c. nat_eq c 31) text)

  unfoldable pub cursor : PageQuery → Option (List Text)
  unfolding decode
  cursor page = page.after >>= λ after. decode after

  -- `PageQuery::split`, past a size of the page
  abbrev pub split_at {ℓ} : {A : Type ℓ} → ℕ → List A → (A → List Text) → List A × Option Text
  split_at n rows key = (
    take n rows,
    if ltb n (length rows) then (last (take n rows) >>= λ row. some (encode (key row))) else none,
  )

  unfoldable pub split_page {ℓ} :
      {A : Type ℓ} → PageQuery → List A → (A → List Text) → List A × Option Text
  unfolding size encode
  split_page page rows key = elim (size page) [ none ↦ (rows, none) | some n ↦ split_at n rows key ]

  abbrev or_recent : Option ℕ → ℕ
  or_recent none = 200
  or_recent (some n) = n

  -- the handler: a page of the trail, and the cursor of the next one
  unfoldable pub get_audit_log : List AuditRow → PageQuery → List AuditRow × Option Text
  unfolding split_page cursor probe
  get_audit_log trail page =
      let before : Option ℤ = (cursor page >>= λ parts. first parts) >>= λ id. parse_i64 id in
      split_page page (list_audit trail (or_recent (probe page)) before) (λ r. show r.id ∷ [])

-- the address of the next page
unfoldable pub link : Text → Option Text → Text → Text
unfolding join split
link path query cursor =
    let kept : List Text =
      retain (λ p. not (nat_eq (length p) 0) && not (is_some (strip_prefix (txt "after=") p)))
        (split (λ c. nat_eq c b'&') (elim query [ none ↦ [] | some q ↦ q ])) in
    path ++ (b'?' ∷ join (txt "&") (kept ++ ((txt "after=" ++ cursor) ∷ [])))
