-- ===== src/Storage/Tests.antt =====
-- The theorem on the paths of src/storage.rs at a pack of a community namespace.
use smrt.Base.{
  ◌≡◌, refl, [], ◌∷◌, ℕ-Eq, txt, text_eq, Text-Eq, strip_prefix, split_once, split, is_digit, ℤ-Eq,
  as_bytes, utf8,
}
use smrt.Worklist.{push_all}
use smrt.Storage.{
  is_alphanumeric, len, is_flat_id, is_safe_id, is_safe_rel_path, validate_rel_path, join_path,
  pack_static_path,
}
use smrt.Storage.Paths.{segments, walk, pack_static_path-walk}

pack_static_path-walk_example :
    walk [] (segments (txt "data/packs/u/7/industrial/static/_pack/banner.png"))
    ≡ push_all (segments (txt "_pack/banner.png")) (
        txt "static"
        ∷ push_all
            (segments (txt "u/7/industrial"))
            (txt "packs" ∷ walk [] (segments (txt "data"))))
unfolding pack_static_path is_safe_id is_flat_id is_alphanumeric len is_safe_rel_path
    validate_rel_path join_path txt text_eq as_bytes utf8 split split_once strip_prefix is_digit
pack_static_path-walk_example =
    pack_static_path-walk (txt "data") (txt "u/7/industrial") (txt "_pack/banner.png")
      (txt "data/packs/u/7/industrial/static/_pack/banner.png") [] refl
