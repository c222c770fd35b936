-- ===== src/Domain/Version/Channel.antt =====
-- The channel vocabulary of src/domain/version.rs.
use smrt.Base.{◌≡◌, refl, ◌↔◌, false, some, arith, ℕ-Eq, Text, txt, text_eq, text_eq_iff, Text-Eq}
use smrt.Domain.Version.{VersionChannel, channel_str, parse_channel}

channel_words :
    (text_eq (txt "beta") (txt "release") ≡ false)
    × (text_eq (txt "alpha") (txt "release") ≡ false)
    × (text_eq (txt "alpha") (txt "beta") ≡ false)
unfolding text_eq txt
channel_words = (refl, refl, refl)

-- `parse` reads a text as a channel exactly when the text is what `as_str` writes for it.
pub parse_channel_iff :
    (c : VersionChannel) (t : Text) → (parse_channel t ≡ some c) ↔ (t ≡ channel_str c)
unfolding parse_channel channel_str
parse_channel_iff c t = ground (
  arith,
  channel_words,
  text_eq_iff t (txt "release"),
  text_eq_iff t (txt "beta"),
  text_eq_iff t (txt "alpha"),
)
