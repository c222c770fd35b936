-- ===== src/PackStream/Tests.antt =====
-- The theorem on src/authoring/packstream.rs: one person, two tabs, of which one closes.
use smrt.Base.{◌↔◌, List, [], ◌∷◌, Memᴰ, ℕ-Eq, txt, Text-Eq, ℤ-Eq}
use smrt.PackStream.{Presence, editors}
use smrt.PackStream.Names.{IsOnce}
use smrt.PackStream.Here.{Move, opens, closes, run_rooms, run_live, roster_mem}

abbrev tab : Presence
tab = record { pack_id = txt "industrial"; login = txt "ada"; events_from = 0 }

abbrev two_tabs : List Move
two_tabs =
    closes tab ∷ opens (txt "industrial") (txt "ada") ∷ opens (txt "industrial") (txt "ada") ∷ []

roster_mem_example :
    (Memᴰ (txt "ada") (editors (run_rooms two_tabs) (txt "industrial"))
      ↔ Memᴰ (txt "industrial", txt "ada") (run_live two_tabs))
    × IsOnce (editors (run_rooms two_tabs) (txt "industrial"))
roster_mem_example = roster_mem two_tabs (txt "industrial") (txt "ada")
