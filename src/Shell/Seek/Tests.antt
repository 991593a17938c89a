-- ===== src/Shell/Seek/Tests.antt =====
-- Seeking in the arguments of a player.
use rusttgcalls.Prelude.{◌≡◌, refl, lit, List, Text, [], ◌∷◌, text_eq}
use rusttgcalls.Shell.Seek.{inject_seek, clean, keep, insert_seek}
use rusttgcalls.Shell.Seek.Again.{inject_seek_again}

abbrev given : List Text
given = lit "-ss" ∷ lit "3" ∷ lit "-re" ∷ lit "-i" ∷ lit "a" ∷ lit "-ss" ∷ lit "1" ∷ []

seek_moved :
    inject_seek given (lit "7")
    ≡ lit "-re" ∷ lit "-ss" ∷ lit "7" ∷ lit "-i" ∷ lit "a" ∷ lit "-ss" ∷ lit "1" ∷ []
unfolding inject_seek clean keep insert_seek text_eq lit
seek_moved = refl

inject_seek_again_example :
    inject_seek (inject_seek given (lit "7")) (lit "9") ≡ inject_seek given (lit "9")
inject_seek_again_example = inject_seek_again given (lit "7") (lit "9")
